-- ===== src/Receiver/Restored.antt =====
-- internal/receiver/receiver.go: what is saved of last_seq is read back.
use vm_sync.Base.{
  ℕ, zero, suc, ◌+◌, ◌-◌, ◌*◌, ◌/◌, ◌%◌, ◌^◌, ◌<◌, ◌≡◌, ◌⊎◌, refl, ap, ◌∙◌, Bool, true, false, List,
  [], ◌∷◌, ◌++◌, Option, none, some, All, All-append, arith, trim_space, trim_left, is_space,
  is_digit, leading_digits, digits_loop, parse_digits, within_int64, if◌then◌else◌, ltb, Bool-cases,
  inl, inr,
}
use native.Mathlib.Nat.{pow-suc}
use mathlib.Core.List.{reverse, reverse_aux, reverse-append, reverse-reverse}
use vm_sync.Base.Int.{ℤ, pos}
use vm_sync.Receiver.Saved.{
  digits_text, int_text, SeqDir, SaveEnv, renamed, after_cut, save_last_seq, scan_int, from_file,
  load_last_seq,
}

abbrev IsDigit : ℕ → Type 0
IsDigit c = is_digit c ≡ true

digits_text-IsDigit : (fuel n : ℕ) → All IsDigit (digits_text fuel n)
unfolding digits_text is_digit
digits_text-IsDigit zero n = (ground arith, tt)
digits_text-IsDigit (suc fuel) n = elim (Bool-cases (ltb n 10)) [
  | inl small ↦ rw small (ground (arith, small), tt)
  | inr large ↦ rw large (
      All-append IsDigit (digits_text fuel (n / 10)) _ (digits_text-IsDigit fuel (n / 10))
        (ground arith, tt))
]

-- Reading goes on behind digits that were read.
digits_loop-append :
    (acc a : ℕ) (s t : List ℕ)
    → digits_loop acc s ≡ some a
    → digits_loop acc (s ++ t) ≡ digits_loop a t
unfolding digits_loop
digits_loop-append acc a [] t e = ground (arith, e)
digits_loop-append acc a (c ∷ s) t e = elim (Bool-cases (is_digit c)) [
  | inl d ↦ rw d (digits_loop-append (acc * 10 + (c - 48)) a s t (rw d at e))
  | inr n ↦ absurd (ground (arith, e, n))
]

one_digit : (acc d : ℕ) → d < 10 → digits_loop acc ((48 + d) ∷ []) ≡ some (acc * 10 + d)
unfolding digits_loop is_digit
one_digit acc d h = ground (arith, h)

digits_loop-digits_text :
    (fuel n : ℕ) → n < 10 ^ suc fuel → digits_loop 0 (digits_text fuel n) ≡ some n
unfolding digits_text
digits_loop-digits_text zero n h =
    one_digit 0 (n % 10) (omega arith) ∙ ap (λ (m : ℕ). some m) (omega (arith, h))
digits_loop-digits_text (suc fuel) n h = elim (Bool-cases (ltb n 10)) [
  | inl small ↦
      rw small (one_digit 0 n (ground (arith, small)) ∙ ap (λ (m : ℕ). some m) (omega arith))
  | inr large ↦ rw large (
      digits_loop-append 0 (n / 10) (digits_text fuel (n / 10)) ((48 + n % 10) ∷ [])
        (digits_loop-digits_text fuel (n / 10) (omega (arith, rw (pow-suc 10 (suc fuel)) at h)))
      ∙ one_digit (n / 10) (n % 10) (omega arith)
      ∙ ap (λ (m : ℕ). some m) (omega arith))
]

leading_digits-digits : (s : List ℕ) → All IsDigit s → leading_digits s ≡ s
unfolding leading_digits
leading_digits-digits [] h = refl
leading_digits-digits (c ∷ s) h = rw h.0 (ap (λ (l : List ℕ). c ∷ l) (leading_digits-digits s h.1))

-- No digit is white space.
trim_left-digit : (c : ℕ) (s : List ℕ) → IsDigit c → trim_left (c ∷ s) ≡ c ∷ s
unfolding trim_left is_space is_digit
trim_left-digit c s h = ground (arith, h)

trim_left-newline : (s : List ℕ) → trim_left (10 ∷ s) ≡ trim_left s
unfolding trim_left is_space
trim_left-newline s = refl

trim_left-digits : (s : List ℕ) → All IsDigit s → trim_left s ≡ s
unfolding trim_left
trim_left-digits [] h = refl
trim_left-digits (c ∷ s) h = trim_left-digit c s h.0

All-reverse_aux : (s t : List ℕ) → All IsDigit s → All IsDigit t → All IsDigit (reverse_aux s t)
All-reverse_aux [] t h k = k
All-reverse_aux (c ∷ s) t h k = All-reverse_aux s (c ∷ t) h.1 (h.0, k)

-- A text of digits with the newline behind it.
trim_space-line :
    (c : ℕ) (s : List ℕ) → All IsDigit (c ∷ s) → trim_space ((c ∷ s) ++ 10 ∷ []) ≡ c ∷ s
unfolding trim_space
trim_space-line c s h =
    ap (λ l. reverse (trim_left (reverse l))) (trim_left-digit c (s ++ 10 ∷ []) h.0)
    ∙ ap (λ l. reverse (trim_left l)) (reverse-append (c ∷ s) (10 ∷ []))
    ∙ ap reverse (
        trim_left-newline (reverse (c ∷ s))
        ∙ trim_left-digits (reverse (c ∷ s)) (All-reverse_aux (c ∷ s) [] h tt))
    ∙ reverse-reverse (c ∷ s)

abbrev IsCons : List ℕ → Type 0
IsCons [] = ⊥
IsCons (c ∷ s) = Unit

IsCons-append : (s : List ℕ) (c : ℕ) → IsCons (s ++ c ∷ [])
IsCons-append [] c = tt
IsCons-append (d ∷ s) c = tt

digits_text-IsCons : (fuel n : ℕ) → IsCons (digits_text fuel n)
unfolding digits_text
digits_text-IsCons zero n = tt
digits_text-IsCons (suc fuel) n = elim (Bool-cases (ltb n 10)) [
  | inl small ↦ rw small tt
  | inr large ↦ rw large (IsCons-append (digits_text fuel (n / 10)) (48 + n % 10))
]

scan_digits :
    (c : ℕ) (s : List ℕ) (n : ℕ)
    → All IsDigit (c ∷ s)
    → digits_loop 0 (c ∷ s) ≡ some n
    → n < 2 ^ 63
    → scan_int (c ∷ s) ≡ some (pos n)
unfolding scan_int within_int64 parse_digits is_digit
scan_digits c s n d e small = ground (
  arith,
  not_sign,
  small,
  ap within_int64 (ap parse_digits (leading_digits-digits (c ∷ s) d) ∙ e),
)
  where
    not_sign : (c ≡ 45) ⊎ (c ≡ 43) → ⊥
    not_sign h = ground (arith, h, d.0)

from_line :
    (t : List ℕ) (n : ℕ)
    → All IsDigit t
    → IsCons t
    → digits_loop 0 t ≡ some n
    → n < 2 ^ 63
    → from_file true (some (t ++ 10 ∷ [])) ≡ some (pos n)
from_line [] n d k e small = absurd k
from_line (c ∷ s) n d k e small = ap scan_int (trim_space-line c s d) ∙ scan_digits c s n d e small

-- The saving has replaced the file by the new text, or has left it as it was.
abbrev Replaced : List ℕ → SeqDir → Bool × SeqDir → Type 0
Replaced text d (true, d') = d'.file ≡ some text
Replaced text d (false, d') = d'.file ≡ d.file

renamed-Replaced :
    (e : SaveEnv) (text : List ℕ) (d : SeqDir)
    → Replaced text d (renamed e (record d { tmp = some text }))
renamed-Replaced e text d = by_calls e.sync_ok e.close_ok e.rename_ok
  where
    by_calls :
        (a b c : Bool)
        → Replaced text d (
            if a
            then if b
              then if c
                then (true, record { tmp = none; file = some text })
                else (false, record d { tmp = some text })
              else (false, record d { tmp = some text })
            else (false, record d { tmp = some text }))
    by_calls false b c = refl
    by_calls true false c = refl
    by_calls true true false = refl
    by_calls true true true = refl

after_cut-Replaced :
    (e : SaveEnv) (text : List ℕ) (cut : Option ℕ) (d : SeqDir)
    → Replaced text d (after_cut e text cut d)
after_cut-Replaced e text none d = renamed-Replaced e text d
after_cut-Replaced e text (some n) d = refl

Replaced-if :
    (text : List ℕ) (d : SeqDir) (b : Bool) (r : Bool × SeqDir)
    → Replaced text d r
    → Replaced text d (if b then r else (false, d))
Replaced-if text d true r h = h
Replaced-if text d false r h = refl

save_last_seq-Replaced :
    (e : SaveEnv) (seq : ℤ) (d : SeqDir)
    → Replaced (int_text seq ++ 10 ∷ []) d (save_last_seq e seq d)
unfolding save_last_seq
save_last_seq-Replaced e seq d =
    Replaced-if _ d e.mkdir_ok _
      (Replaced-if _ d e.open_ok _ (after_cut-Replaced e (int_text seq ++ 10 ∷ []) e.cut d))

-- What a later start reads: the saved number if the saving worked, and what it would have read before
-- if it did not.
abbrev pub Restores : ℕ → SeqDir → Bool × SeqDir → Type 0
Restores n d (true, d') = load_last_seq true d' ≡ some (pos n)
Restores n d (false, d') = load_last_seq true d' ≡ load_last_seq true d

Restores-of :
    (n : ℕ) (d : SeqDir) (r : Bool × SeqDir)
    → n < 2 ^ 63
    → Replaced (int_text (pos n) ++ 10 ∷ []) d r
    → Restores n d r
unfolding load_last_seq int_text
Restores-of n d (true, d') small h =
    ap (from_file true) h
    ∙ from_line (digits_text 18 n) n (digits_text-IsDigit 18 n) (digits_text-IsCons 18 n)
        (digits_loop-digits_text 18 n (omega (arith, small))) small
Restores-of n d (false, d') small h = ap (from_file true) h

-- Whichever call of the system fails, and after however many bytes, a sequence number that fits an
-- int64 is read back by the next start if saveLastSeq has returned without an error; if it returned
-- one, the next start reads what it would have read before.
pub load_last_seq-save_last_seq :
    (e : SaveEnv) (n : ℕ) (d : SeqDir) → n < 2 ^ 63 → Restores n d (save_last_seq e (pos n) d)
load_last_seq-save_last_seq e n d small =
    Restores-of n d (save_last_seq e (pos n) d) small (save_last_seq-Replaced e (pos n) d)
