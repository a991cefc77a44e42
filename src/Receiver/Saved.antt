-- ===== src/Receiver/Saved.antt =====
-- saveLastSeq and loadLastSeq of internal/receiver/receiver.go: the file with the last sequence number.
use vm_sync.Base.{
  ℕ, zero, suc, ◌+◌, ◌/◌, ◌%◌, ◌^◌, Bool, true, false, List, [], ◌∷◌, ◌++◌, Option, none, some,
  take, trim_space, leading_digits, parse_digits, within_int64, if◌then◌else◌, ltb, leb, ◌==◌,
}
use vm_sync.Base.Int.{ℤ, pos, negsuc, sub_ℕ}

-- fmt.Sprintf("%d"): an int64 has 19 digits at most.
unfoldable pub digits_text : ℕ → ℕ → List ℕ
digits_text zero n = (48 + n % 10) ∷ []
digits_text (suc fuel) n =
    let front = digits_text fuel (n / 10) in
    if ltb n 10 then (48 + n) ∷ [] else front ++ (48 + n % 10) ∷ []

unfoldable pub int_text : ℤ → List ℕ
unfolding digits_text
int_text (pos n) = digits_text 18 n
int_text (negsuc n) = 45 ∷ digits_text 18 (suc n)

-- The two files in the directory.
pub record SeqDir : Type 0 where
  pub tmp : Option (List ℕ)
  pub file : Option (List ℕ)

-- Which calls work; `cut` is the number of bytes after which the write fails.
pub record SaveEnv : Type 0 where
  pub mkdir_ok : Bool
  pub open_ok : Bool
  pub cut : Option ℕ
  pub sync_ok : Bool
  pub close_ok : Bool
  pub rename_ok : Bool

-- The calls behind the write, in their order; errors of the directory's sync are passed over.
abbrev pub renamed : SaveEnv → SeqDir → Bool × SeqDir
renamed e d =
    if e.sync_ok
    then if e.close_ok
      then if e.rename_ok then (true, record { tmp = none; file = d.tmp }) else (false, d)
      else (false, d)
    else (false, d)

abbrev pub after_cut : SaveEnv → List ℕ → Option ℕ → SeqDir → Bool × SeqDir
after_cut e text none d = renamed e (record d { tmp = some text })
after_cut e text (some n) d = (false, record d { tmp = some (take n text) })

unfoldable pub save_last_seq : SaveEnv → ℤ → SeqDir → Bool × SeqDir
unfolding int_text
save_last_seq e seq d =
    if e.mkdir_ok
    then if e.open_ok then after_cut e (int_text seq ++ 10 ∷ []) e.cut d else (false, d)
    else (false, d)

-- fmt.Sscanf with "%d": a sign, and the digits that follow.
abbrev pub negated : Option ℕ → Option ℤ
negated none = none
negated (some n) = if leb n (2 ^ 63) then some (sub_ℕ 0 n) else none

abbrev pub not_negated : Option ℕ → Option ℤ
not_negated none = none
not_negated (some n) = some (pos n)

unfoldable pub scan_int : List ℕ → Option ℤ
unfolding leading_digits parse_digits within_int64
scan_int [] = none
scan_int (c ∷ s) =
    if c == 45
    then negated (parse_digits (leading_digits s))
    else if c == 43
    then not_negated (within_int64 (parse_digits (leading_digits s)))
    else not_negated (within_int64 (parse_digits (leading_digits (c ∷ s))))

-- A file that is not there means 0; `readable` is whether the reading of one that is there works.
abbrev pub from_file : Bool → Option (List ℕ) → Option ℤ
from_file readable none = some (pos 0)
from_file readable (some bytes) = if readable then scan_int (trim_space bytes) else none

unfoldable pub load_last_seq : Bool → SeqDir → Option ℤ
unfolding scan_int
load_last_seq readable d = from_file readable d.file
