-- ===== src/Protocol/Bytes.antt =====
-- encoding/binary's BigEndian, for every width: PutUint16, PutUint32 and PutUint64 are
-- `put_be` at 2, 4 and 8 bytes, and Uint16, Uint32, Uint64 are `be_value` of such a slice.
use vm_sync.Base.{ℕ, zero, suc, ◌+◌, ◌*◌, ◌/◌, ◌%◌, ◌^◌, ◌≤◌, ◌<◌, ◌≡◌, refl, ◌∙◌, ap, arith}
use vm_sync.Base.{
  List, [], ◌∷◌, ◌++◌, length, length-append, append_assoc, append-nil, All, All-append,
}
use native.Mathlib.Nat.{pow-suc}

abbrev pub IsByte : ℕ → Type 0
IsByte b = b < 256

unfoldable pub put_be : ℕ → ℕ → List ℕ
put_be zero v = []
put_be (suc k) v = put_be k (v / 256) ++ (v % 256 ∷ [])

unfoldable pub be_loop : ℕ → List ℕ → ℕ
be_loop acc [] = acc
be_loop acc (b ∷ bs) = be_loop (acc * 256 + b) bs

abbrev pub be_value : List ℕ → ℕ
be_value = be_loop 0

pub length-put_be : (k v : ℕ) → length (put_be k v) ≡ k
unfolding put_be
length-put_be zero v = refl
length-put_be (suc k) v =
    omega (arith, length-append (put_be k (v / 256)) (v % 256 ∷ []), length-put_be k (v / 256))

pub put_be-IsByte : (k v : ℕ) → All IsByte (put_be k v)
unfolding put_be
put_be-IsByte zero v = tt
put_be-IsByte (suc k) v =
    All-append IsByte (put_be k (v / 256)) (v % 256 ∷ []) (put_be-IsByte k (v / 256)) (omega arith)

be_loop-append : (acc : ℕ) (xs ys : List ℕ) → be_loop acc (xs ++ ys) ≡ be_loop (be_loop acc xs) ys
unfolding be_loop
be_loop-append acc [] ys = refl
be_loop-append acc (x ∷ xs) ys = be_loop-append (acc * 256 + x) xs ys

-- A number that fits its width reads back.
pub be_value-put_be : (k v : ℕ) → v < 256 ^ k → be_value (put_be k v) ≡ v
unfolding put_be be_loop
be_value-put_be zero v h = omega (arith, h)
be_value-put_be (suc k) v h =
    be_loop-append 0 (put_be k (v / 256)) (v % 256 ∷ [])
    ∙ rw (be_value-put_be k (v / 256) (omega (arith, pow-suc 256 k))) (omega arith)

same_width : (j k v : ℕ) → j ≡ k → put_be j v ≡ put_be k v
same_width j k v e = ap (λ (n : ℕ). put_be n v) e

put_be-be_loop :
    (k acc : ℕ) (xs : List ℕ)
    → All IsByte xs
    → put_be (length xs + k) (be_loop acc xs) ≡ put_be k acc ++ xs
unfolding put_be be_loop
put_be-be_loop k acc [] h = rw append-nil (same_width (0 + k) k acc (omega arith))
put_be-be_loop k acc (x ∷ xs) h =
    same_width (suc (length xs) + k) (length xs + suc k) (be_loop (acc * 256 + x) xs) (omega arith)
    ∙ put_be-be_loop (suc k) (acc * 256 + x) xs h.1
    ∙ append_assoc (put_be k ((acc * 256 + x) / 256)) ((acc * 256 + x) % 256 ∷ []) xs
    ∙ rw (quotient, remainder)
  where
    quotient : (acc * 256 + x) / 256 ≡ acc
    quotient = omega (arith, h.0)

    remainder : (acc * 256 + x) % 256 ≡ x
    remainder = omega (arith, h.0)

-- Bytes read as a number are written back as they were.
pub put_be-be_value : (xs : List ℕ) → All IsByte xs → put_be (length xs) (be_value xs) ≡ xs
unfolding put_be
put_be-be_value xs h =
    same_width (length xs) (length xs + 0) (be_value xs) (omega arith) ∙ put_be-be_loop 0 0 xs h

byte_below : (x p : ℕ) → x < 256 → x * p + p ≤ 256 * p
byte_below x p h = grind arith

be_loop-lt : (acc : ℕ) (xs : List ℕ) → All IsByte xs → be_loop acc xs < (acc + 1) * 256 ^ length xs
unfolding be_loop
be_loop-lt acc [] h = omega arith
be_loop-lt acc (x ∷ xs) h =
    rw (pow-suc 256 (length xs))
      (omega (arith, be_loop-lt (acc * 256 + x) xs h.1, byte_below x (256 ^ length xs) h.0))

pub be_value-lt : (xs : List ℕ) → All IsByte xs → be_value xs < 256 ^ length xs
be_value-lt xs h = omega (arith, be_loop-lt 0 xs h)
