-- ===== src/Base/Lists.antt =====
-- Lists measured and cut by native numbers, under the library's names: Go slices.
use Prim.Native.Nat.{ℕ, zero, suc, ◌+◌, ◌-◌, ◌≤◌, ◌<◌, min}
use Prim.Native.Nat.add
use mathlib.Core.Path.{◌≡◌, refl, ap}
use mathlib.Core.Bool.{Bool, true, false, ◌||◌}
use mathlib.Core.List.{List, [], ◌∷◌, ◌++◌}
use mathlib.Core.Option.{Option, none, some}
use native.Mathlib.Omega.{arith}
use vm_sync.Base.Tests.{if◌then◌else◌, ◌==◌, Bool-cases}
use mathlib.Core.Logic.{inl, inr}

module _ {ℓ} {A : Type ℓ} where
  abbrev pub length : List A → ℕ
  length [] = 0
  length (x ∷ xs) = suc (length xs)

  abbrev pub get_elem? : List A → ℕ → Option A
  get_elem? [] i = none
  get_elem? (x ∷ xs) zero = some x
  get_elem? (x ∷ xs) (suc i) = get_elem? xs i

  abbrev pub take : ℕ → List A → List A
  take zero xs = []
  take (suc n) [] = []
  take (suc n) (x ∷ xs) = x ∷ take n xs

  abbrev pub drop : ℕ → List A → List A
  drop zero xs = xs
  drop (suc n) [] = []
  drop (suc n) (x ∷ xs) = drop n xs

  abbrev pub All {κ} : (A → Type κ) → List A → Type κ
  All P [] = Unit {κ}
  All P (x ∷ xs) = P x × All P xs

  pub length-append : (xs ys : List A) → length (xs ++ ys) ≡ length xs + length ys
  length-append [] ys = omega arith
  length-append (x ∷ xs) ys = omega (arith, length-append xs ys)

  pub take-append-drop : (n : ℕ) (xs : List A) → take n xs ++ drop n xs ≡ xs
  take-append-drop zero xs = refl
  take-append-drop (suc n) [] = refl
  take-append-drop (suc n) (x ∷ xs) = ap (λ (r : List A). x ∷ r) (take-append-drop n xs)

  pub length-take : (n : ℕ) (xs : List A) → length (take n xs) ≡ min n (length xs)
  length-take zero xs = omega arith
  length-take (suc n) [] = omega arith
  length-take (suc n) (x ∷ xs) = omega (arith, length-take n xs)

  pub length-drop : (n : ℕ) (xs : List A) → length (drop n xs) ≡ length xs - n
  length-drop zero xs = omega arith
  length-drop (suc n) [] = omega arith
  length-drop (suc n) (x ∷ xs) = omega (arith, length-drop n xs)

  -- Cutting at a list's own length.
  pub take-append_left : (xs ys : List A) → take (length xs) (xs ++ ys) ≡ xs
  take-append_left [] ys = refl
  take-append_left (x ∷ xs) ys = ap (λ (r : List A). x ∷ r) (take-append_left xs ys)

  pub drop-append_left : (xs ys : List A) → drop (length xs) (xs ++ ys) ≡ ys
  drop-append_left [] ys = refl
  drop-append_left (x ∷ xs) ys = drop-append_left xs ys

  pub take-append_take : (a b : ℕ) (xs : List A) → take a xs ++ take b (drop a xs) ≡ take (a + b) xs
  take-append_take zero b xs = rw add.zero
  take-append_take (suc a) zero [] = rw add.suc
  take-append_take (suc a) (suc b) [] = rw add.suc
  take-append_take (suc a) b (x ∷ xs) =
      rw add.suc (ap (λ (r : List A). x ∷ r) (take-append_take a b xs))

  pub drop-drop : (a b : ℕ) (xs : List A) → drop a (drop b xs) ≡ drop (b + a) xs
  drop-drop a zero xs = rw add.zero
  drop-drop zero (suc b) [] = rw add.suc
  drop-drop (suc a) (suc b) [] = rw add.suc
  drop-drop a (suc b) (x ∷ xs) = rw add.suc (drop-drop a b xs)

  pub All-take {κ} : (P : A → Type κ) (n : ℕ) (xs : List A) → All P xs → All P (take n xs)
  All-take P zero xs h = tt
  All-take P (suc n) [] h = tt
  All-take P (suc n) (x ∷ xs) h = (h.0, All-take P n xs h.1)

  pub All-drop {κ} : (P : A → Type κ) (n : ℕ) (xs : List A) → All P xs → All P (drop n xs)
  All-drop P zero xs h = h
  All-drop P (suc n) [] h = tt
  All-drop P (suc n) (x ∷ xs) h = All-drop P n xs h.1

  pub take-append_le : (n : ℕ) (xs ys : List A) → n ≤ length xs → take n (xs ++ ys) ≡ take n xs
  take-append_le zero xs ys h = refl
  take-append_le (suc n) [] ys h = absurd (omega arith)
  take-append_le (suc n) (x ∷ xs) ys h =
      ap (λ (r : List A). x ∷ r) (take-append_le n xs ys (omega arith))

  pub first_of_drop :
      (n : ℕ) (xs : List A) (y : A) (ys : List A)
      → drop n xs ≡ y ∷ ys
      → (get_elem? xs n ≡ some y) × (drop (suc n) xs ≡ ys)
  first_of_drop zero [] y ys e = absurd (ground (arith, e))
  first_of_drop zero (x ∷ xs) y ys e = ground (arith, e)
  first_of_drop (suc n) [] y ys e = absurd (ground (arith, e))
  first_of_drop (suc n) (x ∷ xs) y ys e = first_of_drop n xs y ys e

  pub drop-append_le :
      (n : ℕ) (xs ys : List A) → n ≤ length xs → drop n (xs ++ ys) ≡ drop n xs ++ ys
  drop-append_le zero xs ys h = refl
  drop-append_le (suc n) [] ys h = absurd (omega arith)
  drop-append_le (suc n) (x ∷ xs) ys h = drop-append_le n xs ys (omega arith)

  -- A Go slice expression `buf[i:j]`.
  abbrev pub slice : ℕ → ℕ → List A → List A
  slice i j xs = take (j - i) (drop i xs)

  pub All-append {κ} : (P : A → Type κ) (xs ys : List A) → All P xs → All P ys → All P (xs ++ ys)
  All-append P [] ys h k = k
  All-append P (x ∷ xs) ys h k = (h.0, All-append P xs ys h.1 k)

-- A set or a map's keys as a list of numbers.
abbrev pub contains : ℕ → List ℕ → Bool
contains x [] = false
contains x (y ∷ ys) = x == y || contains x ys

-- No number is listed twice.
abbrev pub Distinct : List ℕ → Type 0
Distinct [] = Unit {0}
Distinct (x ∷ xs) = (contains x xs ≡ false) × Distinct xs

-- `delete(m, k)` on a set.
abbrev pub delete : ℕ → List ℕ → List ℕ
delete x [] = []
delete x (y ∷ ys) = let rest = delete x ys in if x == y then rest else y ∷ rest

pub contains-delete :
    (x y : ℕ) (ys : List ℕ) → contains y (delete x ys) ≡ (if x == y then false else contains y ys)
contains-delete x y [] = ground arith
contains-delete x y (z ∷ ys) = ground (arith, contains-delete x y ys)

pub length-delete-le : (x : ℕ) (ys : List ℕ) → length (delete x ys) ≤ length ys
length-delete-le x [] = omega arith
length-delete-le x (y ∷ ys) = ground (arith, length-delete-le x ys)

pub length-delete-lt :
    (x : ℕ) (ys : List ℕ) → contains x ys ≡ true → length (delete x ys) < length ys
length-delete-lt x [] h = absurd (ground arith)
length-delete-lt x (y ∷ ys) h = ground (arith, length-delete-lt x ys, length-delete-le x ys)

pub contains-append :
    (x : ℕ) (xs ys : List ℕ) → contains x (xs ++ ys) ≡ (contains x xs || contains x ys)
contains-append x [] ys = refl
contains-append x (z ∷ xs) ys = ground (arith, contains-append x xs ys)

pub delete-absent : (x : ℕ) (xs : List ℕ) → contains x xs ≡ false → delete x xs ≡ xs
delete-absent x [] h = refl
delete-absent x (y ∷ xs) h = elim (Bool-cases (x == y)) [
  | inl same ↦ absurd (ground (arith, h, same))
  | inr other ↦
      rw other (ap (λ (l : List ℕ). y ∷ l) (delete-absent x xs (ground (arith, h, other))))
]

pub Distinct-delete : (x : ℕ) (xs : List ℕ) → Distinct xs → Distinct (delete x xs)
Distinct-delete x [] d = tt
Distinct-delete x (y ∷ xs) d = elim (Bool-cases (x == y)) [
  | inl same ↦ rw same (Distinct-delete x xs d.1)
  | inr other ↦ rw other (ground (arith, contains-delete x y xs, d.0), Distinct-delete x xs d.1)
]
