-- ===== src/Base/Maps.antt =====
-- A Go map from uint64s as an association list: the first entry of a key counts.
use Prim.Native.Nat.{ℕ, suc}
use mathlib.Core.Path.{◌≡◌, refl, ap}
use mathlib.Core.Logic.{inl, inr}
use mathlib.Core.Bool.{Bool, true, false}
use mathlib.Core.List.{List, [], ◌∷◌}
use mathlib.Core.Option.{Option, none, some}
use native.Mathlib.Omega.{arith}
use vm_sync.Base.Tests.{if◌then◌else◌, ◌==◌, Bool-cases}
use vm_sync.Base.Lists.{length, delete}

module _ {ℓ} {V : Type ℓ} where
  unfoldable pub get : ℕ → List (ℕ × V) → Option V
  get k [] = none
  get k ((j, v) ∷ m) = let rest = get k m in if k == j then some v else rest

  -- The `ok` of a look-up.
  abbrev pub has : ℕ → List (ℕ × V) → Bool
  has k m = elim (get k m) [ some v ↦ true | none ↦ false ]

  -- delete(m, k)
  unfoldable pub remove : ℕ → List (ℕ × V) → List (ℕ × V)
  remove k [] = []
  remove k ((j, v) ∷ m) = let rest = remove k m in if k == j then rest else (j, v) ∷ rest

  -- m[k] = v
  unfoldable pub put : ℕ → V → List (ℕ × V) → List (ℕ × V)
  put k v m = (k, v) ∷ remove k m

  pub get-remove :
      (k j : ℕ) (m : List (ℕ × V)) → get j (remove k m) ≡ (if j == k then none else get j m)
  unfolding get remove
  get-remove k j [] = ground arith
  get-remove k j ((i, v) ∷ m) = ground (arith, get-remove k j m)

  pub get-put :
      (k j : ℕ) (v : V) (m : List (ℕ × V))
      → get j (put k v m) ≡ (if j == k then some v else get j m)
  unfolding get put
  get-put k j v m = ground (arith, get-remove k j m)

  abbrev pub keys : List (ℕ × V) → List ℕ
  keys [] = []
  keys ((k, v) ∷ m) = k ∷ keys m

  pub length-keys : (m : List (ℕ × V)) → length (keys m) ≡ length m
  length-keys [] = refl
  length-keys (e ∷ m) = ap suc (length-keys m)

  pub keys-remove : (k : ℕ) (m : List (ℕ × V)) → keys (remove k m) ≡ delete k (keys m)
  unfolding remove
  keys-remove k [] = refl
  keys-remove k ((j, v) ∷ m) = elim (Bool-cases (k == j)) [
    | inl same ↦ rw same (keys-remove k m)
    | inr other ↦ rw other (ap (λ (l : List ℕ). j ∷ l) (keys-remove k m))
  ]

  pub keys-put : (k : ℕ) (v : V) (m : List (ℕ × V)) → keys (put k v m) ≡ k ∷ delete k (keys m)
  unfolding put
  keys-put k v m = ap (λ (l : List ℕ). k ∷ l) (keys-remove k m)
