-- ===== src/Vm/Probe.antt =====
-- ProbeOldestData of internal/vm/client.go: bisection for the oldest sample.
use vm_sync.Base.{ℕ, zero, suc, ◌+◌, ◌-◌, ◌/◌, ◌^◌, ◌≤◌, ◌<◌, ◌≡◌, arith}
use vm_sync.Base.{Bool, true, false, Option, none, some, ltb, if◌then◌else◌, lt→ltb}
use native.Mathlib.Nat.{pow-suc}

-- The loop on [lo, hi], with fuel. `has mid` is ExportHasData on [0, mid); `none` is its error.
unfoldable pub bisect : ℕ → (ℕ → Option Bool) → ℕ → ℕ → Option ℕ
bisect zero has lo hi = none
bisect (suc fuel) has lo hi =
    let mid = lo + (hi - lo) / 2 in
    elim (ltb 1 (hi - lo)) [
      | false ↦ some lo
      | true ↦ elim (has mid) [
        | none ↦ none
        | some true ↦ bisect fuel has lo mid
        | some false ↦ bisect fuel has mid hi
      ]
    ]

-- An int64 has 63 bits, and each round halves the range.
unfoldable pub probe_oldest_data : (ℕ → Option Bool) → ℕ → Option ℕ
unfolding bisect
probe_oldest_data has now = elim (has now) [
  | none ↦ none
  | some false ↦ some 0
  | some true ↦ bisect 64 has 0 now
]

module _ (has : ℕ → Option Bool) (oldest : ℕ)
    (answers : (x : ℕ) → has x ≡ some (ltb oldest x)) where
  bisect_round :
      (fuel lo hi : ℕ)
      → bisect (suc fuel) has lo hi ≡ (
          if ltb 1 (hi - lo)
          then (if ltb oldest (lo + (hi - lo) / 2)
              then bisect fuel has lo (lo + (hi - lo) / 2)
              else bisect fuel has (lo + (hi - lo) / 2) hi)
          else some lo)
  unfolding bisect
  bisect_round fuel lo hi = ground (arith, answers (lo + (hi - lo) / 2))

  bisect-oldest :
      (fuel lo hi : ℕ)
      → lo ≤ oldest
      → oldest < hi
      → hi - lo ≤ 2 ^ fuel
      → bisect (suc fuel) has lo hi ≡ some oldest
  bisect-oldest zero lo hi l h small = rw (bisect_round zero lo hi) (ground arith)
  bisect-oldest (suc fuel) lo hi l h small = rw (bisect_round (suc fuel) lo hi) (
      ground (
        arith,
        pow-suc 2 fuel,
        bisect-oldest fuel lo (lo + (hi - lo) / 2),
        bisect-oldest fuel (lo + (hi - lo) / 2) hi,
      ))

-- On a database whose oldest sample lies before now the search finds it, whatever the time.
pub probe_oldest_data-eq :
    (has : ℕ → Option Bool) (oldest now : ℕ)
    → ((x : ℕ) → has x ≡ some (ltb oldest x))
    → oldest < now
    → now < 2 ^ 63
    → probe_oldest_data has now ≡ some oldest
unfolding probe_oldest_data
probe_oldest_data-eq has oldest now answers h small =
    rw (answers now, lt→ltb oldest now h, probe_oldest_data)
      (bisect-oldest has oldest answers 63 0 now (omega arith) h (omega arith))
