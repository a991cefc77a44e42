-- ===== src/Receiver/Prefix.antt =====
-- What the tracker's loop and `done` do to the prefix and to the set.
use vm_sync.Base.{ℕ, zero, suc, ◌+◌, ◌^◌, ◌≤◌, ◌<◌, ◌≡◌, refl, arith, List, [], ◌∷◌, inl, inr}
use vm_sync.Base.{Bool, true, false, leb, if◌then◌else◌, length, contains, delete, Bool-cases}
use vm_sync.Base.{contains-delete, length-delete-lt, length-delete-le}
use vm_sync.Receiver.Tracker.{Tracker, add64, advance}

-- The set holds uint64s above the prefix.
pub record IsTracked (t : Tracker) : Type 0 where
  pub last_u64 : t.last < 2 ^ 64
  pub beyond : (x : ℕ) → contains x t.pending ≡ true → (t.last < x) × (x < 2 ^ 64)

-- From `t` the loop has reached `u`: all between them was pending, what is above stays, and the
-- next number is not pending.
pub record Advanced (t u : Tracker) : Type 0 where
  pub grows : t.last ≤ u.last
  pub limit : u.last < 2 ^ 64
  pub covers : (x : ℕ) → t.last < x → x ≤ u.last → contains x t.pending ≡ true
  pub keeps :
      (x : ℕ) → contains x u.pending ≡ (if leb x u.last then false else contains x t.pending)
  pub stops : contains (u.last + 1) u.pending ≡ false
  pub shrinks : length u.pending ≤ length t.pending

next-eq : (n : ℕ) → n + 1 < 2 ^ 64 → add64 n 1 ≡ n + 1
next-eq n h = omega arith

-- A number of the set that the loop looks for is the successor, with no wrap.
module _ (t : Tracker) (v : IsTracked t) where
  next_found : contains (add64 t.last 1) t.pending ≡ true → add64 t.last 1 ≡ t.last + 1
  next_found h = let (above, below) = v.beyond (add64 t.last 1) h in omega (arith, v.last_u64)

  next_missing :
      contains (add64 t.last 1) t.pending ≡ false → contains (t.last + 1) t.pending ≡ false
  next_missing h = elim (Bool-cases (contains (t.last + 1) t.pending)) [
    | inl found ↦
        let (_, below) = v.beyond (t.last + 1) found in
        absurd (ground (arith, next-eq t.last below, found))
    | inr missing ↦ missing
  ]

  stay-Advanced : contains (add64 t.last 1) t.pending ≡ false → Advanced t t
  stay-Advanced h = record {
    grows = omega arith;
    limit = v.last_u64;
    covers = λ x lo hi. absurd (omega arith);
    keeps = λ x. ground (arith, v.beyond x);
    stops = next_missing h;
    shrinks = omega arith;
  }

  module _ (found : contains (add64 t.last 1) t.pending ≡ true) where
    abbrev round : Tracker
    round = record { last = add64 t.last 1; pending = delete (add64 t.last 1) t.pending }

    round-IsTracked : IsTracked round
    round-IsTracked = record {
      last_u64 = (v.beyond (add64 t.last 1) found).1;
      beyond = λ x h.
          ground
            (arith, next_found found, contains-delete (add64 t.last 1) x t.pending, v.beyond x);
    }

    round-Advanced : {u : Tracker} → Advanced round u → Advanced t u
    round-Advanced {u} a = record {
      grows = omega (arith, a.grows, next_found found);
      limit = a.limit;
      covers = λ x lo hi.
          ground
            (arith, next_found found, a.covers x, contains-delete (add64 t.last 1) x t.pending);
      keeps = λ x. ground (
        arith,
        next_found found,
        a.grows,
        a.keeps x,
        contains-delete (add64 t.last 1) x t.pending,
        v.beyond x,
      );
      stops = a.stops;
      shrinks = omega (arith, a.shrinks, length-delete-le (add64 t.last 1) t.pending);
    }

-- With the set's size as fuel the loop of `done` reaches a number whose successor is not in the set:
-- it passes numbers of the set only, and keeps those above.
pub advance-Advanced :
    (fuel : ℕ) (t : Tracker) (b : Bool)
    → IsTracked t
    → length t.pending ≤ fuel
    → Advanced t (advance fuel t b).0
unfolding advance
advance-Advanced zero t b v h = stay-Advanced t v (empty t.pending h)
  where
    empty : (ss : List ℕ) → length ss ≤ 0 → contains (add64 t.last 1) ss ≡ false
    empty [] k = refl
    empty (s ∷ ss) k = absurd (omega arith)
advance-Advanced (suc fuel) t b v h = elim (Bool-cases (contains (add64 t.last 1) t.pending)) [
  | inl found ↦ rw found (
      round-Advanced t v found (
        advance-Advanced fuel (round t v found) true (round-IsTracked t v found)
          (omega (arith, length-delete-lt (add64 t.last 1) t.pending found))))
  | inr missing ↦ rw missing (stay-Advanced t v missing)
]
