-- ===== src/Startup/Started.antt =====
-- backfillInit of cmd/sender/main.go: the cursor and the policy that a start leaves.
use vm_sync.Base.{
  ℕ, zero, suc, ◌||◌, ◌≡◌, refl, subst, ◌⊎◌, inl, inr, Bool, true, false, Option, none, some,
  if◌then◌else◌, arith,
}
use vm_sync.Base.Int.{ℤ, pos, ◌-ℤ◌, ltb_ℤ}
use vm_sync.Wal.State.{Wal, done, backfill_all_ns}
use vm_sync.Wal.Cursor.{set_cursor, apply_backfill_policy, eq_ℤ}
use vm_sync.Wal.Outcome.{Ends, Ends-if, Ends-and_then, Ends-weaken}
use vm_sync.Wal.Rewind.{IsAt, backfilled, apply_backfill_policy-cursor, set_cursor-IsAt}
use vm_sync.Config.Backfill.{BackfillSpec, backfill_all}
use vm_sync.Startup.Backfilling.{
  Plan, plan_of, first_cursor, probed, record_policy, start_cursor, probe_loop, attempts,
  start_with, backfill_init,
}

-- What the log has once the policy was applied, where it is.
abbrev pub applied_cursor : Plan → Wal → ℤ
applied_cursor plan w =
    if plan.applies then backfilled plan.policy plan.boundary w else w.cp.cursor_ns

abbrev pub applied_policy : Plan → Wal → ℤ
applied_policy plan w = if plan.applies then plan.policy else w.cp.backfill_ns

record_policy-IsAt :
    (clock : ℕ) (plan : Plan) (w : Wal)
    → Ends
        (λ _. IsAt (applied_cursor plan w) (applied_policy plan w))
        (IsAt (applied_cursor plan w) (applied_policy plan w))
        (record_policy clock plan w)
record_policy-IsAt clock plan w = by_case plan.applies
  where
    by_case :
        (b : Bool)
        → Ends
            (λ _.
              IsAt
                (if b then backfilled plan.policy plan.boundary w else w.cp.cursor_ns)
                (if b then plan.policy else w.cp.backfill_ns))
            (IsAt
              (if b then backfilled plan.policy plan.boundary w else w.cp.cursor_ns)
              (if b then plan.policy else w.cp.backfill_ns))
            (if b then apply_backfill_policy clock plan.policy plan.boundary w else done false w)
    by_case true =
        Ends-weaken _ _ _ _ (apply_backfill_policy clock plan.policy plan.boundary w)
          (λ moved v at. at.0) (λ v at. at)
          (apply_backfill_policy-cursor clock plan.policy plan.boundary w)
    by_case false = (refl, refl)

-- The start cursor is used where no cursor is known by then.
abbrev pub started_cursor : ℤ → ℤ → ℤ
started_cursor cursor first = if eq_ℤ cursor (pos 0) then first else cursor

start_cursor-IsAt :
    (clock : ℕ) (first cursor policy : ℤ) (w : Wal)
    → IsAt cursor policy w
    → Ends
        (λ _. IsAt (started_cursor cursor first) policy)
        (λ v. IsAt cursor policy v ⊎ IsAt first policy v)
        (start_cursor clock first w)
start_cursor-IsAt clock first cursor policy w h =
    subst
      (λ c.
        Ends (λ _. IsAt (started_cursor c first) policy)
          (λ v. IsAt c policy v ⊎ IsAt first policy v) (start_cursor clock first w))
      h.0
      (Ends-if (λ _. IsAt (started_cursor w.cp.cursor_ns first) policy)
        (λ v. IsAt w.cp.cursor_ns policy v ⊎ IsAt first policy v) (eq_ℤ w.cp.cursor_ns (pos 0))
        (set_cursor clock first w) (done tt w)
        (λ none_yet. rw none_yet (set_cursor-IsAt clock first w w.cp.cursor_ns policy (refl, h.1)))
        (λ known. rw known (refl, h.1)))

module _ (clock : ℕ) (spec : BackfillSpec) (probe : ℕ → Option ℤ) (lag now : ℤ) (w : Wal) where
  abbrev pub plan : Plan
  plan = plan_of spec.mode spec.dur (probed spec.mode probe) now

  abbrev pub first : ℤ
  first = first_cursor spec.mode (probed spec.mode probe) plan lag now

  -- A start ends without a panic; it leaves the policy recorded if it is to be applied and the old
  -- one otherwise, and the cursor where the policy puts it, or at the first cursor if that is none.
  pub backfill_init-IsAt :
      Ends
        (λ _. IsAt (started_cursor (applied_cursor plan w) first) (applied_policy plan w))
        (λ v.
          IsAt (applied_cursor plan w) (applied_policy plan w) v
          ⊎ IsAt first (applied_policy plan w) v)
        (backfill_init clock spec probe lag now w)
  unfolding backfill_init start_with
  backfill_init-IsAt =
      Ends-and_then (λ _. IsAt (applied_cursor plan w) (applied_policy plan w))
        (λ _. IsAt (started_cursor (applied_cursor plan w) first) (applied_policy plan w))
        (λ v.
          IsAt (applied_cursor plan w) (applied_policy plan w) v
          ⊎ IsAt first (applied_policy plan w) v)
        (record_policy clock plan w) (λ _. start_cursor clock first)
        (Ends-weaken _ _ _ _ (record_policy clock plan w) (λ _ v at. at) (λ v at. inl at)
          (record_policy-IsAt clock plan w))
        (λ _ v at. start_cursor-IsAt clock first _ _ v at)

  abbrev pub as_oldest : Option ℕ → Option ℤ
  as_oldest none = none
  as_oldest (some n) = some (pos n)

  -- What `backfill: all` leaves of a cursor, by what the probe has found.
  abbrev pub IsFromOldest : Option ℕ → Wal → Type 0
  IsFromOldest none v = IsAt (started_cursor w.cp.cursor_ns (now -ℤ lag)) w.cp.backfill_ns v
  IsFromOldest (some zero) v = IsAt (started_cursor w.cp.cursor_ns (now -ℤ lag)) w.cp.backfill_ns v
  IsFromOldest (some (suc n)) v =
      IsAt
        (if eq_ℤ w.cp.cursor_ns (pos 0) || ltb_ℤ (pos (suc n)) w.cp.cursor_ns
          then pos (suc n)
          else w.cp.cursor_ns)
        backfill_all_ns v

  -- What an error leaves of a start with `backfill: all`: the cursor as the policy leaves it, or the
  -- first one.
  abbrev pub IsHalfway : Option ℕ → Wal → Type 0
  IsHalfway none v = IsAt w.cp.cursor_ns w.cp.backfill_ns v ⊎ IsAt (now -ℤ lag) w.cp.backfill_ns v
  IsHalfway (some zero) v =
      IsAt w.cp.cursor_ns w.cp.backfill_ns v ⊎ IsAt (now -ℤ lag) w.cp.backfill_ns v
  IsHalfway (some (suc n)) v =
      IsAt (if ltb_ℤ (pos (suc n)) w.cp.cursor_ns then pos (suc n) else w.cp.cursor_ns)
        backfill_all_ns v
      ⊎ IsAt (pos (suc n)) backfill_all_ns v

  abbrev plan_all : Option ℕ → Plan
  plan_all found = plan_of backfill_all spec.dur (as_oldest found) now

  all_plan-IsHalfway :
      (found : Option ℕ) (v : Wal)
      → w.legacy_checkpoint ≡ false
      → eq_ℤ w.cp.backfill_ns backfill_all_ns ≡ false
      → IsAt (applied_cursor (plan_all found) w) (applied_policy (plan_all found) w) v
        ⊎ IsAt
            (first_cursor backfill_all (as_oldest found) (plan_all found) lag now)
            (applied_policy (plan_all found) w)
            v
      → IsHalfway found v
  unfolding plan_of first_cursor
  all_plan-IsHalfway none v l p at = at
  all_plan-IsHalfway (some zero) v l p at = at
  all_plan-IsHalfway (some (suc n)) v l p (inl at) =
      inl (ground (arith, at.0, l, p), ground (arith, at.1))
  all_plan-IsHalfway (some (suc n)) v l p (inr at) =
      inr (ground (arith, at.0), ground (arith, at.1))

  all_plan-IsFromOldest :
      (found : Option ℕ) (v : Wal)
      → w.legacy_checkpoint ≡ false
      → eq_ℤ w.cp.backfill_ns backfill_all_ns ≡ false
      → IsAt
          (started_cursor (applied_cursor (plan_of backfill_all spec.dur (as_oldest found) now) w) (
            first_cursor backfill_all
              (as_oldest found)
              (plan_of backfill_all spec.dur (as_oldest found) now)
              lag
              now))
          (applied_policy (plan_of backfill_all spec.dur (as_oldest found) now) w)
          v
      → IsFromOldest found v
  unfolding plan_of first_cursor
  all_plan-IsFromOldest none v l p at = at
  all_plan-IsFromOldest (some zero) v l p at = at
  all_plan-IsFromOldest (some (suc n)) v l p at = (ground (arith, at.0, l, p), ground (arith, at.1))

  -- A start with `backfill: all`, over a log that has not recorded that policy and is not of an old
  -- version, begins at the oldest sample, or stays at a cursor that is not later, and records the
  -- policy; but if the five attempts at the probe failed, or the database is empty, it keeps a cursor
  -- that is there, begins behind the present otherwise, and leaves the policy to a later start. It ends
  -- without a panic; an error leaves the policy as a success does, and the cursor as the policy leaves it
  -- or at the first one.
  pub backfill_init-all :
      (found : Option ℕ)
      → spec.mode ≡ backfill_all
      → probe_loop attempts probe ≡ as_oldest found
      → w.legacy_checkpoint ≡ false
      → eq_ℤ w.cp.backfill_ns backfill_all_ns ≡ false
      → Ends (λ _. IsFromOldest found) (IsHalfway found) (backfill_init clock spec probe lag now w)
  unfolding probed
  backfill_init-all found m e l p =
      Ends-weaken _ _ _ _ (backfill_init clock spec probe lag now w)
        (λ _ v at. all_plan-IsFromOldest found v l p (at_all v at))
        (λ v at. all_plan-IsHalfway found v l p (halfway v at)) backfill_init-IsAt
    where
      halfway :
          (v : Wal)
          → IsAt (applied_cursor plan w) (applied_policy plan w) v
            ⊎ IsAt first (applied_policy plan w) v
          → IsAt (applied_cursor (plan_all found) w) (applied_policy (plan_all found) w) v
            ⊎ IsAt
                (first_cursor backfill_all (as_oldest found) (plan_all found) lag now)
                (applied_policy (plan_all found) w)
                v
      halfway v = rw (m, e) λ at. at

      at_all :
          (v : Wal)
          → IsAt (started_cursor (applied_cursor plan w) first) (applied_policy plan w) v
          → IsAt
              (started_cursor
                (applied_cursor (plan_of backfill_all spec.dur (as_oldest found) now) w)
                (first_cursor backfill_all
                  (as_oldest found)
                  (plan_of backfill_all spec.dur (as_oldest found) now)
                  lag
                  now))
              (applied_policy (plan_of backfill_all spec.dur (as_oldest found) now) w)
              v
      at_all v = rw (m, e) λ at. at
