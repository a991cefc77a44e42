-- ===== src/Startup/Backfilling.antt =====
-- backfillInit of cmd/sender/main.go: where the cursor of the log starts. Times are milliseconds.
use vm_sync.Base.{
  ℕ, zero, suc, ◌/◌, ◌^◌, Bool, true, false, ◌&&◌, Option, none, some, if◌then◌else◌,
}
use vm_sync.Base.Int.{ℤ, pos, pos_part, ◌-ℤ◌, ltb_ℤ}
use vm_sync.Wal.State.{Op, done, and_then, backfill_all_ns}
use vm_sync.Wal.Cursor.{set_cursor, apply_backfill_policy, eq_ℤ}
use vm_sync.Config.Backfill.{
  BackfillSpec, BackfillMode, backfill_none, backfill_all, backfill_duration,
}

-- The attempts at ProbeOldestData; `probe n` is what the attempt with n more to come gives.
unfoldable pub probe_loop : ℕ → (ℕ → Option ℤ) → Option ℤ
probe_loop zero probe = none
probe_loop (suc n) probe = elim (probe n) [ some oldest ↦ some oldest | none ↦ probe_loop n probe ]

abbrev pub attempts : ℕ
attempts = 5

-- Whether the policy is recorded in this start, with the policy and its boundary.
pub record Plan : Type 0 where
  pub applies : Bool
  pub policy : ℤ
  pub boundary : ℤ

abbrev pub no_plan : Plan
no_plan = record { applies = false; policy = pos 0; boundary = pos 0 }

-- Milliseconds() of a positive duration.
abbrev pub to_milliseconds : ℤ → ℤ
to_milliseconds d = pos (pos_part d / 10 ^ 6)

abbrev pub later_of : ℤ → ℤ → ℤ
later_of oldest boundary =
    if ltb_ℤ (pos 0) oldest && ltb_ℤ boundary oldest then oldest else boundary

abbrev pub bounded_plan : ℤ → ℤ → ℤ → Plan
bounded_plan now policy oldest = record {
  applies = true;
  policy = policy;
  boundary = later_of oldest (now -ℤ policy);
}

-- The switch on the mode; the probe is none where it failed in all attempts.
unfoldable pub plan_of : BackfillMode → ℤ → Option ℤ → ℤ → Plan
plan_of backfill_none dur probe now = record { applies = true; policy = pos 0; boundary = pos 0 }
plan_of backfill_all dur none now = no_plan
plan_of backfill_all dur (some oldest) now =
    if eq_ℤ oldest (pos 0)
    then no_plan
    else record { applies = true; policy = backfill_all_ns; boundary = oldest }
plan_of backfill_duration dur none now = bounded_plan now (to_milliseconds dur) (pos 0)
plan_of backfill_duration dur (some oldest) now =
    if eq_ℤ oldest (pos 0) then no_plan else bounded_plan now (to_milliseconds dur) oldest

-- The first cursor.
unfoldable pub first_cursor : BackfillMode → Option ℤ → Plan → ℤ → ℤ → ℤ
first_cursor backfill_all (some oldest) plan lag now =
    if ltb_ℤ (pos 0) oldest then oldest else now -ℤ lag
first_cursor backfill_all none plan lag now = now -ℤ lag
first_cursor backfill_duration probe plan lag now =
    if ltb_ℤ (pos 0) plan.boundary then plan.boundary else now -ℤ lag
first_cursor backfill_none probe plan lag now = now -ℤ lag

-- With `backfill: 0` nothing is probed, and oldest is 0.
unfoldable pub probed : BackfillMode → (ℕ → Option ℤ) → Option ℤ
unfolding probe_loop
probed backfill_none probe = some (pos 0)
probed backfill_all probe = probe_loop attempts probe
probed backfill_duration probe = probe_loop attempts probe

abbrev pub record_policy : ℕ → Plan → Op Bool
record_policy clock plan w =
    if plan.applies then apply_backfill_policy clock plan.policy plan.boundary w else done false w

abbrev pub start_cursor : ℕ → ℤ → Op (Unit {0})
start_cursor clock first w =
    if eq_ℤ w.cp.cursor_ns (pos 0) then set_cursor clock first w else done tt w

unfoldable pub start_with : ℕ → BackfillMode → Option ℤ → Plan → ℤ → ℤ → Op (Unit {0})
unfolding set_cursor apply_backfill_policy first_cursor
start_with clock mode probe plan lag now w =
    and_then (record_policy clock plan w)
      (λ _. start_cursor clock (first_cursor mode probe plan lag now))

unfoldable pub backfill_init : ℕ → BackfillSpec → (ℕ → Option ℤ) → ℤ → ℤ → Op (Unit {0})
unfolding start_with plan_of probed
backfill_init clock spec probe lag now w =
    let found = probed spec.mode probe in
    start_with clock spec.mode found (plan_of spec.mode spec.dur found now) lag now w
