-- ===== src/Receiver/State.antt =====
-- The receiver's state and the operations on it other than the handler:
-- internal/receiver/receiver.go. A call is one step: what it reads of the clock, the disk and the
-- network stands in an `Env`. Log lines are left out; the state that throttles them is not.
use vm_sync.Base.{ℕ, ◌+◌, ◌-◌, ◌*◌, ◌^◌, List, [], ◌∷◌, Option, none, some}
use vm_sync.Base.{Bool, false, ◌&&◌, ◌||◌, not, ltb, leb, ◌==◌, if◌then◌else◌}
use vm_sync.Base.Maps
use vm_sync.Vm.Http.{Outcome}
use vm_sync.Receiver.Tracker.{Tracker, add64, done, close_gap, load}
use vm_sync.Receiver.Window.{Window}
use vm_sync.Receiver.Classify.{DeadLetter}

-- Whether each optional part is configured.
pub record Config : Type 0 where
  pub last_seq_file : Bool
  pub dlq_dir : Bool
  pub relay_wal : Bool
  pub relay_dlq_dir : Bool
  pub last_write_ts : Bool

-- The counters of internal/monitor that the handler moves.
pub record Counters : Type 0 where
  pub recv : ℕ
  pub dup : ℕ
  pub inflight : ℕ
  pub write_ok : ℕ
  pub write_fail : ℕ
  pub poison : ℕ
  pub dlq : ℕ
  pub relay_dlq : ℕ

-- `imported`, `dead_letters`, `relay_letters` and `saved` are what it has written outside.
pub record Receiver (S : Type 0) : Type 0 where
  pub cfg : Config
  pub last_seq : ℕ
  pub seq_ord : Tracker
  pub inflight_seq : List (ℕ × ℕ)
  pub gap_warned : ℕ
  pub gap_warned_at : ℕ
  pub dedup : Window
  pub persist_at : ℕ
  pub saved : Option ℕ
  pub metrics : Counters
  pub imported : List (List ℕ)
  pub dead_letters : List DeadLetter
  pub relay_letters : List DeadLetter
  pub reported_ts : Option ℕ
  pub relay : S

-- Times are nanoseconds.
pub record Env : Type 0 where
  pub now : ℕ
  pub save_ok : Bool
  pub response : Outcome
  pub dlq_io : Bool
  pub relay_dlq_io : Bool

-- The forwarding log that the handler appends to; `false` is an error.
pub record Relay (S : Type 0) : Type 0 where
  pub append : ℕ → List ℕ → S → Bool × S

abbrev pub second : ℕ
second = 10 ^ 9

-- 5 * time.Minute
abbrev pub gap_warn_reset_window : ℕ
gap_warn_reset_window = 300 * second

-- int64(seq) is negative from 2^63 on, and then is not stored.
abbrev pub store_last : ℕ → ℕ → ℕ
store_last cur seq = if ltb seq (2 ^ 63) && ltb cur seq then seq else cur

-- Some number strictly between is in flight: the loop of tryCloseGap over the gap.
unfoldable pub any_between : ℕ → ℕ → List (ℕ × ℕ) → Bool
any_between lo hi [] = false
any_between lo hi ((s, n) ∷ m) = (ltb lo s && ltb s hi) || any_between lo hi m

module _ {S : Type 0} where
  unfoldable pub add_inflight : Receiver S → ℕ → Receiver S
  add_inflight r seq = record r {
    inflight_seq = elim (Maps.get seq r.inflight_seq) [
      | none ↦ Maps.put seq 1 r.inflight_seq
      | some n ↦ Maps.put seq (n + 1) r.inflight_seq
    ];
  }

  unfoldable pub remove_inflight : Receiver S → ℕ → Receiver S
  remove_inflight r seq = record r {
    inflight_seq = elim (Maps.get seq r.inflight_seq) [
      | none ↦ Maps.remove seq r.inflight_seq
      | some n ↦
          if leb n 1 then Maps.remove seq r.inflight_seq else Maps.put seq (n - 1) r.inflight_seq
    ];
  }

  unfoldable pub advance_seq : Receiver S → ℕ → Env → Receiver S
  advance_seq r seq env =
      let r' = record r { last_seq = store_last r.last_seq seq } in
      if not r.cfg.last_seq_file || ltb env.now r.persist_at then r' else record r' {
        persist_at = env.now + second;
        saved = if env.save_ok then some seq else r.saved;
      }

  unfoldable pub mark_done : Receiver S → ℕ → Env → Receiver S
  unfolding advance_seq
  mark_done r seq env =
      let (t, advanced) = done r.seq_ord seq in
      let r' = record r { seq_ord = t } in if advanced then advance_seq r' (load t) env else r'

  -- `none` is the answer false, which leaves the state as it was.
  unfoldable pub try_close_gap : Receiver S → ℕ → Env → Option (Receiver S)
  unfolding advance_seq any_between
  try_close_gap r seq env =
      let t = close_gap r.seq_ord (seq - 1) in
      if leb seq (add64 r.last_seq 1)
      then none
      else if any_between r.last_seq seq r.inflight_seq
      then none
      else some (advance_seq (record r { seq_ord = t }) (load t) env)

  unfoldable pub gap_warn_allowed : Receiver S → ℕ → Bool
  gap_warn_allowed r now =
      r.gap_warned == 0
      || (leb r.gap_warned r.last_seq || ltb (r.gap_warned_at + gap_warn_reset_window) now)

  unfoldable pub mark_gap_warned : Receiver S → ℕ → ℕ → Receiver S
  mark_gap_warned r seq now = record r { gap_warned = seq; gap_warned_at = now }
