-- ===== src/Poller/Pressure.antt =====
-- Run of internal/sender/poller.go: a round for each tick, under the backpressure of a full disk. The
-- ratio of the used space is a float that the code compares with 0.60 and 0.80 only, so the model
-- takes the band in which it lies.
use vm_sync.Base.{ℕ, suc, ◌+◌, ◌-◌, ◌/◌, ◌^◌, ◌≡◌, refl, ap, ◌∙◌, arith, List, [], ◌∷◌, All, length}
use vm_sync.Protocol.Codec.{Compressors}
use vm_sync.Wal.State.{Step, done, failed, panicked, endless}
use vm_sync.Poller.Once.{Poller, Source, poll_once}

-- Below 0.60, from there on, and from 0.80 on.
pub data Band : Type 0 where
  green yellow red : Band

pub data BpState : Type 0 where
  bp_normal bp_degraded bp_paused : BpState

-- The switch on the state.
unfoldable pub next_state : Band → BpState → BpState
next_state red bp_normal = bp_paused
next_state yellow bp_normal = bp_degraded
next_state green bp_normal = bp_normal
next_state red bp_degraded = bp_paused
next_state green bp_degraded = bp_normal
next_state yellow bp_degraded = bp_degraded
next_state green bp_paused = bp_normal
next_state yellow bp_paused = bp_paused
next_state red bp_paused = bp_paused

-- The variables of the loop with the two counters; times are nanoseconds.
pub record Loop : Type 0 where
  pub poller : Poller
  pub state : BpState
  pub paused_start : ℕ
  pub paused_seconds : ℕ
  pub skipped : ℕ

-- What a tick meets; the source is the one that the round asks, which in the degraded state is five
-- seconds later.
pub record Tick : Type 0 where
  pub band : Band
  pub clock : ℕ
  pub source : Source

-- The bookkeeping of the pause, for the state before and after.
unfoldable pub note_pause : ℕ → BpState → BpState → Loop → Loop
note_pause clock bp_paused s l = record l {
  state = s;
  paused_seconds = l.paused_seconds + (clock - l.paused_start) / 10 ^ 9;
  paused_start = clock;
}
note_pause clock _ bp_paused l = record l { state = bp_paused; paused_start = clock }
note_pause clock _ s l = record l { state = s }

abbrev pub polled : Loop → Step Poller (Unit {0}) → Step Loop (Unit {0})
polled l (done a p) = done tt (record l { poller = p })
polled l (failed p) = failed (record l { poller = p })
polled l panicked = panicked
polled l endless = endless

unfoldable pub unless_paused : Compressors → Source → BpState → Loop → Step Loop (Unit {0})
unfolding poll_once
unless_paused c src bp_paused l = done tt (record l { skipped = suc l.skipped })
unless_paused c src bp_normal l = polled l (poll_once c src l.poller)
unless_paused c src bp_degraded l = polled l (poll_once c src l.poller)

unfoldable pub tick : Compressors → Tick → Loop → Step Loop (Unit {0})
unfolding unless_paused note_pause next_state
tick c t l =
    let s = next_state t.band l.state in unless_paused c t.source s (note_pause t.clock l.state s l)

abbrev pub go_on : (Loop → Step Loop (Unit {0})) → Step Loop (Unit {0}) → Step Loop (Unit {0})
go_on k (done a l) = k l
go_on k (failed l) = failed l
go_on k panicked = panicked
go_on k endless = endless

unfoldable pub run_ticks : Compressors → List Tick → Loop → Step Loop (Unit {0})
unfolding tick
run_ticks c [] l = done tt l
run_ticks c (t ∷ ts) l = go_on (run_ticks c ts) (tick c t l)

-- The disk is not below 60 percent.
abbrev pub IsPressed : Tick → Type 0
IsPressed t = (t.band ≡ green) → ⊥

-- Nothing was polled, and `n` ticks were skipped.
abbrev pub IsIdle : Loop → ℕ → Step Loop (Unit {0}) → Type 0
IsIdle l n (done a u) = (u.poller ≡ l.poller) × (u.state ≡ bp_paused) × (u.skipped ≡ l.skipped + n)
IsIdle l n (failed u) = ⊥
IsIdle l n panicked = ⊥
IsIdle l n endless = ⊥

stays_paused : (b : Band) → ((b ≡ green) → ⊥) → next_state b bp_paused ≡ bp_paused
unfolding next_state
stays_paused green h = absurd (h refl)
stays_paused yellow h = refl
stays_paused red h = refl

red_pauses : (s : BpState) → next_state red s ≡ bp_paused
unfolding next_state
red_pauses bp_normal = refl
red_pauses bp_degraded = refl
red_pauses bp_paused = refl

-- Pausing keeps the poller and the count.
note_pause-paused :
    (clock : ℕ) (s : BpState) (l : Loop)
    → ((note_pause clock s bp_paused l).poller ≡ l.poller)
      × ((note_pause clock s bp_paused l).state ≡ bp_paused)
      × ((note_pause clock s bp_paused l).skipped ≡ l.skipped)
unfolding note_pause
note_pause-paused clock bp_normal l = (refl, refl, refl)
note_pause-paused clock bp_degraded l = (refl, refl, refl)
note_pause-paused clock bp_paused l = (refl, refl, refl)

-- A tick after which the loop is paused.
tick-IsIdle :
    (c : Compressors) (t : Tick) (l : Loop)
    → next_state t.band l.state ≡ bp_paused
    → IsIdle l 1 (tick c t l)
unfolding tick unless_paused
tick-IsIdle c t l e =
    let same = note_pause-paused t.clock l.state l in rw e (same.0, same.1, omega (arith, same.2))

IsIdle-then :
    (l : Loop) (n : ℕ) (k : Loop → Step Loop (Unit {0})) (r : Step Loop (Unit {0}))
    → IsIdle l 1 r
    → ((u : Loop) → u.state ≡ bp_paused → IsIdle u n (k u))
    → IsIdle l (suc n) (go_on k r)
IsIdle-then l n k (done a u) h next = later (k u) (next u h.1)
  where
    later : (r : Step Loop (Unit {0})) → IsIdle u n r → IsIdle l (suc n) r
    later (done b v) i = (i.0 ∙ h.0, i.1, omega (arith, h.2, i.2))
    later (failed v) i = i
    later panicked i = i
    later endless i = i
IsIdle-then l n k (failed u) h next = absurd h
IsIdle-then l n k panicked h next = absurd h
IsIdle-then l n k endless h next = absurd h

run_ticks-paused :
    (c : Compressors) (ts : List Tick) (l : Loop)
    → l.state ≡ bp_paused
    → All IsPressed ts
    → IsIdle l (length ts) (run_ticks c ts l)
unfolding run_ticks
run_ticks-paused c [] l e h = (refl, e, omega arith)
run_ticks-paused c (t ∷ ts) l e h =
    IsIdle-then l (length ts) (run_ticks c ts) (tick c t l)
      (tick-IsIdle c t l (ap (next_state t.band) e ∙ stays_paused t.band h.0))
      (λ u paused. run_ticks-paused c ts u paused h.1)

-- From a tick at which the disk is 80 percent full on, in any state of the loop, and as long as no
-- tick finds it less than 60 percent full, nothing is polled and every tick is counted as skipped:
-- the cursor, the log and the query sent ahead stay as they are.
pub run_ticks-IsIdle :
    (c : Compressors) (t : Tick) (ts : List Tick) (l : Loop)
    → t.band ≡ red
    → All IsPressed ts
    → IsIdle l (suc (length ts)) (run_ticks c (t ∷ ts) l)
unfolding run_ticks
run_ticks-IsIdle c t ts l e h =
    IsIdle-then l (length ts) (run_ticks c ts) (tick c t l)
      (tick-IsIdle c t l (ap (λ b. next_state b l.state) e ∙ red_pauses l.state))
      (λ u paused. run_ticks-paused c ts u paused h)
