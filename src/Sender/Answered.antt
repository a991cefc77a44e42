-- ===== src/Sender/Answered.antt =====
-- Run of internal/sender/sender.go: whose answer a round takes down.
use vm_sync.Base.{
  ℕ, ◌+◌, ◌≡◌, refl, ◌⊎◌, inl, inr, ◌∷◌, Bool, true, false, Option, none, some, if◌then◌else◌, leb,
  ◌==◌,
}
use vm_sync.Protocol.Frame.{ack_success, ack_fail}
use vm_sync.Wal.State.{Wal, FrameData, Step, done, failed, panicked, endless}
use vm_sync.Wal.Commit.{peek, commit}
use vm_sync.Sender.Backoff.{SenderConfig}
use vm_sync.Sender.Round.{
  Sender, Link, retry, from_cache, committed, refused, on_ack, on_answer, exchange, with_frame,
  round,
}

-- What holds of the state where the round returns.
abbrev pub WhenDone : (Sender → Type 0) → Step Sender (Unit {0}) → Type 0
WhenDone P (done a s) = P s
WhenDone P (failed s) = P s
WhenDone P panicked = Unit
WhenDone P endless = Unit

WhenDone-if :
    (P : Sender → Type 0) (b : Bool) (r r' : Step Sender (Unit {0}))
    → WhenDone P r
    → WhenDone P r'
    → WhenDone P (if b then r else r')
WhenDone-if P true r r' h k = h
WhenDone-if P false r r' h k = k

-- The frame that a round sends, if one is read.
abbrev pub frame_in : Sender → Step Wal FrameData → Option FrameData
frame_in s (done fd w) = some (from_cache s.cache fd)
frame_in s _ = none

-- No answer is added, or that of the link to the frame of the round.
abbrev pub TookDown : Link → Option FrameData → Sender → Sender → Type 0
TookDown l frame s u =
    (u.answered ≡ s.answered)
    ⊎ ((fd : FrameData) × ((a : ℕ) × ((frame ≡ some fd)
            × (l.ack ≡ some a)
            × (u.answered ≡ (fd, a) ∷ s.answered))))

module _ (c : SenderConfig) (l : Link) (frame : Option FrameData) (s : Sender) where
  abbrev Took : Sender → Type 0
  Took = TookDown l frame s

  committed-TookDown :
      (u : Sender) (r : Step Wal (Unit {0})) → Took u → WhenDone Took (committed u r)
  committed-TookDown u (done a w) h = h
  committed-TookDown u (failed w) h = h
  committed-TookDown u panicked h = tt
  committed-TookDown u endless h = tt

  refused_kept : (u : Sender) → Took u → Took (refused c u)
  refused_kept u h = by_count (leb c.max_retry (u.retry_count + 1))
    where
      by_count :
          (full : Bool) → Took (if full then record u { retry_count = c.max_retry } else retry u)
      by_count true = h
      by_count false = h

  on_ack-TookDown : (now seq a : ℕ) (u : Sender) → Took u → WhenDone Took (on_ack c now seq a u)
  unfolding on_ack
  on_ack-TookDown now seq a u h =
      WhenDone-if Took (a == ack_success) _ _ (committed-TookDown u (commit now seq u.wal) h)
        (WhenDone-if Took (a == ack_fail) _ _ (refused_kept u h) h)

  on_answer-TookDown :
      (fd : FrameData) (ack : Option ℕ) (u : Sender)
      → frame ≡ some fd
      → l.ack ≡ ack
      → u.answered ≡ s.answered
      → WhenDone Took (on_answer c l.now fd ack u)
  on_answer-TookDown fd none u f e h = inl h
  on_answer-TookDown fd (some a) u f e h =
      on_ack-TookDown l.now fd.seq a (record u { answered = (fd, a) ∷ u.answered })
        (inr (fd, (a, (f, e, rw h refl))))

  exchange-TookDown :
      (fd : FrameData) (u : Sender)
      → frame ≡ some fd
      → u.answered ≡ s.answered
      → WhenDone Took (exchange c l fd u)
  unfolding exchange
  exchange-TookDown fd u f h =
      WhenDone-if Took l.connected _ _
        (WhenDone-if Took l.sent _ _ (on_answer-TookDown fd l.ack u f refl h) (inl h)) (inl h)

read-TookDown :
    (c : SenderConfig) (l : Link) (s : Sender) (p : Step Wal FrameData)
    → WhenDone (TookDown l (frame_in s p) s) (with_frame c l s p)
read-TookDown c l s (done fd w) =
    exchange-TookDown c l (some (from_cache s.cache fd)) s (from_cache s.cache fd) _ refl refl
read-TookDown c l s (failed w) = inl refl
read-TookDown c l s panicked = tt
read-TookDown c l s endless = tt

pub round-TookDown :
    (c : SenderConfig) (l : Link) (s : Sender)
    → WhenDone (TookDown l (frame_in s (peek s.wal)) s) (round c l s)
unfolding round
round-TookDown c l s = read-TookDown c l s (peek s.wal)
