-- ===== src/Sender/AtLeastOnce.antt =====
-- Run of internal/sender/sender.go: which frames leave the log.
use vm_sync.Base.{
  ℕ, ◌+◌, ◌≡◌, refl, sym, subst, ◌∙◌, ap, arith, List, ◌∷◌, Bool, true, false, Option, none, some,
  if◌then◌else◌, leb, ◌==◌, Bool-cases, inl, inr,
}
use vm_sync.Protocol.Frame.{ack_success, ack_fail}
use vm_sync.Wal.Scan.{FrameIndex}
use vm_sync.Wal.State.{Wal, FrameData, Step, done, failed, panicked, endless, pending}
use vm_sync.Wal.Commit.{peek, commit}
use vm_sync.Wal.Leaving.{Follows, Left}
use vm_sync.Wal.Order.{commit-first}
use vm_sync.Wal.Outcome.{Ends}
use vm_sync.Wal.Peeked.{Unread, Peeked, peek-Peeked}
use vm_sync.Sender.Backoff.{SenderConfig}
use vm_sync.Sender.Round.{
  Sender, Link, retry, from_cache, committed, refused, on_ack, on_answer, exchange, with_frame,
  round,
}

-- What a round can do to the log: nothing, or take its first frame out after the answer 0xff to a
-- frame of that number, which went out in this round.
pub data Progress (s s' : Sender) : Type 0 where
  kept : pending s'.wal ≡ pending s.wal → Progress s s'
  acked :
      (fi : FrameIndex) (fd : FrameData)
      → pending s.wal ≡ fi ∷ pending s'.wal
      → fd.seq ≡ fi.seq
      → s'.answered ≡ (fd, ack_success) ∷ s.answered
      → Progress s s'

abbrev pub Returns : (Sender → Type 0) → Step Sender (Unit {0}) → Type 0
Returns P (done a s) = P s
Returns P (failed s) = ⊥
Returns P panicked = ⊥
Returns P endless = ⊥

-- A round that has read a frame: `t` is the state by then.
record Begun (s : Sender) (fi : FrameIndex) (fis : List FrameIndex) (fd : FrameData) (t : Sender)
    : Type 0 where
  old : pending s.wal ≡ fi ∷ fis
  left : pending t.wal ≡ fi ∷ fis
  follows : Follows t.wal.cp.seg_start (fi ∷ fis)
  answered : t.answered ≡ s.answered
  seq : fd.seq ≡ fi.seq

module _ (s : Sender) (fi : FrameIndex) (fis : List FrameIndex) (fd : FrameData) where
  abbrev Good : Step Sender (Unit {0}) → Type 0
  Good = Returns (Progress s)

  committed-Progress :
      (t u : Sender) (c : Step Wal (Unit {0}))
      → Begun s fi fis fd t
      → u.answered ≡ (fd, ack_success) ∷ s.answered
      → Ends (λ _. Left fis) (Left fis) c
      → Good (committed u c)
  committed-Progress t u (done a w) b n h =
      acked fi fd (b.old ∙ ap (λ (l : List FrameIndex). fi ∷ l) (sym h.0)) b.seq n
  committed-Progress t u (failed w) b n h =
      acked fi fd (b.old ∙ ap (λ (l : List FrameIndex). fi ∷ l) (sym h.0)) b.seq n
  committed-Progress t u panicked b n h = h
  committed-Progress t u endless b n h = h

  Good-if :
      (b : Bool) (r r' : Step Sender (Unit {0}))
      → (b ≡ true → Good r)
      → (b ≡ false → Good r')
      → Good (if b then r else r')
  Good-if true r r' h k = h refl
  Good-if false r r' h k = k refl

  untouched : (t u : Sender) → Begun s fi fis fd t → pending u.wal ≡ pending t.wal → Progress s u
  untouched t u b e = kept (e ∙ b.left ∙ sym b.old)

  commits :
      (now : ℕ) (t : Sender)
      → Begun s fi fis fd t
      → Ends (λ _. Left fis) (Left fis) (commit now fd.seq t.wal)
  commits now t b =
      subst (λ (n : ℕ). Ends (λ _. Left fis) (Left fis) (commit now n t.wal)) (sym b.seq)
        (commit-first now t.wal fi fis b.left b.follows)

  on_ack-Progress :
      (c : SenderConfig) (now ack : ℕ) (t : Sender)
      → Begun s fi fis fd t
      → Good (on_ack c now fd.seq ack (record t { answered = (fd, ack) ∷ t.answered }))
  unfolding on_ack
  on_ack-Progress c now ack t b =
      Good-if (ack == ack_success) (committed u (commit now fd.seq t.wal))
        (if ack == ack_fail then done tt (refused c u) else done tt (retry u))
        (λ yes.
          committed-Progress t u (commit now fd.seq t.wal) b
            (ap (λ (l : List (FrameData × ℕ)). (fd, ack) ∷ l) b.answered
              ∙ ap (λ (a : ℕ). (fd, a) ∷ s.answered) (ground (arith, yes)))
            (commits now t b))
        (λ no.
          Good-if (ack == ack_fail) (done tt (refused c u)) (done tt (retry u))
            (λ fail. by_count (leb c.max_retry (u.retry_count + 1)))
            (λ other. untouched t (retry u) b refl))
    where
      u : Sender
      u = record t { answered = (fd, ack) ∷ t.answered }

      by_count :
          (full : Bool)
          → Progress s (if full then record u { retry_count = c.max_retry } else retry u)
      by_count true = untouched t (record u { retry_count = c.max_retry }) b refl
      by_count false = untouched t (retry u) b refl

  on_answer-Progress :
      (c : SenderConfig) (now : ℕ) (ack : Option ℕ) (t : Sender)
      → Begun s fi fis fd t
      → Good (on_answer c now fd ack t)
  on_answer-Progress c now none t b = untouched t (retry t) b refl
  on_answer-Progress c now (some a) t b = on_ack-Progress c now a t b

  exchange-Progress :
      (c : SenderConfig) (l : Link) (t : Sender) → Begun s fi fis fd t → Good (exchange c l fd t)
  unfolding exchange
  exchange-Progress c l t b =
      Good-if l.connected (if l.sent then on_answer c l.now fd l.ack t else done tt (retry t))
        (done tt (retry t))
        (λ _.
          Good-if l.sent (on_answer c l.now fd l.ack t) (done tt (retry t))
            (λ _. on_answer-Progress c l.now l.ack t b) (λ _. untouched t (retry t) b refl))
        (λ _. untouched t (retry t) b refl)

cached_seq : (memo : Option FrameData) (fd : FrameData) → (from_cache memo fd).seq ≡ fd.seq
cached_seq none fd = refl
cached_seq (some memo) fd = elim (Bool-cases (memo.seq == fd.seq)) [
  | inl e ↦ rw e (ground (arith, e))
  | inr e ↦ rw e refl
]

read-Progress :
    (c : SenderConfig) (l : Link) (s : Sender) (p : Step Wal FrameData)
    → Follows s.wal.cp.seg_start (pending s.wal)
    → Ends (Peeked s.wal) (Unread s.wal) p
    → Returns (Progress s) (with_frame c l s p)
read-Progress c l s (done fd w) f h =
    exchange-Progress s h.first h.others (from_cache s.cache fd) c l
      (record s { wal = w; cache = some (from_cache s.cache fd) })
      (record {
        old = h.pending;
        left = h.unread.left ∙ h.pending;
        follows =
            subst (λ (n : ℕ). Follows n (h.first ∷ h.others)) (sym h.unread.start)
              (subst (Follows s.wal.cp.seg_start) h.pending f);
        answered = refl;
        seq = cached_seq s.cache fd ∙ h.seq;
      })
read-Progress c l s (failed w) f h = kept h.left
read-Progress c l s panicked f h = h
read-Progress c l s endless f h = h

-- Where the frames of the log lie in segments that do not go back from the oldest one on, a round of
-- the sender returns, whatever the connection and the disk do, and either leaves the log's frames as
-- they were, or takes out the first one alone, after a frame of its number went out in this round and
-- was answered by 0xff.
pub round-Progress :
    (c : SenderConfig) (l : Link) (s : Sender)
    → Follows s.wal.cp.seg_start (pending s.wal)
    → Returns (Progress s) (round c l s)
unfolding round
round-Progress c l s f = read-Progress c l s (peek s.wal) f (peek-Peeked s.wal)
