-- ===== src/Sender/Released.antt =====
-- runPipeline of internal/sender/sender.go: reading the answers of a window takes frames out of the
-- log.
use vm_sync.Base.{
  ℕ, suc, ◌≤◌, ◌≡◌, refl, sym, subst, ◌∙◌, ◌⊎◌, inl, inr, Bool, true, false, List, [], ◌∷◌, ◌++◌,
  append_assoc, Option, none, some, All, length, All-append, if◌then◌else◌, arith, ◌==◌,
}
use vm_sync.Protocol.Frame.{ack_success, ack_fail}
use vm_sync.Wal.State.{Wal, FrameData, Step, done, failed, panicked, endless}
use vm_sync.Wal.Commit.{commit}
use vm_sync.Sender.Backoff.{SenderConfig}
use vm_sync.Transport.Client.{Client, wait_ack}
use vm_sync.Sender.Pipeline.{
  Answer, Sending, Acked, all_acked, send_again, committed, took, after_wait, read_acks,
}
use vm_sync.Wal.Scan.{FrameIndex}
use vm_sync.Wal.Leaving.{Left}
use vm_sync.Wal.Outcome.{Ends, Ends-weaken}
use vm_sync.Wal.Batch.{CommitsAt, commit-CommitsAt}

-- The answer 0xff was taken for a frame of this number.
abbrev pub AckedBy : ℕ → List Answer → Type 0
AckedBy seq [] = ⊥
AckedBy seq (a ∷ answers) = ((a.frame.seq ≡ seq) × (a.ack ≡ ack_success)) ⊎ AckedBy seq answers

abbrev AllAcked : List FrameIndex → List Answer → Type 0
AllAcked gone answers = All (λ fi. AckedBy fi.seq answers) gone

AllAcked-later :
    (gone : List FrameIndex) (a : Answer) (answers : List Answer)
    → AllAcked gone answers
    → AllAcked gone (a ∷ answers)
AllAcked-later [] a answers h = tt
AllAcked-later (fi ∷ gone) a answers h = (inr h.0, AllAcked-later gone a answers h.1)

-- Of the frames that were pending at first, those in front left the log, each after 0xff for its
-- number, and the others are pending in their order: `n` of them at least.
pub record Released (frames : List FrameIndex) (n : ℕ) (w : Wal) (answers : List Answer)
    : Type 0 where
  pub gone : List FrameIndex
  pub still : List FrameIndex
  pub parts : gone ++ still ≡ frames
  pub left : Left still w
  pub acked : All (λ fi. AckedBy fi.seq answers) gone
  pub enough : n ≤ length still

module _ (frames : List FrameIndex) where
  abbrev pub IsReleased : ℕ → Sending → Type 0
  IsReleased n s = Released frames n s.wal s.answers

  pub Released-fewer :
      (n m : ℕ) (w : Wal) (answers : List Answer)
      → n ≤ m
      → Released frames m w answers
      → Released frames n w answers
  Released-fewer n m w answers h r = record {
    gone = r.gone;
    still = r.still;
    parts = r.parts;
    left = r.left;
    acked = r.acked;
    enough = omega (arith, h, r.enough);
  }

  Released-later :
      (n : ℕ) (w : Wal) (a : Answer) (answers : List Answer)
      → Released frames n w answers
      → Released frames n w (a ∷ answers)
  Released-later n w a answers r = record {
    gone = r.gone;
    still = r.still;
    parts = r.parts;
    left = r.left;
    acked = AllAcked-later r.gone a answers r.acked;
    enough = r.enough;
  }

  -- After a commit of a number that was answered by 0xff, whatever became of it.
  Released-commit :
      (n seq : ℕ) (gone : List FrameIndex) (fi : FrameIndex) (fis : List FrameIndex) (v : Wal)
      (answers : List Answer)
      → gone ++ fi ∷ fis ≡ frames
      → AllAcked gone answers
      → AckedBy seq answers
      → n ≤ length fis
      → CommitsAt seq fi fis v
      → Released frames n v answers
  Released-commit n seq gone fi fis v answers e all this h (inl l) = record {
    gone = gone;
    still = fi ∷ fis;
    parts = e;
    left = l;
    acked = all;
    enough = omega (arith, h);
  }
  Released-commit n seq gone fi fis v answers e all this h (inr m) = record {
    gone = gone ++ fi ∷ [];
    still = fis;
    parts = append_assoc gone (fi ∷ []) fis ∙ e;
    left = m.1;
    acked =
        All-append (λ g. AckedBy g.seq answers) gone (fi ∷ []) all
          (subst (λ k. AckedBy k answers) (sym m.0) this, tt);
    enough = h;
  }

  abbrev pub AcksReleased : Step Sending Acked → Type 0
  AcksReleased (done all_acked s) = IsReleased 0 s
  AcksReleased (done (send_again window) s) = IsReleased (length window) s
  AcksReleased (failed s) = ⊥
  AcksReleased panicked = ⊥
  AcksReleased endless = ⊥

  committed-AcksReleased :
      (go : Sending → Step Sending Acked) (n : ℕ) (s : Sending) (r : Step Wal (Unit {0}))
      → Ends (λ _ v. Released frames n v s.answers) (λ v. Released frames n v s.answers) r
      → ((t : Sending) → IsReleased n t → AcksReleased (go t))
      → AcksReleased (committed go s r)
  committed-AcksReleased go n s (done a w) h k = k _ h
  committed-AcksReleased go n s (failed w) h k = k _ h
  committed-AcksReleased go n s panicked h k = h
  committed-AcksReleased go n s endless h k = h

  AcksReleased-if :
      (b : Bool) (r r' : Step Sending Acked)
      → (b ≡ true → AcksReleased r)
      → AcksReleased r'
      → AcksReleased (if b then r else r')
  AcksReleased-if true r r' h k = h refl
  AcksReleased-if false r r' h k = k

  -- Something is pending, since the window is no longer than what is.
  commit-Released :
      (now n seq : ℕ) (w : Wal) (answers : List Answer)
      → Released frames (suc n) w answers
      → AckedBy seq answers
      → Ends
          (λ _ v. Released frames n v answers)
          (λ v. Released frames n v answers)
          (commit now seq w)
  commit-Released now n seq w answers r this = from_still r.still r.parts r.left r.enough
    where
      from_still :
          (still : List FrameIndex)
          → r.gone ++ still ≡ frames
          → Left still w
          → suc n ≤ length still
          → Ends
              (λ _ v. Released frames n v answers)
              (λ v. Released frames n v answers)
              (commit now seq w)
      from_still [] e l h = absurd (omega (arith, h))
      from_still (fi ∷ fis) e l h =
          Ends-weaken (λ _. CommitsAt seq fi fis) (λ _ v. Released frames n v answers)
            (CommitsAt seq fi fis) (λ v. Released frames n v answers) (commit now seq w)
            (λ _ v c.
              Released-commit n seq r.gone fi fis v answers e r.acked this (omega (arith, h)) c)
            (λ v c.
              Released-commit n seq r.gone fi fis v answers e r.acked this (omega (arith, h)) c)
            (commit-CommitsAt now seq fi fis w l)

  after_wait-AcksReleased :
      (cfg : SenderConfig) (clock : ℕ → ℕ) (go : Sending → Step Sending Acked) (f : FrameData)
      (fs : List FrameData) (r : Option ℕ × Client) (s : Sending)
      → IsReleased (suc (length fs)) s
      → ((t : Sending) → IsReleased (length fs) t → AcksReleased (go t))
      → AcksReleased (after_wait cfg clock go (f ∷ fs) f r s)
  after_wait-AcksReleased cfg clock go f fs (none, c) s h k = h
  after_wait-AcksReleased cfg clock go f fs (some ack, c) s h k =
      AcksReleased-if (ack == ack_success) _ _
        (λ yes.
          committed-AcksReleased go (length fs) t _
            (commit-Released _ (length fs) f.seq s.wal t.answers h'
              (inl (refl, ground (arith, yes))))
            k)
        (AcksReleased-if (ack == ack_fail) _ _ (λ _. h') h')
    where
      t : Sending
      t = took c f ack s

      h' : IsReleased (suc (length fs)) t
      h' = Released-later (suc (length fs)) s.wal _ s.answers h

  pub read_acks-AcksReleased :
      (cfg : SenderConfig) (clock : ℕ → ℕ) (fs : List FrameData) (s : Sending)
      → IsReleased (length fs) s
      → AcksReleased (read_acks cfg clock fs s)
  unfolding read_acks
  read_acks-AcksReleased cfg clock [] s h = h
  read_acks-AcksReleased cfg clock (f ∷ fs) s h =
      after_wait-AcksReleased cfg clock (read_acks cfg clock fs) f fs (wait_ack s.client) s h
        (read_acks-AcksReleased cfg clock fs)
