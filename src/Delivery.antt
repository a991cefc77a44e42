-- ===== src/Delivery.antt =====
-- The stop-and-wait sender of internal/sender/sender.go and the handler of
-- internal/receiver/receiver.go, joined by a link that may lose a frame or its answer.
use vm_sync.Base.{
  ℕ, ◌≡◌, refl, sym, ap, subst, ◌∙◌, ◌⊎◌, inl, inr, List, [], ◌∷◌, true, false, Option, none, some,
  length, arith,
}
use vm_sync.Protocol.Frame.{Frame, ok, is_heartbeat, ack_success}
use vm_sync.Protocol.Codec.{Compressors, decode}
use vm_sync.Wal.Scan.{FrameIndex}
use vm_sync.Wal.State.{FrameData, Step, done, failed, panicked, endless, pending}
use vm_sync.Wal.Commit.{peek}
use vm_sync.Wal.Leaving.{Follows}
use vm_sync.Sender.Backoff.{SenderConfig}
use vm_sync.Sender.Round.{Sender, Link, round}
use vm_sync.Sender.AtLeastOnce.{Progress, kept, acked, Returns, round-Progress}
use vm_sync.Sender.Answered.{WhenDone, TookDown, frame_in, round-TookDown}
use vm_sync.Receiver.Window.{dedup_hit}
use vm_sync.Receiver.State.{Receiver, Env, Relay}
use vm_sync.Receiver.Handle.{handle_frame}
use vm_sync.Receiver.Ack.{Persisted, ack_success-Persisted}
use vm_sync.Receiver.Dealt.{Dealt, Served, Served-Dealt}

-- What becomes of a frame on its way: it does not arrive whole, or it is handled and the answer does
-- not come back, or the answer comes back.
pub data Carry : Type 0 where
  lost : Carry
  unheard : Carry
  answered : Carry

some-inj {ℓ} : {A : Type ℓ} (a b : A) → some a ≡ some b → a ≡ b
some-inj {A = A} a b e = ap (λ (o : Option A). elim o [ none ↦ a | some x ↦ x ]) e

first-inj {ℓ} : {A : Type ℓ} (a b : A) (l m : List A) → a ∷ l ≡ b ∷ m → a ≡ b
first-inj {A = A} a b l m e = ap (λ (l : List A). elim l [ [] ↦ a | x ∷ xs ↦ x ]) e

module _ {S : Type 0} (relay : Relay S) (codec : Compressors) (i : ℕ) (env : Env) where
  abbrev pub link_of : Carry → ℕ → Receiver S → Option FrameData → Link
  link_of answered now r (some fd) = record {
    connected = true;
    sent = true;
    ack = some (handle_frame relay codec r i fd.bytes env).1;
    now = now;
  }
  link_of unheard now r frame = record { connected = true; sent = true; ack = none; now = now }
  link_of _ now r frame = record { connected = true; sent = false; ack = none; now = now }

  abbrev pub receiver_after : Carry → Receiver S → Option FrameData → Receiver S
  receiver_after lost r frame = r
  receiver_after _ r none = r
  receiver_after _ r (some fd) = (handle_frame relay codec r i fd.bytes env).0

  -- The frame that the sender sends in this round.
  abbrev pub frame_of : Sender → Option FrameData
  frame_of s = frame_in s (peek s.wal)

  -- A round of the sender, and the handler's call for its frame.
  unfoldable pub transfer :
      SenderConfig → Carry → ℕ → Sender → Receiver S → Step Sender (Unit {0}) × Receiver S
  unfolding round handle_frame
  transfer cfg k now s r =
      (round cfg (link_of k now r (frame_of s)) s, receiver_after k r (frame_of s))

  -- The frame is one that the receiver has acknowledged for good.
  abbrev pub IsHeld : Receiver S → Receiver S → FrameData → Type 0
  IsHeld r r' fd =
      (f : Frame)
      → decode fd.bytes ≡ ok f
      → is_heartbeat f ≡ false
      → Dealt relay codec f.seq f.crc r ⊎ Persisted codec r f env r'

  -- What a round does to the log, with what has become of the frame.
  pub data Delivered (s : Sender) (r : Receiver S) (s' : Sender) (r' : Receiver S) : Type 0 where
    still_pending : pending s'.wal ≡ pending s.wal → Delivered s r s' r'
    delivered :
        (fi : FrameIndex) (fd : FrameData)
        → pending s.wal ≡ fi ∷ pending s'.wal
        → fd.seq ≡ fi.seq
        → frame_of s ≡ some fd
        → IsHeld r r' fd
        → Delivered s r s' r'

  answer_of_link :
      (k : Carry) (now a : ℕ) (r : Receiver S) (frame : Option FrameData) (fd : FrameData)
      → frame ≡ some fd
      → (link_of k now r frame).ack ≡ some a
      → ((handle_frame relay codec r i fd.bytes env).1 ≡ a)
        × (receiver_after k r frame ≡ (handle_frame relay codec r i fd.bytes env).0)
  answer_of_link lost now a r frame fd e h = absurd (ground (arith, h))
  answer_of_link unheard now a r frame fd e h = absurd (ground (arith, h))
  answer_of_link answered now a r none fd e h = absurd (ground (arith, e))
  answer_of_link answered now a r (some fd') fd e h =
      subst
        (λ x.
          ((handle_frame relay codec r i x.bytes env).1 ≡ a)
          × ((handle_frame relay codec r i fd'.bytes env).0
              ≡ (handle_frame relay codec r i x.bytes env).0))
        (some-inj fd' fd e) (some-inj _ a h, refl)

  Delivered-of :
      (k : Carry) (now : ℕ) (s u : Sender) (r : Receiver S)
      → Served relay codec r
      → Progress s u
      → TookDown (link_of k now r (frame_of s)) (frame_of s) s u
      → Delivered s r u (receiver_after k r (frame_of s))
  Delivered-of k now s u r served (kept e) t = still_pending e
  Delivered-of k now s u r served (acked fi fd e q n) (inl same) =
      absurd (omega (arith, ap length (sym same ∙ n)))
  Delivered-of k now s u r served (acked fi fd e q n) (inr (fd', (a, (f, h, took)))) =
      delivered fi fd e q sent λ frame ok_frame data_frame. held frame (
        rw this.1 (
          ack_success-Persisted relay codec r i fd.bytes frame env ok_frame data_frame
            (this.0 ∙ ap (λ (p : FrameData × ℕ). p.1) same)))
    where
      same : ◌≡◌ {A = FrameData × ℕ} (fd', a) (fd, ack_success)
      same = first-inj (fd', a) (fd, ack_success) s.answered s.answered (sym took ∙ n)

      sent : frame_of s ≡ some fd
      sent = f ∙ ap (λ (p : FrameData × ℕ). some p.0) same

      held :
          (frame : Frame)
          → (dedup_hit r.dedup frame.seq frame.crc ≡ true)
            ⊎ Persisted codec r frame env (receiver_after k r (frame_of s))
          → Dealt relay codec frame.seq frame.crc r
            ⊎ Persisted codec r frame env (receiver_after k r (frame_of s))
      held frame (inl hit) = inl (Served-Dealt relay codec r frame.seq frame.crc served hit)
      held frame (inr p) = inr p

      this :
          ((handle_frame relay codec r i fd.bytes env).1 ≡ a)
          × (receiver_after k r (frame_of s) ≡ (handle_frame relay codec r i fd.bytes env).0)
      this = answer_of_link k now a r (frame_of s) fd sent h

  both-Delivered :
      (k : Carry) (now : ℕ) (s : Sender) (r : Receiver S) (x : Step Sender (Unit {0}))
      → Served relay codec r
      → Returns (Progress s) x
      → WhenDone (TookDown (link_of k now r (frame_of s)) (frame_of s) s) x
      → Returns (λ u. Delivered s r u (receiver_after k r (frame_of s))) x
  both-Delivered k now s r (done a u) served p t = Delivered-of k now s u r served p t
  both-Delivered k now s r (failed u) served p t = p
  both-Delivered k now s r panicked served p t = p
  both-Delivered k now s r endless served p t = p

  -- Where the frames of the log lie in segments that do not go back from the oldest one on, and the
  -- receiver has started with an empty duplicate window and handled any frames since, a round of the
  -- sender with the handler at the other end returns, whatever the link loses, and leaves the pending
  -- frames as they were or takes the first one out. It does that only if, in case the bytes that it has
  -- sent are a data frame, either an earlier call of the handler has written a frame with their number
  -- and checksum to the database or has put it into the dead letters after a refusal for good, or this
  -- call has done so with theirs.
  pub transfer-Delivered :
      (cfg : SenderConfig) (k : Carry) (now : ℕ) (s : Sender) (r : Receiver S)
      → Follows s.wal.cp.seg_start (pending s.wal)
      → Served relay codec r
      → Returns (λ u. Delivered s r u (transfer cfg k now s r).1) (transfer cfg k now s r).0
  unfolding transfer
  transfer-Delivered cfg k now s r f served =
      both-Delivered k now s r (round cfg (link_of k now r (frame_of s)) s) served
        (round-Progress cfg (link_of k now r (frame_of s)) s f)
        (round-TookDown cfg (link_of k now r (frame_of s)) s)
