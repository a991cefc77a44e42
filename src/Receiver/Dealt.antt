-- ===== src/Receiver/Dealt.antt =====
-- What the duplicate window of internal/receiver/receiver.go stands for: frames that were dealt with.
use vm_sync.Base.{
  ℕ, ◌≡◌, ◌≢◌, refl, sym, subst, ◌⊎◌, inl, inr, List, true, false, ◌&&◌, leb, Bool-cases, arith,
}
use vm_sync.Protocol.Frame.{Frame, ok, Result-cases, is_heartbeat}
use vm_sync.Protocol.Codec.{Compressors, decode, decompress}
use vm_sync.Receiver.Window.{Window, dedup_hit, dedup_record}
use vm_sync.Receiver.Dedup.{dedup_hit-record}
use vm_sync.Receiver.State.{Receiver, Env, Relay, add_inflight, remove_inflight}
use vm_sync.Receiver.Handle.{count, process, accept, handle_frame}
use vm_sync.Receiver.Kept.{check_jump-Moves}
use vm_sync.Receiver.Answer.{Answer, refused, stored, isolated}
use vm_sync.Receiver.Ack.{
  received, Persisted, written, buried, Persisted-count, entered, delivered, delivered-Answer,
  delivered-err, handle-process,
}

module _ {S : Type 0} (relay : Relay S) (c : Compressors) where
  abbrev pub after : Receiver S → ℕ → List ℕ → Env → Receiver S
  after r i fb env = (handle_frame relay c r i fb env).0

  -- A call of the handler has dealt with a frame of this number and checksum, the last or an
  -- earlier one.
  pub data Dealt (seq crc : ℕ) : Receiver S → Type 0 where
    dealt :
        {r' : Receiver S} (r : Receiver S) (i : ℕ) (fb : List ℕ) (f : Frame) (env : Env)
        → r' ≡ after r i fb env
        → decode fb ≡ ok f
        → (f.seq ≡ seq) × (f.crc ≡ crc)
        → Persisted c r f env r'
        → Dealt seq crc r'
    earlier :
        {r' : Receiver S} (r : Receiver S) (i : ℕ) (fb : List ℕ) (env : Env)
        → r' ≡ after r i fb env
        → Dealt seq crc r
        → Dealt seq crc r'

  -- A receiver that has started with an empty window, and has handled frames since.
  pub data Served : Receiver S → Type 0 where
    started : {r' : Receiver S} → ((seq crc : ℕ) → dedup_hit r'.dedup seq crc ≡ false) → Served r'
    handled :
        {r' : Receiver S} (r : Receiver S) (i : ℕ) (fb : List ℕ) (env : Env)
        → r' ≡ after r i fb env
        → Served r
        → Served r'

  -- The window is as it was, or has the frame, which was dealt with.
  abbrev Recorded : Receiver S → Frame → Env → Receiver S → Type 0
  Recorded r f env r' =
      (r'.dedup ≡ r.dedup)
      ⊎ ((r'.dedup ≡ dedup_record r.dedup f.seq f.crc) × Persisted c r f env r')

  process-Recorded :
      (r : Receiver S) (f : Frame) (i : ℕ) (env : Env)
      → Recorded r f env (process relay c r f i env).0
  unfolding process add_inflight remove_inflight
  process-Recorded r f i env = elim (Result-cases (decompress c f)) [
    | inr (x, e) ↦
        let m = check_jump-Moves (entered relay c r f i env) f.seq i env in
        rw (delivered-err relay c r f i env x e, process) (inl m.dedup)
    | inl (raw, e) ↦ go raw e (delivered-Answer relay c r f i env raw e)
  ]
    where
      go :
          (raw : List ℕ)
          → decompress c f ≡ ok raw
          → Answer
              (entered relay c r f i env)
              f
              raw
              env
              (delivered relay c r f i env).0
              (delivered relay c r f i env).1
          → Recorded r f env (process relay c r f i env).0
      go raw e (refused _ _ _ d _ _ _) = inl d
      go raw e (stored _ w im dl d _ _) = inr (d, written raw e w im dl)
      go raw e (isolated l _ p same im dl d _ _) = inr (d, buried raw l e p same im dl)

  -- What a call does to the window.
  data Call (r : Receiver S) (fb : List ℕ) (env : Env) (r' : Receiver S) : Type 0 where
    same_window : r'.dedup ≡ r.dedup → Call r fb env r'
    new_entry :
        (f : Frame)
        → decode fb ≡ ok f
        → r'.dedup ≡ dedup_record r.dedup f.seq f.crc
        → Persisted c r f env r'
        → Call r fb env r'

  handle_frame-Call :
      (r : Receiver S) (i : ℕ) (fb : List ℕ) (env : Env)
      → Call r fb env (handle_frame relay c r i fb env).0
  unfolding handle_frame accept
  handle_frame-Call r i fb env = elim (Result-cases (decode fb)) [
    | inr (x, e) ↦ rw (e, handle_frame) (same_window refl)
    | inl (f, e) ↦ elim (Bool-cases (is_heartbeat f)) [
      | inl beat ↦ rw (e, beat, handle_frame, accept) (same_window refl)
      | inr data_frame ↦ elim (Bool-cases (leb f.seq r.last_seq && dedup_hit r.dedup f.seq f.crc)) [
        | inl seen ↦ rw (e, data_frame, seen, handle_frame, accept) (same_window refl)
        | inr fresh ↦
            rw (handle-process relay c r i fb f env e data_frame fresh)
              (by_record f e (process-Recorded (count r received) f i env))
      ]
    ]
  ]
    where
      by_record :
          (f : Frame)
          → decode fb ≡ ok f
          → Recorded (count r received) f env (process relay c (count r received) f i env).0
          → Call r fb env (process relay c (count r received) f i env).0
      by_record f e (inl d) = same_window d
      by_record f e (inr k) = new_entry f e k.0 (Persisted-count received k.1)

  -- In a receiver that has started with an empty window, what is taken for a duplicate has the number
  -- and the checksum of a frame that a call of the handler has written to the database, or has put
  -- into the dead letters when the database had refused it for good.
  pub Served-Dealt :
      (r : Receiver S) (seq crc : ℕ) → Served r → dedup_hit r.dedup seq crc ≡ true → Dealt seq crc r
  Served-Dealt r seq crc (started none_yet) h = absurd (ground (arith, h, none_yet seq crc))
  Served-Dealt r seq crc (handled r0 i fb env e s) h =
      by_call (subst (Call r0 fb env) (sym e) (handle_frame-Call r0 i fb env))
        (λ k. earlier r0 i fb env e (Served-Dealt r0 seq crc s k))
    where
      by_call :
          Call r0 fb env r → (dedup_hit r0.dedup seq crc ≡ true → Dealt seq crc r) → Dealt seq crc r
      by_call (same_window d) old = old (subst (λ (w : Window). dedup_hit w seq crc ≡ true) d h)
      by_call (new_entry f dec d p) old =
          by_hit f dec p
            (dedup_hit-record r0.dedup f.seq f.crc seq crc
              (subst (λ (w : Window). dedup_hit w seq crc ≡ true) d h))
            old
        where
          by_hit :
              (f : Frame)
              → decode fb ≡ ok f
              → Persisted c r0 f env r
              → ((seq ≡ f.seq) × (crc ≡ f.crc))
                ⊎ ((seq ≢ f.seq) × (dedup_hit r0.dedup seq crc ≡ true))
              → (dedup_hit r0.dedup seq crc ≡ true → Dealt seq crc r)
              → Dealt seq crc r
          by_hit f dec p (inl k) old = dealt r0 i fb f env e dec (sym k.0, sym k.1) p
          by_hit f dec p (inr k) old = old k.1
