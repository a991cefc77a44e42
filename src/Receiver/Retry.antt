-- ===== src/Receiver/Retry.antt =====
-- What a refusal leaves behind, and what a frame that is sent again meets.
use vm_sync.Base.{ℕ, ◌+◌, ◌≤◌, ◌≡◌, arith, List, ap}
use vm_sync.Base.{true, false, ◌&&◌, leb, Bool-cases, inl, inr}
use vm_sync.Protocol.Frame.{Frame, ok, Result-cases, is_heartbeat, ack_success}
use vm_sync.Protocol.Codec.{Compressors, decode, decompress}
use vm_sync.Receiver.Window.{dedup_hit, dedup_record}
use vm_sync.Receiver.Dedup.{dedup_hit-record_self}
use vm_sync.Receiver.State.{Receiver, Counters, Env, Relay, add_inflight, remove_inflight}
use vm_sync.Receiver.Handle.{count, process, accept, handle_frame}
use vm_sync.Receiver.Answer.{Answer, refused, stored, isolated}
use vm_sync.Receiver.Ack.{
  received, handle-process, entered, delivered, delivered-Answer, delivered-err,
}

abbrev pub duplicated : Counters → Counters
duplicated m = record m { dup = m.dup + 1 }

module _ {S : Type 0} where
  -- Nothing of the frame was written, and it is as unknown as it was.
  pub record Untouched (r r' : Receiver S) : Type 0 where
    pub imported : r'.imported ≡ r.imported
    pub dead_letters : r'.dead_letters ≡ r.dead_letters
    pub dedup : r'.dedup ≡ r.dedup
    pub relay : r'.relay ≡ r.relay
    pub relay_letters : r'.relay_letters ≡ r.relay_letters
    pub reported_ts : r'.reported_ts ≡ r.reported_ts
    pub last_seq : r.last_seq ≤ r'.last_seq

  module _ (relay : Relay S) (c : Compressors) where
    process-dedup :
        (r : Receiver S) (f : Frame) (i : ℕ) (env : Env)
        → (process relay c r f i env).1 ≡ ack_success
        → (process relay c r f i env).0.dedup ≡ dedup_record r.dedup f.seq f.crc
    unfolding process add_inflight remove_inflight
    process-dedup r f i env success = elim (Result-cases (decompress c f)) [
      | inr (x, e) ↦ absurd (
          omega (
            arith,
            success,
            ap (λ (p : Receiver S × ℕ). p.1) (delivered-err relay c r f i env x e),
          ))
      | inl (raw, e) ↦ go (delivered-Answer relay c r f i env raw e)
    ]
      where
        go :
            {raw : List ℕ}
            → Answer
                (entered relay c r f i env)
                f
                raw
                env
                (delivered relay c r f i env).0
                (delivered relay c r f i env).1
            → (process relay c r f i env).0.dedup ≡ dedup_record r.dedup f.seq f.crc
        go (refused a _ _ _ _ _ _) = absurd (omega (arith, a, success))
        go (stored _ _ _ _ d _ _) = d
        go (isolated _ _ _ _ _ _ d _ _) = d

    module _ (r : Receiver S) (i : ℕ) (fb : List ℕ) (f : Frame) (env : Env)
        (decoded : decode fb ≡ ok f) (data_frame : is_heartbeat f ≡ false) where
      -- After 0xff the frame is in the duplicate window.
      success-hit :
          (handle_frame relay c r i fb env).1 ≡ ack_success
          → dedup_hit (handle_frame relay c r i fb env).0.dedup f.seq f.crc ≡ true
      unfolding handle_frame accept
      success-hit success =
          elim (Bool-cases (leb f.seq r.last_seq && dedup_hit r.dedup f.seq f.crc)) [
            | inl seen ↦ rw (decoded, data_frame, seen, handle_frame, accept) (ground arith)
            | inr fresh ↦
                let run = handle-process relay c r i fb f env decoded data_frame fresh in
                rw (run, process-dedup (count r received) f i env (rw run at success))
                  (dedup_hit-record_self r.dedup f.seq f.crc)
          ]

      duplicate-eq :
          (s : Receiver S) (j : ℕ) (env' : Env)
          → dedup_hit s.dedup f.seq f.crc ≡ true
          → f.seq ≤ s.last_seq
          → handle_frame relay c s j fb env' ≡ (count (count s received) duplicated, ack_success)
      unfolding handle_frame accept
      duplicate-eq s j env' hit le =
          let seen : (leb f.seq s.last_seq && dedup_hit s.dedup f.seq f.crc) ≡ true =
            ground arith in
          rw (decoded, data_frame, seen, handle_frame, accept)

      -- A data frame that was answered 0xff and that the prefix has passed is a duplicate when it comes
      -- again in the next call of the handler, whatever the network and the disk do then: it is answered
      -- 0xff at once, and only two counters move. Nothing is said of a later call, before which other
      -- frames may have driven it out of the window.
      pub resend_is_duplicate :
          (j : ℕ) (env' : Env)
          → (handle_frame relay c r i fb env).1 ≡ ack_success
          → f.seq ≤ (handle_frame relay c r i fb env).0.last_seq
          → handle_frame relay c (handle_frame relay c r i fb env).0 j fb env'
            ≡ (count (count (handle_frame relay c r i fb env).0 received) duplicated, ack_success)
      resend_is_duplicate j env' success passed =
          duplicate-eq (handle_frame relay c r i fb env).0 j env' (success-hit success) passed
