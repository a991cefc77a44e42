-- ===== src/Receiver/Ack.antt =====
-- What the two acknowledgement bytes of the handler mean.
use vm_sync.Base.{ℕ, ◌+◌, ◌≡◌, arith, List, ◌∷◌, none, ap}
use vm_sync.Base.{true, false, ◌&&◌, leb, Bool-cases, inl, inr, ◌⊎◌}
use vm_sync.Protocol.Frame.{
  Frame, ok, err, Result-cases, is_heartbeat, ack_success, ack_fail, ProtocolError,
}
use vm_sync.Protocol.Codec.{Compressors, decode, decompress}
use vm_sync.Vm.Http.{import_write}
use vm_sync.Receiver.Window.{dedup_hit}
use vm_sync.Receiver.Classify.{DeadLetter}
use vm_sync.Receiver.State.{Receiver, Counters, Env, Relay, add_inflight, remove_inflight}
use vm_sync.Receiver.Handle.{
  count, decompress_and_deliver, process, accept, handle_frame, check_jump,
}
use vm_sync.Receiver.Kept.{check_jump-Moves}
use vm_sync.Receiver.Answer.{
  IsPoison, Answer, refused, stored, isolated, Answer-after, deliver-Answer,
}

abbrev pub received : Counters → Counters
received m = record m { recv = m.recv + 1 }

module _ {S : Type 0} where
  -- The payload of the frame is in the database, or a dead letter holds the frame: and then only
  -- because the database has refused it for good.
  pub data Persisted (c : Compressors) (r : Receiver S) (f : Frame) (env : Env) (r' : Receiver S)
      : Type 0 where
    written :
        (raw : List ℕ)
        → decompress c f ≡ ok raw
        → import_write raw env.response ≡ none
        → r'.imported ≡ raw ∷ r.imported
        → r'.dead_letters ≡ r.dead_letters
        → Persisted c r f env r'
    buried :
        (raw : List ℕ) (l : DeadLetter)
        → decompress c f ≡ ok raw
        → IsPoison raw env
        → (l.seq_num ≡ f.seq) × (l.payload ≡ f.payload)
        → r'.imported ≡ r.imported
        → r'.dead_letters ≡ l ∷ r.dead_letters
        → Persisted c r f env r'

  module _ (relay : Relay S) (c : Compressors) (r : Receiver S) (f : Frame) (i : ℕ)
      (env : Env) where
    abbrev pub entered : Receiver S
    entered = add_inflight (count r (λ m. record m { inflight = m.inflight + 1 })) f.seq

    abbrev pub delivered : Receiver S × ℕ
    delivered = decompress_and_deliver relay c (check_jump entered f.seq i env) f env

    pub delivered-Answer :
        (raw : List ℕ) → decompress c f ≡ ok raw → Answer entered f raw env delivered.0 delivered.1
    unfolding decompress_and_deliver
    delivered-Answer raw e = Answer-after (check_jump-Moves entered f.seq i env) (
        rw (e, decompress_and_deliver)
          (deliver-Answer relay (check_jump entered f.seq i env) f raw env))

    pub delivered-err :
        (x : ProtocolError)
        → decompress c f ≡ err x
        → delivered ≡ (check_jump entered f.seq i env, ack_fail)
    unfolding decompress_and_deliver
    delivered-err x e = rw (e, decompress_and_deliver)

    process-Persisted :
        (process relay c r f i env).1 ≡ ack_success
        → Persisted c r f env (process relay c r f i env).0
    unfolding process add_inflight remove_inflight
    process-Persisted success = elim (Result-cases (decompress c f)) [
      | inr (x, e) ↦
          absurd (omega (arith, success, ap (λ (p : Receiver S × ℕ). p.1) (delivered-err x e)))
      | inl (raw, e) ↦ go raw e (delivered-Answer raw e)
    ]
      where
        go :
            (raw : List ℕ)
            → decompress c f ≡ ok raw
            → Answer entered f raw env delivered.0 delivered.1
            → Persisted c r f env (process relay c r f i env).0
        go raw e (refused a _ _ _ _ _ _) = absurd (omega (arith, a, success))
        go raw e (stored _ w im dl _ _ _) = written raw e w im dl
        go raw e (isolated l _ p same im dl _ _ _) = buried raw l e p same im dl

  pub Persisted-count :
      {c : Compressors} {r r' : Receiver S} {f : Frame} {env : Env} (g : Counters → Counters)
      → Persisted c (count r g) f env r'
      → Persisted c r f env r'
  Persisted-count g (written raw e w im dl) = written raw e w im dl
  Persisted-count g (buried raw l e p same im dl) = buried raw l e p same im dl

  -- A data frame that is no duplicate is processed.
  pub handle-process :
      (relay : Relay S) (c : Compressors) (r : Receiver S) (i : ℕ) (fb : List ℕ) (f : Frame)
      (env : Env)
      → decode fb ≡ ok f
      → is_heartbeat f ≡ false
      → (leb f.seq r.last_seq && dedup_hit r.dedup f.seq f.crc) ≡ false
      → handle_frame relay c r i fb env ≡ process relay c (count r received) f i env
  unfolding handle_frame accept
  handle-process relay c r i fb f env e data_frame fresh =
      rw (e, data_frame, fresh, handle_frame, accept)

  -- A data frame that decodes is answered 0xff only if it is a duplicate of a frame in the window,
  -- or its payload is in the database, or the database refused it for good and a dead letter
  -- holds it.
  pub ack_success-Persisted :
      (relay : Relay S) (c : Compressors) (r : Receiver S) (i : ℕ) (fb : List ℕ) (f : Frame)
      (env : Env)
      → decode fb ≡ ok f
      → is_heartbeat f ≡ false
      → (handle_frame relay c r i fb env).1 ≡ ack_success
      → (dedup_hit r.dedup f.seq f.crc ≡ true)
        ⊎ Persisted c r f env (handle_frame relay c r i fb env).0
  ack_success-Persisted relay c r i fb f env e data_frame success =
      elim (Bool-cases (leb f.seq r.last_seq && dedup_hit r.dedup f.seq f.crc)) [
        | inl seen ↦ inl (ground arith)
        | inr fresh ↦ inr (
            rw (handle-process relay c r i fb f env e data_frame fresh) (
              Persisted-count received (
                process-Persisted relay c (count r received) f i env
                  (rw (handle-process relay c r i fb f env e data_frame fresh) at success))))
      ]
