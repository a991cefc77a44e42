-- ===== src/Receiver/Answer.antt =====
-- The three ways in which the treatment of a data frame ends.
use vm_sync.Base.{ℕ, ◌+◌, ◌≤◌, ◌≡◌, refl, arith, List, ◌∷◌, none, some, ap, ◌∙◌}
use vm_sync.Base.{true, ◌&&◌, ◌==◌, length, Bool-cases, Option-cases, inl, inr, trim_space}
use vm_sync.Protocol.Frame.{Frame, ack_success, ack_fail}
use vm_sync.Vm.Http.{ImportError, import_write}
use vm_sync.Receiver.Window.{Window, dedup_record}
use vm_sync.Receiver.Classify.{DeadLetter, Class, write_dlq_json, classify_write_error}
use vm_sync.Receiver.State.{Receiver, Counters, Env, Relay}
use vm_sync.Receiver.Handle.{
  count, finish, isolate, import_failed, save_relay, forward, report_ts, import_ok, deliver,
}
use vm_sync.Receiver.Kept.{Moves, mark_done-Moves}

-- A permanent import error of the payload.
pub record IsPoison (raw : List ℕ) (env : Env) : Type 0 where
  pub error : ImportError
  pub failed : import_write raw env.response ≡ some error
  pub permanent : (classify_write_error error).permanent ≡ true

abbrev failed_write : Counters → Counters
failed_write m = record m { write_fail = m.write_fail + 1 }

module _ {S : Type 0} where
  -- From `r` to `r'` the frame was finished: it is in the duplicate window.
  pub record Finished (r : Receiver S) (f : Frame) (r' : Receiver S) : Type 0 where
    pub last_seq : r.last_seq ≤ r'.last_seq
    pub inflight_seq : r'.inflight_seq ≡ r.inflight_seq
    pub dedup : r'.dedup ≡ dedup_record r.dedup f.seq f.crc
    pub imported : r'.imported ≡ r.imported
    pub dead_letters : r'.dead_letters ≡ r.dead_letters
    pub relay : r'.relay ≡ r.relay

  pub finish-Finished : (r : Receiver S) (f : Frame) (env : Env) → Finished r f (finish r f env)
  unfolding finish
  finish-Finished r f env =
      let m = mark_done-Moves r f.seq env in
      record {
        last_seq = m.last_seq;
        inflight_seq = m.inflight_seq;
        dedup = ap (λ (w : Window). dedup_record w f.seq f.crc) m.dedup;
        imported = m.imported;
        dead_letters = m.dead_letters;
        relay = m.relay;
      }

  -- What was written where: nothing; the payload to the database; or a dead letter of the frame.
  pub data Answer (r : Receiver S) (f : Frame) (raw : List ℕ) (env : Env) (r' : Receiver S)
      (ack : ℕ) : Type 0 where
    refused :
        ack ≡ ack_fail
        → r'.imported ≡ r.imported
        → r'.dead_letters ≡ r.dead_letters
        → r'.dedup ≡ r.dedup
        → (r'.relay ≡ r.relay)
          × ((r'.relay_letters ≡ r.relay_letters) × (r'.reported_ts ≡ r.reported_ts))
        → r'.inflight_seq ≡ r.inflight_seq
        → r.last_seq ≤ r'.last_seq
        → Answer r f raw env r' ack
    stored :
        ack ≡ ack_success
        → import_write raw env.response ≡ none
        → r'.imported ≡ raw ∷ r.imported
        → r'.dead_letters ≡ r.dead_letters
        → r'.dedup ≡ dedup_record r.dedup f.seq f.crc
        → r'.inflight_seq ≡ r.inflight_seq
        → r.last_seq ≤ r'.last_seq
        → Answer r f raw env r' ack
    isolated :
        (l : DeadLetter)
        → ack ≡ ack_success
        → IsPoison raw env
        → (l.seq_num ≡ f.seq) × (l.payload ≡ f.payload)
        → r'.imported ≡ r.imported
        → r'.dead_letters ≡ l ∷ r.dead_letters
        → r'.dedup ≡ dedup_record r.dedup f.seq f.crc
        → r'.inflight_seq ≡ r.inflight_seq
        → r.last_seq ≤ r'.last_seq
        → Answer r f raw env r' ack

  abbrev IsAnswer : Receiver S → Frame → List ℕ → Env → Receiver S × ℕ → Type 0
  IsAnswer r f raw env p = Answer r f raw env p.0 p.1

  -- The frame is finished from a state `s` that has a new letter, or a new payload.
  module _ (r s : Receiver S) (f : Frame) (raw : List ℕ) (env : Env) (dedup : s.dedup ≡ r.dedup)
      (inflight : s.inflight_seq ≡ r.inflight_seq) (last : s.last_seq ≡ r.last_seq) where
    isolated_after :
        (l : DeadLetter)
        → IsPoison raw env
        → (l.seq_num ≡ f.seq) × (l.payload ≡ f.payload)
        → s.imported ≡ r.imported
        → s.dead_letters ≡ l ∷ r.dead_letters
        → IsAnswer r f raw env (finish s f env, ack_success)
    isolated_after l p same imported letters =
        let d = finish-Finished s f env in
        isolated l refl p same (d.imported ∙ imported) (d.dead_letters ∙ letters)
          (d.dedup ∙ ap (λ (w : Window). dedup_record w f.seq f.crc) dedup)
          (d.inflight_seq ∙ inflight) (omega (arith, d.last_seq, last))

    reported-Finished : Finished s f (report_ts (finish s f env) raw)
    unfolding report_ts
    reported-Finished = let d = finish-Finished s f env in ground arith

    stored_after :
        import_write raw env.response ≡ none
        → s.imported ≡ raw ∷ r.imported
        → s.dead_letters ≡ r.dead_letters
        → IsAnswer r f raw env (report_ts (finish s f env) raw, ack_success)
    stored_after written imported letters =
        let d = reported-Finished in
        stored refl written (d.imported ∙ imported) (d.dead_letters ∙ letters)
          (d.dedup ∙ ap (λ (w : Window). dedup_record w f.seq f.crc) dedup)
          (d.inflight_seq ∙ inflight) (omega (arith, d.last_seq, last))

  -- An answer to a state that a step on the sequence numbers has left.
  pub Answer-after :
      {r s r' : Receiver S} {f : Frame} {raw : List ℕ} {env : Env} {ack : ℕ}
      → Moves r s
      → Answer s f raw env r' ack
      → Answer r f raw env r' ack
  Answer-after m (refused a i l d y n q) =
      refused a (i ∙ m.imported) (l ∙ m.dead_letters) (d ∙ m.dedup)
        (y.0 ∙ m.relay, (y.1.0 ∙ m.relay_letters, y.1.1 ∙ m.reported_ts)) (n ∙ m.inflight_seq)
        (omega (arith, m.last_seq, q))
  Answer-after {f = f} m (stored a w i l d n q) =
      stored a w (cc (i, m.imported)) (l ∙ m.dead_letters)
        (d ∙ ap (λ (w : Window). dedup_record w f.seq f.crc) m.dedup) (n ∙ m.inflight_seq)
        (omega (arith, m.last_seq, q))
  Answer-after {f = f} m (isolated x a p e i l d n q) =
      isolated x a p e (i ∙ m.imported) (cc (l, m.dead_letters))
        (d ∙ ap (λ (w : Window). dedup_record w f.seq f.crc) m.dedup) (n ∙ m.inflight_seq)
        (omega (arith, m.last_seq, q))

  count-Moves : (r : Receiver S) (g : Counters → Counters) → Moves r (count r g)
  count-Moves r g = ground arith

  isolate-Answer :
      (r : Receiver S) (f : Frame) (raw : List ℕ) (class : Class) (env : Env)
      → IsPoison raw env
      → IsAnswer r f raw env (isolate r f raw class env)
  unfolding isolate write_dlq_json
  isolate-Answer r f raw class env p = elim (Bool-cases (r.cfg.dlq_dir && env.dlq_io)) [
    | inr lost ↦
        rw (lost, isolate, write_dlq_json)
          (refused refl refl refl refl (refl, (refl, refl)) refl (omega arith))
    | inl kept ↦
        rw (kept, isolate, write_dlq_json)
          (isolated_after r _ f raw env refl refl refl _ p (refl, refl) refl refl)
  ]

  import_failed-Answer :
      (r : Receiver S) (f : Frame) (raw : List ℕ) (e : ImportError) (env : Env)
      → import_write raw env.response ≡ some e
      → IsAnswer r f raw env (import_failed r f raw e env)
  unfolding import_failed
  import_failed-Answer r f raw e env failed = elim (Bool-cases (classify_write_error e).permanent) [
    | inr transient ↦
        rw (transient, import_failed)
          (refused refl refl refl refl (refl, (refl, refl)) refl (omega arith))
    | inl permanent ↦
        rw (permanent, import_failed)
          (Answer-after (count-Moves r failed_write) (
            isolate-Answer (count r failed_write) f raw (classify_write_error e) env
              (record { error = e; failed = failed; permanent = permanent })))
  ]

  -- Forwarding touches the log, the letters of failed forwards and a counter.
  record Forwards (r r' : Receiver S) : Type 0 where
    dedup : r'.dedup ≡ r.dedup
    inflight_seq : r'.inflight_seq ≡ r.inflight_seq
    last_seq : r'.last_seq ≡ r.last_seq
    imported : r'.imported ≡ r.imported
    dead_letters : r'.dead_letters ≡ r.dead_letters

  save_relay-Forwards :
      (r : Receiver S) (f : Frame) (raw : List ℕ) (env : Env) → Forwards r (save_relay r f raw env)
  unfolding save_relay write_dlq_json
  save_relay-Forwards r f raw env = elim (Bool-cases (r.cfg.relay_dlq_dir && env.relay_dlq_io)) [
    | inl y ↦ rw (y, save_relay, write_dlq_json) (ground arith)
    | inr n ↦ rw (n, save_relay, write_dlq_json) (ground arith)
  ]

  module _ (relay : Relay S) where
    forward-Forwards :
        (r : Receiver S) (f : Frame) (raw : List ℕ) (env : Env)
        → Forwards r (forward relay r f raw env)
    unfolding forward
    forward-Forwards r f raw env =
        let s = record r { relay = (relay.append f.type raw r.relay).1 } in
        let k = save_relay-Forwards s f raw env in ground (arith, k)

    import_ok-Answer :
        (r : Receiver S) (f : Frame) (raw : List ℕ) (env : Env)
        → import_write raw env.response ≡ none
        → IsAnswer r f raw env (import_ok relay r f raw env)
    unfolding import_ok
    import_ok-Answer r f raw env written =
        stored_after r (forward relay s f raw env) f raw env k.dedup k.inflight_seq k.last_seq
          written k.imported k.dead_letters
      where
        s : Receiver S
        s =
            count (record r { imported = raw ∷ r.imported })
              (λ m. record m { write_ok = m.write_ok + 1 })

        k : Forwards s (forward relay s f raw env)
        k = forward-Forwards s f raw env

    pub deliver-Answer :
        (r : Receiver S) (f : Frame) (raw : List ℕ) (env : Env)
        → IsAnswer r f raw env (deliver relay r f raw env)
    unfolding deliver
    deliver-Answer r f raw env = elim (Bool-cases (length (trim_space raw) == 0)) [
      | inl blank ↦
          rw (blank, deliver) (refused refl refl refl refl (refl, (refl, refl)) refl (omega arith))
      | inr full ↦ elim (Option-cases (import_write raw env.response)) [
        | inl written ↦ rw (full, written, deliver) (import_ok-Answer r f raw env written)
        | inr (e, failed) ↦ rw (full, failed, deliver) (import_failed-Answer r f raw e env failed)
      ]
    ]
