-- ===== src/Receiver/Handle.antt =====
-- HandleFrame of internal/receiver/receiver.go, in the parts that follow one another in it.
use vm_sync.Base.{ℕ, ◌+◌, ◌-◌, List, [], ◌∷◌, none, some}
use vm_sync.Base.{◌&&◌, not, ltb, leb, ◌==◌, if◌then◌else◌, length, split, trim_space}
use vm_sync.Protocol.Frame.{Frame, ok, err, is_heartbeat, ack_success, ack_fail}
use vm_sync.Protocol.Codec.{Compressors, decode, decompress}
use vm_sync.Vm.Http.{ImportError, import_write}
use vm_sync.Vm.Timestamps.{last_sample_timestamp}
use vm_sync.Receiver.Tracker.{add64, seq_jump_limit}
use vm_sync.Receiver.Window.{dedup_hit, dedup_record}
use vm_sync.Receiver.Classify.{
  Class, DeadLetter, classify_write_error, metric_of, write_dlq_json, relay_forward_failure, zone_i,
  zone_ii,
}
use vm_sync.Receiver.State.{
  Receiver, Counters, Env, Relay, add_inflight, remove_inflight, mark_done, try_close_gap,
  gap_warn_allowed, mark_gap_warned,
}

keep_line : List ℕ → List (List ℕ) → List (List ℕ)
keep_line line lines = if length line == 0 then lines else line ∷ lines

split_lines_loop : List (List ℕ) → List (List ℕ)
unfolding keep_line
split_lines_loop [] = []
split_lines_loop (l ∷ ls) = keep_line (trim_space l) (split_lines_loop ls)

-- splitLines: the lines that are not blank, trimmed.
unfoldable pub split_lines : List ℕ → List (List ℕ)
unfolding split_lines_loop
split_lines raw = split_lines_loop (split b'\n' raw)

poison_letter : Frame → List ℕ → Class → DeadLetter
poison_letter f raw class = record {
  seq_num = f.seq;
  retry_attempts = 1;
  category = class.category;
  http_status = class.http_status;
  source_zone = zone_i;
  measurement = metric_of (split_lines raw);
  point_count = length (split_lines raw);
  uncompressed_bytes = length raw;
  payload = f.payload;
}

relay_letter : Frame → List ℕ → DeadLetter
relay_letter f raw = record {
  seq_num = f.seq;
  retry_attempts = 1;
  category = relay_forward_failure;
  http_status = 0;
  source_zone = zone_ii;
  measurement = metric_of (split_lines raw);
  point_count = length (split_lines raw);
  uncompressed_bytes = length raw;
  payload = f.payload;
}

module _ {S : Type 0} where
  abbrev pub count : Receiver S → (Counters → Counters) → Receiver S
  count r f = record r { metrics = f r.metrics }

  unfoldable pub warn_gap : Receiver S → ℕ → ℕ → Receiver S
  warn_gap r seq now = if gap_warn_allowed r now then mark_gap_warned r seq now else r

  -- The treatment of a jump; `frame_idx` 0 is the first frame of its connection.
  unfoldable pub check_jump : Receiver S → ℕ → ℕ → Env → Receiver S
  unfolding warn_gap
  check_jump r seq frame_idx env =
      if not (ltb (add64 r.last_seq 1) seq)
      then r
      else if ltb (add64 r.last_seq seq_jump_limit) seq
      then warn_gap r seq env.now
      else if frame_idx == 0
      then elim (try_close_gap r seq env) [
        | some r' ↦ record r' { gap_warned = 0 }
        | none ↦ warn_gap r seq env.now
      ]
      else warn_gap r seq env.now

  -- A frame that is done with: the prefix moves, and the frame enters the duplicate window.
  unfoldable pub finish : Receiver S → Frame → Env → Receiver S
  finish r f env =
      let r' = mark_done r f.seq env in record r' { dedup = dedup_record r'.dedup f.seq f.crc }

  -- A permanent error: the frame goes to the dead letters, and is acknowledged only if it got there.
  unfoldable pub isolate : Receiver S → Frame → List ℕ → Class → Env → Receiver S × ℕ
  unfolding poison_letter finish
  isolate r f raw class env =
      let counted = count r (λ m. record m { poison = m.poison + 1 }) in
      elim (write_dlq_json r.cfg.dlq_dir env.dlq_io (poison_letter f raw class) r.dead_letters) [
        | none ↦ (counted, ack_fail)
        | some letters ↦ (
          finish
              (count (record counted { dead_letters = letters })
                (λ m. record m { dlq = m.dlq + 1 }))
              f env,
          ack_success,
        )
      ]

  unfoldable pub import_failed : Receiver S → Frame → List ℕ → ImportError → Env → Receiver S × ℕ
  unfolding isolate
  import_failed r f raw e env =
      let counted = count r (λ m. record m { write_fail = m.write_fail + 1 }) in
      let class = classify_write_error e in
      if class.permanent then isolate counted f raw class env else (counted, ack_fail)

  -- What a failed append to the forwarding log leaves behind.
  unfoldable pub save_relay : Receiver S → Frame → List ℕ → Env → Receiver S
  unfolding relay_letter
  save_relay r f raw env =
      let counted = count r (λ m. record m { relay_dlq = m.relay_dlq + 1 }) in
      elim (write_dlq_json r.cfg.relay_dlq_dir env.relay_dlq_io (relay_letter f raw)
        r.relay_letters) [
          | none ↦ counted
          | some letters ↦ record counted { relay_letters = letters }
        ]

  unfoldable pub report_ts : Receiver S → List ℕ → Receiver S
  report_ts r raw =
      let ts = last_sample_timestamp raw in
      if r.cfg.last_write_ts && ltb 0 ts then record r { reported_ts = some ts } else r

  module _ (relay : Relay S) where
    unfoldable pub forward : Receiver S → Frame → List ℕ → Env → Receiver S
    unfolding save_relay
    forward r f raw env =
        let (appended, s) = relay.append f.type raw r.relay in
        let r' = record r { relay = s } in
        if not r.cfg.relay_wal then r else if appended then r' else save_relay r' f raw env

    unfoldable pub import_ok : Receiver S → Frame → List ℕ → Env → Receiver S × ℕ
    unfolding forward finish report_ts
    import_ok r f raw env =
        let written =
          count (record r { imported = raw ∷ r.imported })
            (λ m. record m { write_ok = m.write_ok + 1 }) in
        (report_ts (finish (forward written f raw env) f env) raw, ack_success)

    unfoldable pub deliver : Receiver S → Frame → List ℕ → Env → Receiver S × ℕ
    unfolding import_ok import_failed
    deliver r f raw env =
        if length (trim_space raw) == 0
        then (r, ack_fail)
        else elim (import_write raw env.response) [
          | none ↦ import_ok r f raw env
          | some e ↦ import_failed r f raw e env
        ]

    module _ (c : Compressors) where
      unfoldable pub decompress_and_deliver : Receiver S → Frame → Env → Receiver S × ℕ
      unfolding deliver
      decompress_and_deliver r f env = elim (decompress c f) [
        | err e ↦ (r, ack_fail)
        | ok raw ↦ deliver r f raw env
      ]

      -- A data frame that is no duplicate, with what is deferred at its end.
      unfoldable pub process : Receiver S → Frame → ℕ → Env → Receiver S × ℕ
      unfolding check_jump decompress_and_deliver
      process r f frame_idx env =
          let entered =
            add_inflight (count r (λ m. record m { inflight = m.inflight + 1 })) f.seq in
          let (left, ack) = decompress_and_deliver (check_jump entered f.seq frame_idx env) f env in
          (count (remove_inflight left f.seq) (λ m. record m { inflight = m.inflight - 1 }), ack)

      unfoldable pub accept : Receiver S → Frame → ℕ → Env → Receiver S × ℕ
      unfolding process
      accept r f frame_idx env =
          if is_heartbeat f
          then (r, ack_success)
          else if leb f.seq r.last_seq && dedup_hit r.dedup f.seq f.crc
          then (count r (λ m. record m { dup = m.dup + 1 }), ack_success)
          else process r f frame_idx env

      unfoldable pub handle_frame : Receiver S → ℕ → List ℕ → Env → Receiver S × ℕ
      unfolding accept
      handle_frame r frame_idx frame_bytes env =
          let counted = count r (λ m. record m { recv = m.recv + 1 }) in
          elim (decode frame_bytes) [
            | err e ↦ (counted, ack_fail)
            | ok f ↦ accept counted f frame_idx env
          ]
