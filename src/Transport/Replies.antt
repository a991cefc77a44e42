-- ===== src/Transport/Replies.antt =====
-- Which bytes a connection of tcp_server.go writes: the answers, and one more for a bad header only.
use vm_sync.Base.{
  ℕ, zero, suc, ◌≡◌, ◌⊎◌, refl, ap, Bool, true, false, ◌&&◌, List, [], ◌∷◌, arith, length,
  length-append, Bool-cases, inl, inr,
}
use vm_sync.Protocol.Frame.{ack_fail}
use vm_sync.Transport.Pipeline.{Wait, ready, gave_up, asleep, advance_next}
use vm_sync.Transport.Serial.{answers, Replied, in_order, refused, IsReplied, Serves-IsReplied}
use vm_sync.Transport.Serving.{
  Reader, reading, admitting, returned, Writer, fetching, holding, written, stopped, Serving,
  connected, Received, ended, bad_head, received, read_next, leave, close_conn, write_ack,
  counts_as_data, take_frame, on_received, start_call, on_admission, read_step, is_running,
  handler_step, on_result, write_step, Action, read, hang_up, shut, handled, write, hang_up_step,
  act, run,
}
use vm_sync.Transport.View.{is_open, answered_by, view}
use vm_sync.Transport.Refines.{run-refines}

module _ (limit : ℕ) (answer : ℕ → ℕ) where
  -- As many bytes were written as frames were answered, or a header did not parse, behind which the
  -- read loop reads nothing more.
  abbrev IsCounted : Serving → Type 0
  IsCounted s =
      (length s.wire ≡ answered_by s.writer s.write_idx)
      ⊎ ((s.reader ≡ returned) × (read_next s.stream ≡ bad_head))

  received-IsCounted :
      (sent : Bool) (r : Received) (s : Serving)
      → IsCounted s
      → s.reader ≡ reading
      → read_next s.stream ≡ r
      → IsCounted (on_received sent r s)
  unfolding on_received leave take_frame write_ack
  received-IsCounted sent r s (inr h) w e = absurd (ground (arith, w, h.0))
  received-IsCounted sent ended s (inl h) w e = inl h
  received-IsCounted true bad_head s (inl h) w e = inr (refl, e)
  received-IsCounted false bad_head s (inl h) w e = inl h
  received-IsCounted sent (received head frame_bytes rest) s (inl h) w e =
      elim (Bool-cases (counts_as_data head)) [ inl b ↦ rw b (inl h) | inr b ↦ rw b (inl h) ]

  admitted-IsCounted :
      (frame_idx : ℕ) (frame_bytes : List ℕ) (v : Wait (Unit {0})) (s : Serving)
      → IsCounted s
      → s.reader ≡ admitting frame_idx frame_bytes
      → IsCounted (on_admission frame_idx frame_bytes v s)
  unfolding on_admission leave start_call
  admitted-IsCounted frame_idx frame_bytes v s (inr h) w = absurd (ground (arith, w, h.0))
  admitted-IsCounted frame_idx frame_bytes (ready u) s (inl h) w = inl h
  admitted-IsCounted frame_idx frame_bytes gave_up s (inl h) w = inl h
  admitted-IsCounted frame_idx frame_bytes asleep s (inl h) w = inl h

  read-IsCounted :
      (sent : Bool) (r : Reader) (s : Serving)
      → IsCounted s
      → s.reader ≡ r
      → IsCounted (read_step limit sent r s)
  unfolding read_step
  read-IsCounted sent reading s h w = received-IsCounted sent _ s h w refl
  read-IsCounted sent (admitting frame_idx frame_bytes) s h w =
      admitted-IsCounted frame_idx frame_bytes _ s h w
  read-IsCounted sent returned s h w = h

  hang_up-IsCounted :
      (r : Reader) (s : Serving) → IsCounted s → s.reader ≡ r → IsCounted (hang_up_step r s)
  unfolding leave
  hang_up-IsCounted reading s (inl h) w = inl h
  hang_up-IsCounted reading s (inr h) w = absurd (ground (arith, w, h.0))
  hang_up-IsCounted (admitting frame_idx frame_bytes) s h w = h
  hang_up-IsCounted returned s h w = h

  shut-IsCounted : (r : Reader) (s : Serving) → IsCounted s → IsCounted (close_conn r s)
  shut-IsCounted reading s h = h
  shut-IsCounted (admitting frame_idx frame_bytes) s h = h
  shut-IsCounted returned s h = h

  handled-IsCounted : (i : ℕ) (s : Serving) → IsCounted s → IsCounted (handler_step i (answer i) s)
  unfolding handler_step
  handled-IsCounted i s h = elim (Bool-cases (is_running i s.calls)) [
    | inl e ↦ rw e h
    | inr e ↦ rw e h
  ]

  result-IsCounted :
      (v : Wait _) (s : Serving) → IsCounted s → s.writer ≡ fetching → IsCounted (on_result v s)
  unfolding on_result
  result-IsCounted (ready (ack, p)) s (inl h) w = inl (rw w at h)
  result-IsCounted gave_up s (inl h) w = inl (rw w at h)
  result-IsCounted asleep s (inl h) w = inl h
  result-IsCounted (ready (ack, p)) s (inr h) w = inr h
  result-IsCounted gave_up s (inr h) w = inr h
  result-IsCounted asleep s (inr h) w = inr h

  write-IsCounted :
      (sent : Bool) (k : Writer) (s : Serving)
      → IsCounted s
      → s.writer ≡ k
      → IsCounted (write_step sent k s)
  unfolding write_step write_ack advance_next
  write-IsCounted sent fetching s h w = result-IsCounted _ s h w
  write-IsCounted true (holding ack) s (inl h) w =
      inl (omega (arith, length-append s.wire (ack ∷ []), rw w at h))
  write-IsCounted false (holding ack) s (inl h) w = inl (rw w at h)
  write-IsCounted sent written s (inl h) w = inl (rw w at h)
  write-IsCounted true (holding ack) s (inr h) w = inr h
  write-IsCounted false (holding ack) s (inr h) w = inr h
  write-IsCounted sent written s (inr h) w = inr h
  write-IsCounted sent stopped s h w = h

  act-IsCounted : (a : Action) (s : Serving) → IsCounted s → IsCounted (act limit answer a s)
  unfolding act
  act-IsCounted (read sent) s h = read-IsCounted sent s.reader s h refl
  act-IsCounted hang_up s h = hang_up-IsCounted s.reader s h refl
  act-IsCounted shut s h = shut-IsCounted s.reader s h
  act-IsCounted (handled i) s h = handled-IsCounted i s h
  act-IsCounted (write sent) s h = write-IsCounted (sent && s.conn_open) s.writer s h refl

  pub run-IsCounted :
      (schedule : List Action) (s : Serving) → IsCounted s → IsCounted (run limit answer schedule s)
  unfolding run
  run-IsCounted [] s h = h
  run-IsCounted (a ∷ schedule) s h =
      run-IsCounted schedule (act limit answer a s) (act-IsCounted a s h)

  started : (stream : List ℕ) → IsCounted (connected stream)
  unfolding connected
  started stream = inl refl

  -- As many answers as there are bytes, where nothing else was written.
  length-answers : (n : ℕ) → length (answers limit answer n) ≡ n
  unfolding answers
  length-answers zero = refl
  length-answers (suc n) =
      omega (arith, length-append (answers limit answer n) (answer n ∷ []), length-answers n)

  all_in_order :
      (s : Serving)
      → Replied limit answer (answered_by s.writer s.write_idx) s.wire (is_open s.reader)
      → IsCounted s
      → (s.wire ≡ answers limit answer (answered_by s.writer s.write_idx))
        ⊎ (read_next s.stream ≡ bad_head)
  all_in_order s r (inr h) = inr h.1
  all_in_order s (in_order e) (inl h) = inl e
  all_in_order s (refused before later gone e f) (inl h) = absurd (
      omega (
        arith,
        h,
        ap length e,
        ap length f,
        length-append before (ack_fail ∷ later),
        length-append before later,
        length-answers (answered_by s.writer s.write_idx),
      ))

  -- Whatever the schedule, the bytes on the wire are the answers of the handlers to the first frames
  -- in the order of arrival, or these with one 0x00 more among them when the read loop has returned; and
  -- the latter only if a header that does not parse stands next in the stream. No more than `limit`
  -- frames that were taken in are without an answer.
  pub run-IsReplied :
      (stream : List ℕ) (schedule : List Action)
      → IsReplied limit answer (view (run limit answer schedule (connected stream)))
        × (((run limit answer schedule (connected stream)).wire
              ≡ answers limit answer (view (run limit answer schedule (connected stream))).answered)
            ⊎ (read_next (run limit answer schedule (connected stream)).stream ≡ bad_head))
  unfolding answers
  run-IsReplied stream schedule =
      let replied =
        Serves-IsReplied limit answer (run-refines limit answer stream schedule)
          (in_order refl, omega arith, omega arith) in
      (
        replied,
        all_in_order (run limit answer schedule (connected stream)) replied.0
            (run-IsCounted schedule (connected stream) (started stream)),
      )
