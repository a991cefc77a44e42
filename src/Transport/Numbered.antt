-- ===== src/Transport/Numbered.antt =====
-- Which frame each handler call of tcp_server.go gets, and with which numbers.
use vm_sync.Base.{
  ℕ, ◌≡◌, refl, Bool, true, false, ◌&&◌, List, [], ◌∷◌, All, ◌==◌, Bool-cases, inl, inr,
}
use vm_sync.Transport.Pipeline.{Wait, ready, gave_up, asleep}
use vm_sync.Transport.Serving.{
  Call, Reader, reading, admitting, returned, Writer, fetching, holding, written, stopped, Serving,
  connected, Received, ended, bad_head, received, read_next, leave, write_ack, on_received,
  on_admission, read_step, is_running, end_call, handler_step, on_result, write_step, Action, read,
  hang_up, shut, close_conn, handled, write, hang_up_step, act, run,
}
use vm_sync.Transport.Arrivals.{
  all_arrivals, IsCallOf, IsNumbered, arrival-IsNumbered, start_call-IsNumbered,
}

All-end_call {κ} : (P : Call → Type κ) (i : ℕ) (cs : List Call) → All P cs → All P (end_call i cs)
All-end_call P i [] h = tt
All-end_call P i (c ∷ cs) h = elim (Bool-cases (c.index == i)) [
  | inl e ↦ rw e (All-end_call P i cs h.1)
  | inr e ↦ rw e (h.0, All-end_call P i cs h.1)
]

module _ (all : List (ℕ × List ℕ)) where
  on_received-IsNumbered :
      (sent : Bool) (r : Received) (s : Serving)
      → IsNumbered all s
      → s.reader ≡ reading
      → read_next s.stream ≡ r
      → IsNumbered all (on_received sent r s)
  unfolding on_received leave write_ack
  on_received-IsNumbered sent ended s n w e = (n.0, tt)
  on_received-IsNumbered true bad_head s n w e = (n.0, tt)
  on_received-IsNumbered false bad_head s n w e = (n.0, tt)
  on_received-IsNumbered sent (received h frame_bytes rest) s n w e =
      arrival-IsNumbered all h frame_bytes rest s n w e

  on_admission-IsNumbered :
      (frame_idx : ℕ) (frame_bytes : List ℕ) (v : Wait (Unit {0})) (s : Serving)
      → IsNumbered all s
      → s.reader ≡ admitting frame_idx frame_bytes
      → IsNumbered all (on_admission frame_idx frame_bytes v s)
  unfolding on_admission leave
  on_admission-IsNumbered frame_idx frame_bytes (ready u) s n w =
      start_call-IsNumbered all frame_idx frame_bytes s n w
  on_admission-IsNumbered frame_idx frame_bytes gave_up s n w = (n.0, tt)
  on_admission-IsNumbered frame_idx frame_bytes asleep s n w = n

  read_step-IsNumbered :
      (limit : ℕ) (sent : Bool) (r : Reader) (s : Serving)
      → IsNumbered all s
      → s.reader ≡ r
      → IsNumbered all (read_step limit sent r s)
  unfolding read_step
  read_step-IsNumbered limit sent reading s n w = on_received-IsNumbered sent _ s n w refl
  read_step-IsNumbered limit sent (admitting frame_idx frame_bytes) s n w =
      on_admission-IsNumbered frame_idx frame_bytes _ s n w
  read_step-IsNumbered limit sent returned s n w = n

  hang_up_step-IsNumbered :
      (r : Reader) (s : Serving) → IsNumbered all s → IsNumbered all (hang_up_step r s)
  unfolding leave
  hang_up_step-IsNumbered reading s n = (n.0, tt)
  hang_up_step-IsNumbered (admitting frame_idx frame_bytes) s n = n
  hang_up_step-IsNumbered returned s n = n

  close_conn-IsNumbered :
      (r : Reader) (s : Serving) → IsNumbered all s → IsNumbered all (close_conn r s)
  close_conn-IsNumbered reading s n = n
  close_conn-IsNumbered (admitting frame_idx frame_bytes) s n = n
  close_conn-IsNumbered returned s n = n

  handler_step-IsNumbered :
      (i ack : ℕ) (s : Serving) → IsNumbered all s → IsNumbered all (handler_step i ack s)
  unfolding handler_step
  handler_step-IsNumbered i ack s n = elim (Bool-cases (is_running i s.calls)) [
    | inl e ↦ rw e (All-end_call (IsCallOf all) i s.calls n.0, n.1)
    | inr e ↦ rw e n
  ]

  on_result-IsNumbered :
      (v : Wait _) (s : Serving) → IsNumbered all s → IsNumbered all (on_result v s)
  unfolding on_result
  on_result-IsNumbered (ready (ack, p)) s n = n
  on_result-IsNumbered gave_up s n = n
  on_result-IsNumbered asleep s n = n

  write_step-IsNumbered :
      (sent : Bool) (w : Writer) (s : Serving)
      → IsNumbered all s
      → IsNumbered all (write_step sent w s)
  unfolding write_step write_ack
  write_step-IsNumbered sent fetching s n = on_result-IsNumbered _ s n
  write_step-IsNumbered true (holding ack) s n = n
  write_step-IsNumbered false (holding ack) s n = n
  write_step-IsNumbered sent written s n = n
  write_step-IsNumbered sent stopped s n = n

  module _ (limit : ℕ) (answer : ℕ → ℕ) where
    act-IsNumbered :
        (a : Action) (s : Serving) → IsNumbered all s → IsNumbered all (act limit answer a s)
    unfolding act
    act-IsNumbered (read sent) s n = read_step-IsNumbered limit sent s.reader s n refl
    act-IsNumbered hang_up s n = hang_up_step-IsNumbered s.reader s n
    act-IsNumbered shut s n = close_conn-IsNumbered s.reader s n
    act-IsNumbered (handled i) s n = handler_step-IsNumbered i (answer i) s n
    act-IsNumbered (write sent) s n = write_step-IsNumbered (sent && s.conn_open) s.writer s n

    pub run-IsNumbered :
        (schedule : List Action) (s : Serving)
        → IsNumbered all s
        → IsNumbered all (run limit answer schedule s)
    unfolding run
    run-IsNumbered [] s n = n
    run-IsNumbered (a ∷ schedule) s n =
        run-IsNumbered schedule (act limit answer a s) (act-IsNumbered a s n)

-- Whatever the schedule, each handler call that runs has the frame that stands at its number among
-- the whole frames at the front of the connection's bytes, and that frame's number among the data
-- frames, heartbeats having 0.
pub run-arrivals :
    (limit : ℕ) (answer : ℕ → ℕ) (stream : List ℕ) (schedule : List Action)
    → All (IsCallOf (all_arrivals stream)) (run limit answer schedule (connected stream)).calls
unfolding connected
run-arrivals limit answer stream schedule =
    (run-IsNumbered (all_arrivals stream) limit answer schedule (connected stream) (tt, refl)).0
