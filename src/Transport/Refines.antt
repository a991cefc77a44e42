-- ===== src/Transport/Refines.antt =====
-- The concurrent connection of tcp_server.go does what the serial one does, whatever the schedule.
use vm_sync.Base.{ℕ, refl, ◌&&◌, List, [], ◌∷◌, arith}
use vm_sync.Base.Maps.{get}
use vm_sync.Transport.Pipeline.{new_conn_pipeline}
use vm_sync.Transport.Serial.{idle, Serves, here}
use vm_sync.Transport.Serving.{
  Serving, connected, Action, read, hang_up, shut, handled, write, act, run,
}
use vm_sync.Transport.View.{view, IsServing, Follows}
use vm_sync.Transport.Reading.{Follows-read, Follows-hang_up, Follows-close_conn}
use vm_sync.Transport.Writing.{Follows-handler, Follows-write}

module _ (limit : ℕ) (answer : ℕ → ℕ) where
  act-Follows :
      (a : Action) (s : Serving)
      → IsServing answer s
      → Follows limit answer s (act limit answer a s)
  unfolding act
  act-Follows (read sent) s h = Follows-read limit answer sent s s.reader h refl
  act-Follows hang_up s h = Follows-hang_up limit answer s s.reader h
  act-Follows shut s h = Follows-close_conn limit answer s s.reader h
  act-Follows (handled i) s h = Follows-handler limit answer i s h
  act-Follows (write sent) s h = Follows-write limit answer (sent && s.conn_open) s s.writer h refl

  -- After any schedule the serial connection can have taken in the same frames and written the same
  -- bytes.
  pub run-Follows :
      (schedule : List Action) (s : Serving)
      → IsServing answer s
      → Follows limit answer s (run limit answer schedule s)
  unfolding run
  run-Follows [] s h = (h, λ x r. r)
  run-Follows (a ∷ schedule) s h =
      let first = act-Follows a s h in
      let rest = run-Follows schedule (act limit answer a s) first.0 in
      (rest.0, λ x r. rest.1 x (first.1 x r))

  connected-IsServing : (stream : List ℕ) → IsServing answer (connected stream)
  unfolding connected new_conn_pipeline get
  connected-IsServing stream = record {
    running = tt;
    kept = λ i ack e. absurd (ground (arith, e));
    counted = refl;
    hand = (tt, tt);
  }

  -- Whatever the schedule of the threads and whatever the handlers answer, what is seen of the
  -- connection from outside, the frames taken in and the bytes written, is a run of the serial
  -- connection, which asks at most `limit` frames without an answer and replies in order.
  pub run-refines :
      (stream : List ℕ) (schedule : List Action)
      → Serves limit answer idle (view (run limit answer schedule (connected stream)))
  unfolding connected
  run-refines stream schedule =
      (run-Follows schedule (connected stream) (connected-IsServing stream)).1 idle here
