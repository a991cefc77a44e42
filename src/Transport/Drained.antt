-- ===== src/Transport/Drained.antt =====
-- The results that wait for the writer of a connection of tcp_server.go.
use vm_sync.Base.{
  ℕ, zero, suc, ◌+◌, ◌<◌, ◌≤◌, ◌≡◌, refl, subst, Bool, true, false, ◌||◌, ◌&&◌, List, [], ◌∷◌, ◌++◌,
  Option, none, some, arith, ◌==◌, if◌then◌else◌, Bool-cases, Option-cases, inl, inr,
}
use vm_sync.Base.Maps.{get, remove, has, get-put, get-remove}
use vm_sync.Protocol.Frame.{Header}
use vm_sync.Transport.Pipeline.{
  set_result, Wait, ready, gave_up, asleep, next_result, result_found, close_pipeline, advance_next,
}
use vm_sync.Transport.Serving.{
  Call, Reader, reading, admitting, returned, Writer, fetching, holding, written, stopped, Serving,
  connected, Received, ended, bad_head, received, leave, write_ack, counts_as_data, take_frame,
  on_received, start_call, on_admission, read_step, is_running, end_call, handler_step, on_result,
  write_step, Action, read, hang_up, shut, close_conn, handled, write, hang_up_step, act, run,
}
use vm_sync.Transport.View.{view}

-- The first number that the writer has not taken up.
abbrev pub first_left : Writer → ℕ → ℕ
first_left fetching i = i
first_left _ i = suc i

-- Each frame behind that number is in a handler, or its result is kept.
abbrev pub IsKept : Serving → Type 0
IsKept s =
    (i : ℕ)
    → i < s.idx
    → first_left s.writer s.write_idx ≤ i
    → (is_running i s.calls || has i s.pipe.results) ≡ true

is_running-end_call :
    (i j : ℕ) (cs : List Call)
    → is_running j (end_call i cs) ≡ (if i == j then false else is_running j cs)
is_running-end_call i j [] = ground arith
is_running-end_call i j (c ∷ cs) = ground (arith, is_running-end_call i j cs)

get_of_has : (k : ℕ) (m : List (ℕ × ℕ)) → has k m ≡ true → (ack : ℕ) × (get k m ≡ some ack)
get_of_has k m h = elim (Option-cases (get k m)) [
  | inl e ↦ absurd (ground (arith, h, e))
  | inr found ↦ found
]

module _ (limit : ℕ) (answer : ℕ → ℕ) where
  take_frame-IsKept :
      (head : Header) (frame_bytes rest : List ℕ) (s : Serving)
      → IsKept s
      → IsKept (take_frame head frame_bytes rest s)
  unfolding take_frame
  take_frame-IsKept head frame_bytes rest s h = elim (Bool-cases (counts_as_data head)) [
    | inl e ↦ rw e h
    | inr e ↦ rw e h
  ]

  on_received-IsKept :
      (sent : Bool) (r : Received) (s : Serving) → IsKept s → IsKept (on_received sent r s)
  unfolding on_received leave close_pipeline write_ack
  on_received-IsKept sent ended s h = h
  on_received-IsKept true bad_head s h = h
  on_received-IsKept false bad_head s h = h
  on_received-IsKept sent (received head frame_bytes rest) s h =
      take_frame-IsKept head frame_bytes rest s h

  on_admission-IsKept :
      (frame_idx : ℕ) (frame_bytes : List ℕ) (w : Wait (Unit {0})) (s : Serving)
      → IsKept s
      → IsKept (on_admission frame_idx frame_bytes w s)
  unfolding on_admission start_call leave close_pipeline
  on_admission-IsKept frame_idx frame_bytes (ready u) s h =
      λ i below left. ground (arith, below, h i)
  on_admission-IsKept frame_idx frame_bytes gave_up s h = h
  on_admission-IsKept frame_idx frame_bytes asleep s h = h

  read_step-IsKept :
      (sent : Bool) (r : Reader) (s : Serving) → IsKept s → IsKept (read_step limit sent r s)
  unfolding read_step
  read_step-IsKept sent reading s h = on_received-IsKept sent _ s h
  read_step-IsKept sent (admitting frame_idx frame_bytes) s h =
      on_admission-IsKept frame_idx frame_bytes _ s h
  read_step-IsKept sent returned s h = h

  hang_up_step-IsKept : (r : Reader) (s : Serving) → IsKept s → IsKept (hang_up_step r s)
  unfolding leave close_pipeline
  hang_up_step-IsKept reading s h = h
  hang_up_step-IsKept (admitting frame_idx frame_bytes) s h = h
  hang_up_step-IsKept returned s h = h

  close_conn-IsKept : (r : Reader) (s : Serving) → IsKept s → IsKept (close_conn r s)
  close_conn-IsKept reading s h = h
  close_conn-IsKept (admitting frame_idx frame_bytes) s h = h
  close_conn-IsKept returned s h = h

  handler_step-IsKept : (i ack : ℕ) (s : Serving) → IsKept s → IsKept (handler_step i ack s)
  unfolding handler_step set_result
  handler_step-IsKept i ack s h = elim (Bool-cases (is_running i s.calls)) [
    | inl e ↦ rw e λ j below left.
        ground
          (arith, h j below left, is_running-end_call i j s.calls, get-put i j ack s.pipe.results)
    | inr e ↦ rw e h
  ]

  on_result-IsKept :
      (r : Option ℕ) (s : Serving)
      → IsKept s
      → s.writer ≡ fetching
      → IsKept (on_result (result_found s.write_idx s.pipe r) s)
  unfolding on_result
  on_result-IsKept (some ack) s h w = λ i below left.
      ground (arith, h i below (ahead i left), left, get-remove s.write_idx i s.pipe.results)
    where
      ahead : (i : ℕ) → suc s.write_idx ≤ i → first_left s.writer s.write_idx ≤ i
      ahead i left = rw w (omega (arith, left))
  on_result-IsKept none s h w = given_up s.pipe.closed
    where
      given_up : (closed : Bool) → IsKept (on_result (if closed then gave_up else asleep) s)
      given_up true = λ i below left. h i below (rw w (omega (arith, left)))
      given_up false = h

  write_step-IsKept :
      (sent : Bool) (w : Writer) (s : Serving)
      → IsKept s
      → s.writer ≡ w
      → IsKept (write_step sent w s)
  unfolding write_step next_result advance_next close_pipeline write_ack
  write_step-IsKept sent fetching s h w = on_result-IsKept _ s h w
  write_step-IsKept true (holding ack) s h w = λ i below left. h i below (rw w left)
  write_step-IsKept false (holding ack) s h w = λ i below left. h i below (rw w left)
  write_step-IsKept sent written s h w = λ i below left. h i below (rw w left)
  write_step-IsKept sent stopped s h w = h

  act-IsKept : (a : Action) (s : Serving) → IsKept s → IsKept (act limit answer a s)
  unfolding act
  act-IsKept (read sent) s h = read_step-IsKept sent s.reader s h
  act-IsKept hang_up s h = hang_up_step-IsKept s.reader s h
  act-IsKept shut s h = close_conn-IsKept s.reader s h
  act-IsKept (handled i) s h = handler_step-IsKept i (answer i) s h
  act-IsKept (write sent) s h = write_step-IsKept (sent && s.conn_open) s.writer s h refl

  run-IsKept :
      (schedule : List Action) (s : Serving) → IsKept s → IsKept (run limit answer schedule s)
  unfolding run
  run-IsKept [] s h = h
  run-IsKept (a ∷ schedule) s h = run-IsKept schedule (act limit answer a s) (act-IsKept a s h)

  -- The writer's turns that write n answers.
  abbrev pub turns : ℕ → List Action
  turns zero = []
  turns (suc n) = write true ∷ write true ∷ write true ∷ turns n

  abbrev after_turn : ℕ → Serving → Serving
  after_turn ack s = record s {
    wire = s.wire ++ ack ∷ [];
    write_idx = suc s.write_idx;
    pipe = record s.pipe { next = suc s.pipe.next; results = remove s.write_idx s.pipe.results };
  }

  turn_lem :
      (s : Serving) (ack : ℕ) (schedule : List Action)
      → s.writer ≡ fetching
      → s.conn_open ≡ true
      → get s.write_idx s.pipe.results ≡ some ack
      → run limit answer (write true ∷ write true ∷ write true ∷ schedule) s
        ≡ run limit answer schedule (record (after_turn ack s) { writer = fetching })
  unfolding run act write_step next_result on_result write_ack advance_next
  turn_lem s ack schedule w o e = rw (w, e, o) refl

  result_waits :
      (s : Serving) (n : ℕ)
      → IsKept s
      → s.calls ≡ []
      → s.writer ≡ fetching
      → s.idx ≡ s.write_idx + suc n
      → has s.write_idx s.pipe.results ≡ true
  result_waits s n h c w e =
      subst (λ cs. (is_running s.write_idx cs || has s.write_idx s.pipe.results) ≡ true) c
        (h s.write_idx (omega (arith, e)) (rw w (omega arith)))

  turns_drain :
      (n : ℕ) (s : Serving)
      → IsKept s
      → s.calls ≡ []
      → s.writer ≡ fetching
      → s.conn_open ≡ true
      → s.idx ≡ s.write_idx + n
      → (view (run limit answer (turns n) s)).answered ≡ s.idx
  unfolding run
  turns_drain zero s h c w o e = rw w (omega (arith, e))
  turns_drain (suc n) s h c w o e =
      let found = get_of_has s.write_idx s.pipe.results (result_waits s n h c w e) in
      let t = record (after_turn found.0 s) { writer = fetching } in
      rw (turn_lem s found.0 (turns n) w o found.1) (
        turns_drain n t
          (subst IsKept (turn_lem s found.0 [] w o found.1) (run-IsKept (turns 1) s h)) c refl o
          (omega (arith, e)))

  -- When no handler is running, the writer waits for its next result and the connection is not closed,
  -- three turns of the writer for each frame without an answer, in which the writes work, answer every
  -- frame that was taken in.
  pub run-turns :
      (stream : List ℕ) (schedule : List Action) (s : Serving) (n : ℕ)
      → run limit answer schedule (connected stream) ≡ s
      → s.calls ≡ []
      → s.writer ≡ fetching
      → s.conn_open ≡ true
      → s.idx ≡ s.write_idx + n
      → (view (run limit answer (turns n) s)).answered ≡ s.idx
  unfolding connected
  run-turns stream schedule s n reached c w o e =
      turns_drain n s
        (subst IsKept reached
          (run-IsKept schedule (connected stream) (λ i below left. absurd (omega (arith, below)))))
        c w o e
