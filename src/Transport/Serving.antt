-- ===== src/Transport/Serving.antt =====
-- handleConn of internal/transport/tcp_server.go: the read loop, the goroutines that run the handler,
-- and the goroutine that writes the acknowledgements. Between two waits a thread makes one step, and
-- a schedule, a list of actions, says which thread goes on.
use vm_sync.Base.{ℕ, suc, Bool, true, false, ◌||◌, ◌&&◌, List, [], ◌∷◌, ◌++◌}
use vm_sync.Base.{length, take, drop, ltb, ◌==◌, if◌then◌else◌}
use vm_sync.Protocol.Frame.{
  header_size, type_data, type_data_zstd, ack_fail, Header, Result, ok, err,
}
use vm_sync.Protocol.Codec.{parse_header}
use vm_sync.Transport.Pipeline.{
  ConnPipeline, new_conn_pipeline, set_result, Wait, ready, gave_up, asleep, next_result,
  close_pipeline, advance_next, await_inflight,
}

-- NewServer's MaxInflight: `<= 0` stands for 8.
abbrev pub default_max_inflight : ℕ → ℕ
default_max_inflight n = if n == 0 then 8 else n

-- A handler call that has not returned: what the goroutine was started with.
pub record Call : Type 0 where
  pub index : ℕ
  pub frame_idx : ℕ
  pub frame_bytes : List ℕ

-- The read loop reads, or stands before awaitInflight with a frame, or has returned.
pub data Reader : Type 0 where
  reading : Reader
  admitting : (frame_idx : ℕ) (frame_bytes : List ℕ) → Reader
  returned : Reader

-- The writer stands before nextResult, or holds a byte to write, or has written it, or has ended.
pub data Writer : Type 0 where
  fetching : Writer
  holding : (ack : ℕ) → Writer
  written : Writer
  stopped : Writer

-- `conn_open` says whether handleConn has not closed the connection yet.
-- `idx` and `data_idx` are the read loop's, `write_idx` is the writer's idx; `stream` is what is
-- still to be read from the connection, and `wire` what was written to it, oldest first.
pub record Serving : Type 0 where
  pub stream : List ℕ
  pub wire : List ℕ
  pub reader : Reader
  pub idx : ℕ
  pub data_idx : ℕ
  pub calls : List Call
  pub writer : Writer
  pub write_idx : ℕ
  pub pipe : ConnPipeline
  pub conn_open : Bool

unfoldable pub connected : List ℕ → Serving
connected stream = record {
  stream = stream;
  wire = [];
  reader = reading;
  idx = 0;
  data_idx = 0;
  calls = [];
  writer = fetching;
  write_idx = 0;
  pipe = new_conn_pipeline;
  conn_open = true;
}

-- What the read loop gets from the connection: the end or an error, a header that does not parse,
-- or a whole frame with what follows it.
pub data Received : Type 0 where
  ended : Received
  bad_head : Received
  received : (head : Header) (frame_bytes rest : List ℕ) → Received

abbrev pub with_head : List ℕ → List ℕ → Result Header → Received
with_head head_buf rest (err e) = bad_head
with_head head_buf rest (ok h) =
    if ltb (length rest) h.length
    then ended
    else received h (head_buf ++ take h.length rest) (drop h.length rest)

-- The two calls of io.ReadFull, with ParseHeader between them.
unfoldable pub read_next : List ℕ → Received
read_next stream =
    if ltb (length stream) header_size
    then ended
    else with_head (take header_size stream) (drop header_size stream)
        (parse_header (take header_size stream))

-- `return` with the first of the deferred calls, that of pipe.close.
unfoldable pub leave : Serving → Serving
leave s = record s { reader = returned; pipe = close_pipeline s.pipe }

-- The deferred conn.Close, which runs behind pipe.close: no write works from then on.
abbrev pub close_conn : Reader → Serving → Serving
close_conn reading s = s
close_conn (admitting frame_idx frame_bytes) s = s
close_conn returned s = record s { conn_open = false }

-- writeAck of the read loop; `sent` says whether the write works.
unfoldable pub write_ack : Bool → ℕ → Serving → Serving
write_ack sent ack s = if sent then record s { wire = s.wire ++ ack ∷ [] } else s

abbrev pub counts_as_data : Header → Bool
counts_as_data h = h.type == type_data || h.type == type_data_zstd

-- The frame gets its number among the data frames.
unfoldable pub take_frame : Header → List ℕ → List ℕ → Serving → Serving
take_frame h frame_bytes rest s =
    if counts_as_data h
    then record s {
      stream = rest;
      reader = admitting s.data_idx frame_bytes;
      data_idx = suc s.data_idx;
    }
    else record s { stream = rest; reader = admitting 0 frame_bytes }

unfoldable pub on_received : Bool → Received → Serving → Serving
on_received sent ended s = leave s
on_received sent bad_head s = leave (write_ack sent ack_fail s)
on_received sent (received h frame_bytes rest) s = take_frame h frame_bytes rest s

unfoldable pub start_call : ℕ → List ℕ → Serving → Serving
start_call frame_idx frame_bytes s = record s {
  reader = reading;
  calls = record { index = s.idx; frame_idx = frame_idx; frame_bytes = frame_bytes } ∷ s.calls;
  idx = suc s.idx;
}

unfoldable pub on_admission : ℕ → List ℕ → Wait (Unit {0}) → Serving → Serving
on_admission frame_idx frame_bytes (ready u) s = start_call frame_idx frame_bytes s
on_admission frame_idx frame_bytes gave_up s = leave s
on_admission frame_idx frame_bytes asleep s = s

unfoldable pub read_step : ℕ → Bool → Reader → Serving → Serving
read_step limit sent reading s = on_received sent (read_next s.stream) s
read_step limit sent (admitting frame_idx frame_bytes) s =
    on_admission frame_idx frame_bytes (await_inflight s.idx limit s.pipe) s
read_step limit sent returned s = s

abbrev pub is_running : ℕ → List Call → Bool
is_running i [] = false
is_running i (c ∷ cs) = c.index == i || is_running i cs

abbrev pub end_call : ℕ → List Call → List Call
end_call i [] = []
end_call i (c ∷ cs) = let rest = end_call i cs in if c.index == i then rest else c ∷ rest

-- The handler of the frame with this index returns.
unfoldable pub handler_step : ℕ → ℕ → Serving → Serving
handler_step i ack s =
    if is_running i s.calls
    then record s { calls = end_call i s.calls; pipe = set_result i ack s.pipe }
    else s

unfoldable pub on_result : Wait (ℕ × ConnPipeline) → Serving → Serving
on_result (ready (ack, p)) s = record s { writer = holding ack; pipe = p }
on_result gave_up s = record s { writer = stopped }
on_result asleep s = s

unfoldable pub write_step : Bool → Writer → Serving → Serving
write_step sent fetching s = on_result (next_result s.write_idx s.pipe) s
write_step true (holding ack) s = record (write_ack true ack s) { writer = written }
write_step false (holding ack) s = record s { writer = stopped; pipe = close_pipeline s.pipe }
write_step sent written s = record s {
  writer = fetching;
  write_idx = suc s.write_idx;
  pipe = advance_next s.pipe;
}
write_step sent stopped s = s

-- A write works if `sent` says so and the connection is open. `hang_up`: a deadline passes, or the context ends, while the read loop reads.
pub data Action : Type 0 where
  read : (sent : Bool) → Action
  hang_up : Action
  shut : Action
  handled : (i : ℕ) → Action
  write : (sent : Bool) → Action

abbrev pub hang_up_step : Reader → Serving → Serving
hang_up_step reading s = leave s
hang_up_step (admitting frame_idx frame_bytes) s = s
hang_up_step returned s = s

-- `answer i` is the byte that the handler returns for the frame that arrived as number i.
module _ (limit : ℕ) (answer : ℕ → ℕ) where
  unfoldable pub act : Action → Serving → Serving
  act (read sent) s = read_step limit sent s.reader s
  act hang_up s = hang_up_step s.reader s
  act shut s = close_conn s.reader s
  act (handled i) s = handler_step i (answer i) s
  act (write sent) s = write_step (sent && s.conn_open) s.writer s

  unfoldable pub run : List Action → Serving → Serving
  run [] s = s
  run (a ∷ schedule) s = run schedule (act a s)
