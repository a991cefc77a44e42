-- ===== src/Examples/Links.antt =====
-- Runs of internal/transport and of the sliding window of internal/sender.
use vm_sync.Base.{
  ℕ, ◌≡◌, ◌⊎◌, refl, arith, List, [], ◌∷◌, ◌++◌, true, false, none, some, All, if◌then◌else◌, ◌==◌,
}
use vm_sync.Protocol.Frame.{type_heartbeat, type_data}
use vm_sync.Protocol.Codec.{encode_raw, parse_header, check_header, read_header}
use vm_sync.Base.Maps.{put, remove}
use vm_sync.Protocol.Bytes.{be_loop}
use vm_sync.Transport.Pipeline.{await_inflight, new_conn_pipeline, set_result, close_pipeline}
use vm_sync.Transport.Serving.{
  bad_head, reading, Action, read, handled, write, Serving, fetching, connected, run, act,
  handler_step, read_step, on_received, read_next, take_frame, on_admission, leave, start_call,
}
use vm_sync.Transport.Serial.{answers, idle, Serves, IsReplied}
use vm_sync.Transport.View.{view}
use vm_sync.Transport.Refines.{run-refines}
use vm_sync.Transport.Replies.{run-IsReplied}
use vm_sync.Transport.Drained.{turns, run-turns}
use vm_sync.Transport.Arrivals.{all_arrivals, IsCallOf}
use vm_sync.Transport.Numbered.{run-arrivals}
use vm_sync.Transport.Accepting.{
  Event, accept_returns, admits, handler_returns, closes, cancels, left, new_server, serve,
  serve_step, accept_step, admit, store, conn_ends, close_server,
}
use vm_sync.Transport.Table.{IsLimited}
use vm_sync.Transport.Limited.{serve-IsLimited}
use vm_sync.Wal.State.{FrameData}
use vm_sync.Sender.Backoff.{SenderConfig}
use vm_sync.Sender.Pipeline.{Sending, run_pipeline, go_back_n}
use vm_sync.Sender.Delivers.{Delivers, run_pipeline-Delivers}
use vm_sync.Sender.Releases.{Releases, run_pipeline-Releases}
use vm_sync.Sender.Rounds.{Ends, run_pipeline-Ends}
use vm_sync.Sender.Unpaced.{SleptFor, go_back_n-SleptFor}
use vm_sync.Examples.Log.{two_frames, entry_5, entry_6}
use vm_sync.Examples.Sending.{sender_config}

-- A heartbeat, a data frame, and bytes that are no frame.
abbrev stream : List ℕ
stream = encode_raw type_heartbeat 0 [] 0 ++ (encode_raw type_data 7 (9 ∷ []) 1 ++ 1 ∷ 2 ∷ [])

abbrev answer : ℕ → ℕ
answer i = if i == 0 then 255 else 0

-- Both frames are read and admitted, and the second handler returns first.
abbrev both_taken : List Action
both_taken = read true ∷ read true ∷ read true ∷ read true ∷ []

abbrev both_handled : List Action
both_handled = both_taken ++ handled 1 ∷ handled 0 ∷ []

abbrev schedule : List Action
schedule = both_handled ++ write true ∷ write true ∷ write true ∷ read true ∷ []

run-refines_example : Serves 2 answer idle (view (run 2 answer schedule (connected stream)))
run-refines_example = run-refines 2 answer stream schedule

run-IsReplied_example :
    IsReplied 2 answer (view (run 2 answer schedule (connected stream)))
    × (((run 2 answer schedule (connected stream)).wire
          ≡ answers 2 answer (view (run 2 answer schedule (connected stream))).answered)
        ⊎ (read_next (run 2 answer schedule (connected stream)).stream ≡ bad_head))
run-IsReplied_example = run-IsReplied 2 answer stream schedule

-- One heartbeat, whose handler has returned.
abbrev beat : List ℕ
beat = 0x50 ∷ 0x57 ∷ 1 ∷ 2 ∷ 0 ∷ 0 ∷ 0 ∷ 0 ∷ 0 ∷ 0 ∷ 0 ∷ 0 ∷ 0 ∷ 0 ∷ 0 ∷ 0 ∷ 0 ∷ 0 ∷ 0 ∷ 0 ∷ []

abbrev beat_handled : List Action
beat_handled = read true ∷ read true ∷ handled 0 ∷ []

abbrev beat_kept : Serving
beat_kept = record {
  stream = [];
  wire = [];
  reader = reading;
  idx = 1;
  data_idx = 0;
  calls = [];
  writer = fetching;
  write_idx = 0;
  pipe = record { next = 0; results = (0, 255) ∷ []; closed = false };
  conn_open = true;
}

run-turns_example : (view (run 2 answer (turns 2 answer 1) beat_kept)).answered ≡ 1
unfolding run act handler_step read_step connected on_received read_next parse_header check_header
    read_header be_loop take_frame on_admission await_inflight put remove new_conn_pipeline
    set_result leave start_call close_pipeline
run-turns_example = run-turns 2 answer beat beat_handled beat_kept 1 refl refl refl refl refl

run-arrivals_example :
    All (IsCallOf (all_arrivals stream)) (run 2 answer both_taken (connected stream)).calls
run-arrivals_example = run-arrivals 2 answer stream both_taken

abbrev pipelined : SenderConfig
pipelined = record sender_config { pipeline = 2 }

abbrev frame_5 : FrameData
frame_5 = record { seq = 5; bytes = 1 ∷ 2 ∷ 3 ∷ [] }

-- The connection is up; the frames are written, the first in two parts, and answered by 0xff and 0x00;
-- the next dial fails.
abbrev sending : Sending
sending = record {
  wal = two_frames;
  client = record {
    conn = some (record { sent = []; read = 0 });
    net = some 2 ∷ some 1 ∷ some 255 ∷ some 0 ∷ none ∷ [];
  };
  retry_count = 0;
  slept = 0;
  answers = [];
}

run_pipeline-Delivers_example : Delivers (run_pipeline 9 pipelined (λ n. n) frame_5 sending)
run_pipeline-Delivers_example =
    run_pipeline-Delivers 9 pipelined (λ n. n) frame_5 sending entry_5 (entry_6 ∷ [])
      (refl, (omega arith, (omega arith, tt))) tt (refl, omega arith)

run_pipeline-Releases_example :
    Releases (entry_5 ∷ entry_6 ∷ []) (run_pipeline 9 pipelined (λ n. n) frame_5 sending)
run_pipeline-Releases_example =
    run_pipeline-Releases 9 pipelined (λ n. n) frame_5 sending entry_5 (entry_6 ∷ [])
      (refl, (omega arith, (omega arith, tt)))

run_pipeline-Ends_example : Ends (run_pipeline 9 pipelined (λ n. n) frame_5 sending)
run_pipeline-Ends_example = run_pipeline-Ends 9 pipelined (λ n. n) frame_5 sending (omega arith)

go_back_n-SleptFor_example :
    SleptFor frame_5 0 (go_back_n 9 pipelined (λ n. n) (frame_5 ∷ []) sending)
go_back_n-SleptFor_example = go_back_n-SleptFor 9 pipelined (λ n. n) frame_5 sending

-- Two connections are taken and the third is turned away; when the first has ended there is room again.
-- The server is closed while a connection is under way, and the loop ends when the context has.
abbrev visits : List Event
visits =
    accept_returns true
    ∷ admits
    ∷ accept_returns true
    ∷ admits
    ∷ accept_returns true
    ∷ admits
    ∷ handler_returns 1
    ∷ accept_returns true
    ∷ closes
    ∷ admits
    ∷ accept_returns true
    ∷ cancels
    ∷ accept_returns true
    ∷ []

serve-IsLimited_example : IsLimited 2 (serve 2 visits new_server)
serve-IsLimited_example = serve-IsLimited 2 visits (omega arith)

two_at_most : serve 2 visits new_server ≡ record {
  listening = false;
  cancelled = true;
  conn_seq = 3;
  conns = (3, true) ∷ (2, false) ∷ [];
  handlers = 3 ∷ 2 ∷ [];
  acceptor = left;
}
unfolding serve serve_step accept_step admit store conn_ends close_server put remove
two_at_most = refl
