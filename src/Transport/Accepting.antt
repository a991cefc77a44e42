-- ===== src/Transport/Accepting.antt =====
-- Listen, Serve and Close of internal/transport/tcp_server.go: the loop that accepts connections, the
-- goroutines that serve them, and the table of the connections. What happens comes as a list of
-- events; the counting of the table and the storing of a connection are one step.
use vm_sync.Base.{
  ℕ, suc, ◌%◌, ◌^◌, Bool, true, false, List, [], ◌∷◌, if◌then◌else◌, ltb, contains, delete,
}
use vm_sync.Base.Maps

-- The loop stands before Accept, or has a connection from it, or has returned.
pub data Acceptor : Type 0 where
  accepting : Acceptor
  accepted : Acceptor
  left : Acceptor

-- `conns` has for the id of a connection whether it is open still; `handlers` are the ids that the
-- goroutines with handleConn were started with, as long as they run.
pub record Server : Type 0 where
  pub listening : Bool
  pub cancelled : Bool
  pub conn_seq : ℕ
  pub conns : List (ℕ × Bool)
  pub handlers : List ℕ
  pub acceptor : Acceptor

-- NewServer with Listen and the start of Serve.
abbrev pub new_server : Server
new_server = record {
  listening = true;
  cancelled = false;
  conn_seq = 0;
  conns = [];
  handlers = [];
  acceptor = accepting;
}

-- The count over the table, which stops behind the limit.
abbrev pub count_up_to : ℕ → ℕ → List (ℕ × Bool) → ℕ
count_up_to max_conns cur [] = cur
count_up_to max_conns cur (c ∷ conns) =
    let rest = count_up_to max_conns (suc cur) conns in
    if ltb (suc cur) (suc max_conns) then rest else suc cur

-- Whether the limit is reached; 0 stands for what is not positive and is no limit.
abbrev pub at_limit : ℕ → List (ℕ × Bool) → Bool
at_limit max_conns conns =
    if ltb 0 max_conns
    then if ltb (count_up_to max_conns 0 conns) max_conns then false else true
    else false

-- An id, its place in the table, and the goroutine.
unfoldable pub store : Server → Server
unfolding Maps.put
store s =
    let id = suc s.conn_seq % 2 ^ 64 in
    record s {
      conn_seq = id;
      conns = Maps.put id true s.conns;
      handlers = id ∷ s.handlers;
      acceptor = accepting;
    }

unfoldable pub admit : ℕ → Acceptor → Server → Server
unfolding store
admit max_conns accepted s =
    if at_limit max_conns s.conns then record s { acceptor = accepting } else store s
admit max_conns accepting s = s
admit max_conns left s = s

-- Accept returns; on a closed listener it returns an error. The sleep behind an error is no event.
unfoldable pub accept_step : Bool → Acceptor → Server → Server
accept_step works accepting s =
    if works
    then if s.listening
      then record s { acceptor = accepted }
      else record s { acceptor = if s.cancelled then left else accepting }
    else record s { acceptor = if s.cancelled then left else accepting }
accept_step works accepted s = s
accept_step works left s = s

-- The deferred calls of handleConn.
unfoldable pub conn_ends : ℕ → Server → Server
unfolding Maps.remove
conn_ends id s =
    if contains id s.handlers
    then record s { conns = Maps.remove id s.conns; handlers = delete id s.handlers }
    else s

abbrev pub all_closed : List (ℕ × Bool) → List (ℕ × Bool)
all_closed [] = []
all_closed ((id, is_open) ∷ conns) = (id, false) ∷ all_closed conns

-- Close, also before Listen.
unfoldable pub close_server : Server → Server
close_server s = record s { listening = false; conns = all_closed s.conns }

pub data Event : Type 0 where
  accept_returns : (works : Bool) → Event
  admits : Event
  handler_returns : (id : ℕ) → Event
  closes : Event
  cancels : Event

unfoldable pub serve_step : ℕ → Event → Server → Server
unfolding accept_step admit conn_ends close_server
serve_step max_conns (accept_returns works) s = accept_step works s.acceptor s
serve_step max_conns admits s = admit max_conns s.acceptor s
serve_step max_conns (handler_returns id) s = conn_ends id s
serve_step max_conns closes s = close_server s
serve_step max_conns cancels s = record s { cancelled = true }

unfoldable pub serve : ℕ → List Event → Server → Server
unfolding serve_step
serve max_conns [] s = s
serve max_conns (e ∷ es) s = serve max_conns es (serve_step max_conns e s)
