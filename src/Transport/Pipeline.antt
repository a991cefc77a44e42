-- ===== src/Transport/Pipeline.antt =====
-- connPipeline of internal/transport/tcp_server.go: the results of the handlers of a connection, put
-- back into the order of arrival.
use vm_sync.Base.{ℕ, suc, ◌+◌, Bool, true, false, List, [], Option, none, some, leb, if◌then◌else◌}
use vm_sync.Base.Maps.{get, put, remove}

-- `next` counts from 0 by one; the model leaves out the wrap after 2^63 frames of a connection.
pub record ConnPipeline : Type 0 where
  pub next : ℕ
  pub results : List (ℕ × ℕ)
  pub closed : Bool

unfoldable pub new_conn_pipeline : ConnPipeline
new_conn_pipeline = record { next = 0; results = []; closed = false }

unfoldable pub set_result : ℕ → ℕ → ConnPipeline → ConnPipeline
set_result idx ack p = record p { results = put idx ack p.results }

-- One round of a loop around cond.Wait under the lock: the loop returns, or sleeps until the next
-- broadcast.
pub data Wait {ℓ} (A : Type ℓ) : Type ℓ where
  ready : A → Wait A
  gave_up : Wait A
  asleep : Wait A

abbrev pub result_found : ℕ → ConnPipeline → Option ℕ → Wait (ℕ × ConnPipeline)
result_found idx p (some ack) = ready (ack, record p { results = remove idx p.results })
result_found idx p none = if p.closed then gave_up else asleep

unfoldable pub next_result : ℕ → ConnPipeline → Wait (ℕ × ConnPipeline)
next_result idx p = result_found idx p (get idx p.results)

unfoldable pub close_pipeline : ConnPipeline → ConnPipeline
close_pipeline p = record p { closed = true }

unfoldable pub advance_next : ConnPipeline → ConnPipeline
advance_next p = record p { next = suc p.next }

-- `idx - next >= max`, with the subtraction moved to the other side.
unfoldable pub await_inflight : ℕ → ℕ → ConnPipeline → Wait (Unit {0})
await_inflight idx limit p =
    if leb (p.next + limit) idx then (if p.closed then gave_up else asleep) else ready tt
