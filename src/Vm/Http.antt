-- ===== src/Vm/Http.antt =====
-- internal/vm/client.go: the requests, as functions of what the server answers.
use vm_sync.Base.{ℕ, ◌*◌, ◌^◌, Bool, true, false, ◌||◌, not, List, Option, none, some}
use vm_sync.Base.{length, ltb, ◌==◌, if◌then◌else◌}

-- How a request ends: no response, or a status with a body whose reading may fail.
pub data Outcome : Type 0 where
  no_response : List ℕ → Outcome
  responded : ℕ → List ℕ → Outcome
  body_broken : ℕ → List ℕ → Outcome

-- The error of an import: *ImportHTTPError, or any other with its text.
pub data ImportError : Type 0 where
  import_http_error : ℕ → List ℕ → ImportError
  other_error : List ℕ → ImportError

-- StatusNoContent and StatusOK
abbrev is_accepted : ℕ → Bool
is_accepted status = status == 204 || status == 200

abbrev import_answer : Outcome → Option ImportError
import_answer (no_response text) = some (other_error text)
import_answer (responded status body) =
    if is_accepted status then none else some (import_http_error status body)
import_answer (body_broken status body) =
    if is_accepted status then none else some (import_http_error status body)

-- `none` is success. An empty payload is not sent.
unfoldable pub import_write : List ℕ → Outcome → Option ImportError
import_write raw outcome = if length raw == 0 then none else import_answer outcome

-- 512 << 20
abbrev pub max_export_resp_bytes : ℕ
max_export_resp_bytes = 512 * 2 ^ 20

pub data ExportError : Type 0 where
  request_failed read_failed response_too_large bad_status : ExportError

pub data Exported : Type 0 where
  body_of : List ℕ → Exported
  failed : ExportError → Exported

-- ExportRange: the body is read up to one byte more than the limit, and checked before the status.
unfoldable pub export_range : ℕ → Outcome → Exported
export_range limit (no_response text) = failed request_failed
export_range limit (body_broken status body) =
    if ltb limit (length body) then failed response_too_large else failed read_failed
export_range limit (responded status body) =
    if ltb limit (length body)
    then failed response_too_large
    else if status == 200
    then body_of body
    else failed bad_status

-- ForceFlush: any status but 200 is a failure.
unfoldable pub force_flush : Outcome → Bool
force_flush (no_response text) = false
force_flush (body_broken status body) = status == 200
force_flush (responded status body) = status == 200

-- ExportHasData: `none` is an error, otherwise whether a first byte was read.
unfoldable pub export_has_data : Outcome → Option Bool
export_has_data (no_response text) = none
export_has_data (responded status body) =
    if status == 200 then some (not (length body == 0)) else none
export_has_data (body_broken status body) =
    if status == 200 then (if length body == 0 then none else some true) else none
