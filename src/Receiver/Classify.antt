-- ===== src/Receiver/Classify.antt =====
-- internal/receiver/dlq.go: which import errors are permanent, and what a dead letter records.
-- The texts of a dead letter that hold the time of day (its id and its creation time) are left out.
use vm_sync.Base.{ℕ, ◌≡◌, refl, List, [], ◌∷◌, Option, none, some, Bool, true, false, ◌&&◌}
use vm_sync.Base.{
  codes, after_first, before_byte, leading_digits, parse_digits, within_int64, trim_left, leb, ltb,
  if◌then◌else◌, ◌==◌,
}
use vm_sync.Vm.Http.{ImportError, import_http_error, other_error}

pub data Category : Type 0 where
  permanent_error transient_error relay_forward_failure : Category

pub record Class : Type 0 where
  pub permanent : Bool
  pub http_status : ℕ
  pub category : Category

abbrev pub permanent_class : ℕ → Class
permanent_class code = record { permanent = true; http_status = code; category = permanent_error }

abbrev pub transient_class : ℕ → Class
transient_class code = record { permanent = false; http_status = code; category = transient_error }

-- fmt.Sscanf(rest, "%d", &code): leading white space and a plus sign are skipped, digits are read.
-- A number with a minus sign is below 400 and falls to the end of the function, as no number does.
scan_unsigned : List ℕ → Option ℕ
scan_unsigned [] = none
scan_unsigned (c ∷ s) =
    within_int64 (parse_digits (leading_digits (if c == b'+' then s else c ∷ s)))

unfoldable pub scan_code : List ℕ → Option ℕ
unfolding scan_unsigned
scan_code rest = scan_unsigned (trim_left rest)

-- The branch for errors of the old text format.
unfoldable pub classify_text : List ℕ → Class
classify_text msg = elim (after_first (codes "write http ") msg) [
  | none ↦ transient_class 0
  | some rest ↦ elim (scan_code rest) [
    | none ↦ transient_class 0
    | some code ↦
        if leb 400 code && ltb code 500
        then permanent_class code
        else if leb 500 code
        then transient_class code
        else transient_class 0
  ]
]

unfoldable pub classify_write_error : ImportError → Class
classify_write_error (import_http_error status body) =
    if leb 400 status && ltb status 500 then permanent_class status else transient_class status
classify_write_error (other_error msg) = classify_text msg

-- metricOf: the name in the first line.
unfoldable pub metric_of : List (List ℕ) → List ℕ
metric_of [] = []
metric_of (line ∷ lines) = elim (after_first (codes "{\"__name__\":\"") line) [
  | none ↦ codes "unknown"
  | some rest ↦ elim (before_byte b'"' rest) [ some name ↦ name | none ↦ codes "unknown" ]
]

pub data Zone : Type 0 where
  zone_i zone_ii : Zone

-- DLQMeta without the text of the error; `payload` is kept as it is, before base64.
pub record DeadLetter : Type 0 where
  pub seq_num : ℕ
  pub retry_attempts : ℕ
  pub category : Category
  pub http_status : ℕ
  pub source_zone : Zone
  pub measurement : List ℕ
  pub point_count : ℕ
  pub uncompressed_bytes : ℕ
  pub payload : List ℕ

-- writeDLQJSON: no directory name is an error of MkdirAll; `io` says whether the file system
-- accepts the file. A file is added under a new name, and none is replaced.
unfoldable pub write_dlq_json :
    Bool → Bool → DeadLetter → List DeadLetter → Option (List DeadLetter)
write_dlq_json has_dir io letter dlq = if has_dir && io then some (letter ∷ dlq) else none

old_format :
    classify_write_error (other_error (codes "influx: write http 400: bad")) ≡ permanent_class 400
unfolding classify_write_error classify_text after_first scan_code trim_left leading_digits
    parse_digits within_int64
old_format = refl
