-- ===== src/Wal/State.antt =====
-- The state of internal/wal/wal.go and internal/wal/cursor.go: the WAL struct, what the operations
-- leave on the disk, and the ways in which an operation ends.
use vm_sync.Base.{
  ℕ, ◌+◌, ◌*◌, ◌^◌, List, [], ◌∷◌, Bool, true, false, Option, none, some, if◌then◌else◌,
}
use vm_sync.Base.{◌++◌, length, take, drop, leb}
use vm_sync.Base.Int.{ℤ, pos, negsuc}
use vm_sync.Base.Maps
use vm_sync.Wal.Scan.{FrameIndex}

abbrev pub default_segment_size : ℕ
default_segment_size = 64 * 2 ^ 20

abbrev pub default_dlq_max_size : ℕ
default_dlq_max_size = 2 ^ 30

-- time.Second
abbrev pub checkpoint_interval : ℕ
checkpoint_interval = 10 ^ 9

-- BackfillNoneNs and BackfillAllNs
abbrev pub backfill_none_ns : ℤ
backfill_none_ns = pos 0

abbrev pub backfill_all_ns : ℤ
backfill_all_ns = negsuc 0

pub record Checkpoint : Type 0 where
  pub cursor_ns : ℤ
  pub next_seq : ℕ
  pub seg_start : ℕ
  pub acked_bytes : ℕ
  pub backfill_ns : ℤ

pub record FrameData : Type 0 where
  pub seq : ℕ
  pub bytes : List ℕ

-- The directory: the segment files, the checkpoint with the question whether it has the field
-- backfill_ns, and the two files of each dead letter by its number. `faults` tells for each coming
-- call of the system whether it fails, and how many bytes a write that fails has written; when it
-- runs out, every call succeeds.
pub record Disk : Type 0 where
  pub files : List (ℕ × List ℕ)
  pub checkpoint : Option (Checkpoint × Bool)
  pub dlq_frames : List (ℕ × List ℕ)
  pub dlq_reasons : List (ℕ × List ℕ)
  pub faults : List (Option ℕ)

-- curFile: nil, a file that is open, or one that was closed and is still held.
pub data Handle : Type 0 where
  no_file : Handle
  opened : Handle
  closed : Handle

abbrev pub is_open : Handle → Bool
is_open no_file = false
is_open opened = true
is_open closed = false

-- `last_cp` is none for the zero time; `notified` is the one place of the channel `notify`.
pub record Wal : Type 0 where
  pub seg_size : ℕ
  pub dlq_max : ℕ
  pub cp : Checkpoint
  pub index : List FrameIndex
  pub acked : ℕ
  pub cur_seg : ℕ
  pub cur_file : Handle
  pub cur_offset : ℕ
  pub last_cp : Option ℕ
  pub notified : Bool
  pub legacy_checkpoint : Bool
  pub locked : Bool
  pub disk : Disk

-- An operation returns, or returns an error, with the state that it leaves; or it panics, or it
-- never returns.
pub data Step {ℓ} (S : Type 0) (A : Type ℓ) : Type ℓ where
  done : A → S → Step S A
  failed : S → Step S A
  panicked : Step S A
  endless : Step S A

-- What an operation does to the log.
abbrev pub Op {ℓ} : Type ℓ → Type ℓ
Op A = Wal → Step Wal A

abbrev pub and_then {ℓ κ} : {A : Type ℓ} {B : Type κ} → Step Wal A → (A → Op B) → Step Wal B
and_then (done a w) f = f a w
and_then (failed w) f = failed w
and_then panicked f = panicked
and_then endless f = endless

infixl 5 ◌>>=◌ ◌>>◌
abbrev pub ◌>>=◌ {ℓ κ} : {A : Type ℓ} {B : Type κ} → Op A → (A → Op B) → Op B
(m >>= f) w = and_then (m w) f

abbrev pub ◌>>◌ {ℓ} : {B : Type ℓ} → Op (Unit {0}) → Op B → Op B
m >> k = m >>= λ _. k

abbrev pub return {ℓ} : {A : Type ℓ} → A → Op A
return a w = done a w

abbrev pub fail {ℓ} : {A : Type ℓ} → Op A
fail w = failed w

abbrev pub fetch : Op Wal
fetch w = done w w

abbrev pub modify : (Wal → Wal) → Op (Unit {0})
modify f w = done tt (f w)

-- The bytes of a segment file; a file that is not there has none.
unfoldable pub contents : ℕ → List (ℕ × List ℕ) → List ℕ
contents seg files = elim (Maps.get seg files) [ some b ↦ b | none ↦ [] ]

abbrev pub with_faults : List (Option ℕ) → Wal → Wal
with_faults fs w = record w { disk = record w.disk { faults = fs } }

abbrev pub with_files : List (ℕ × List ℕ) → Wal → Wal
with_files files w = record w { disk = record w.disk { files = files } }

-- One of the coming calls of the system fails.
abbrev pub has_fault : List (Option ℕ) → Bool
has_fault [] = false
has_fault (none ∷ fs) = has_fault fs
has_fault (some n ∷ fs) = true

-- A call of the system that changes nothing here.
unfoldable pub call_with : List (Option ℕ) → Op (Unit {0})
call_with [] w = done tt w
call_with (none ∷ fs) w = done tt (with_faults fs w)
call_with (some n ∷ fs) w = failed (with_faults fs w)

unfoldable pub call : Op (Unit {0})
unfolding call_with
call w = call_with w.disk.faults w

-- curFile.Write: the file is open for appending, so the bytes go to its end.
abbrev pub append_bytes : List ℕ → Wal → Wal
append_bytes bs w =
    with_files (Maps.put w.cur_seg (contents w.cur_seg w.disk.files ++ bs) w.disk.files) w

unfoldable pub write_with : List (Option ℕ) → List ℕ → Op (Unit {0})
write_with [] bs w = done tt (append_bytes bs w)
write_with (none ∷ fs) bs w = done tt (append_bytes bs (with_faults fs w))
write_with (some n ∷ fs) bs w = failed (append_bytes (take n bs) (with_faults fs w))

unfoldable pub write : List ℕ → Op (Unit {0})
unfolding write_with
write bs w = if is_open w.cur_file then write_with w.disk.faults bs w else failed w

-- curFile.Sync
unfoldable pub sync : Op (Unit {0})
unfolding call
sync w = if is_open w.cur_file then call w else failed w

-- curFile.Close: a closed file refuses, and the file is closed even when an error is reported.
unfoldable pub close_file : Op (Unit {0})
unfolding call
close_file w = if is_open w.cur_file then call (record w { cur_file = closed }) else failed w

-- ReadAt: all the bytes, or the error io.EOF.
abbrev pub read_bytes : ℕ → ℕ → ℕ → Op (List ℕ)
read_bytes seg off n w =
    let bytes = contents seg w.disk.files in
    if leb (off + n) (length bytes) then done (take n (drop off bytes)) w else failed w

-- The frames that are not acknowledged.
abbrev pub pending : Wal → List FrameIndex
pending w = drop w.acked w.index
