-- ===== src/Wal/Recovery/Starting.antt =====
-- scanSegments of internal/wal/wal.go: the checkpoint where the log starts at its first file.
use vm_sync.Base.{
  ℕ, ◌≤◌, ◌<◌, ◌≡◌, refl, ap, ◌∙◌, arith, List, [], ◌∷◌, ◌++◌, All, false, if◌then◌else◌, ltb,
  contains, Bool-cases, inl, inr,
}
use vm_sync.Wal.Scan.{FrameIndex}
use vm_sync.Wal.Records.{pending_from}
use vm_sync.Wal.State.{Checkpoint, Op, ◌>>◌, modify}
use vm_sync.Wal.Open.{readable_files, index_files, start_from}
use vm_sync.Wal.Recovery.Segments.{Segment, IsSegment, numbers, acked_in, entries_in, entries}
use vm_sync.Wal.Recovery.Listing.{outside}

-- The checkpoint where the log starts at its first file.
abbrev pub start_at : ℕ → Checkpoint → Checkpoint
start_at first cp =
    if ltb cp.seg_start first then record cp { seg_start = first; acked_bytes = 0 } else cp

acked_in-start_at :
    (first k : ℕ) (cp : Checkpoint) → first ≤ k → acked_in (start_at first cp) k ≡ acked_in cp k
acked_in-start_at first k cp h = elim (Bool-cases (ltb cp.seg_start first)) [
  | inl gone ↦ rw gone (ground (arith, h, gone))
  | inr there ↦ rw there refl
]

module _ (cp cp' : Checkpoint) where
  abbrev Agrees : ℕ → Type 0
  Agrees k = acked_in cp' k ≡ acked_in cp k

  pub entries_agree : (ss : List Segment) → All Agrees (numbers ss) → entries cp' ss ≡ entries cp ss
  entries_agree [] a = refl
  entries_agree (s ∷ ss) a =
      ap (λ (n : ℕ). pending_from s.number n 0 s.frames ++ entries cp' ss) a.0
      ∙ ap (λ (l : List FrameIndex). entries_in cp s ++ l) (entries_agree ss a.1)

  pub segments_agree :
      (ss : List Segment) → All Agrees (numbers ss) → All (IsSegment cp) ss → All (IsSegment cp') ss
  segments_agree [] a h = tt
  segments_agree (s ∷ ss) a h = (
    record { framed = h.0.framed; short = h.0.short; acked = omega (arith, a.0, h.0.acked) },
    segments_agree ss a.1 h.1,
  )

pub all_agree :
    (first : ℕ) (cp : Checkpoint) (ks : List ℕ)
    → All (λ k. first ≤ k) ks
    → All (Agrees cp (start_at first cp)) ks
all_agree first cp [] h = tt
all_agree first cp (k ∷ ks) h = (acked_in-start_at first k cp h.0, all_agree first cp ks h.1)

pub all_outside :
    (start : ℕ) (ks js : List ℕ)
    → All (λ k. k < start) ks
    → All (λ j. start ≤ j) js
    → All (λ k. contains k js ≡ false) ks
all_outside start [] js h a = tt
all_outside start (k ∷ ks) js h a = (outside start k js h.0 a, all_outside start ks js h.1 a)

-- What follows the removal of the stale files, by the list of the others.
abbrev pub over : List ℕ → Op (Unit {0})
over alive = elim alive [
  | [] ↦ modify λ v. record v { cp = record v.cp { acked_bytes = 0 } }
  | first ∷ rest ↦ (do
    modify (start_from first)
    index_files readable_files (first ∷ rest)
    modify λ v. record v { acked = 0 })
]

pub start_at-kept :
    (cp : Checkpoint) (first : ℕ)
    → ((start_at first cp).next_seq ≡ cp.next_seq) × ((start_at first cp).cursor_ns ≡ cp.cursor_ns)
start_at-kept cp first = ground arith
