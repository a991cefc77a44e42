-- ===== src/Wal/Recovery/Listing.antt =====
-- scanSegments of internal/wal/wal.go: the list of the segment files, what is removed of it, and the
-- files that are scanned.
use vm_sync.Base.{
  true, ℕ, ◌≤◌, ◌<◌, ◌≡◌, refl, sym, ◌∙◌, arith, List, [], ◌∷◌, ◌++◌, append-nil, append_assoc, All,
  Option, false, ltb, leb, Distinct, contains, Bool-cases, inl, inr,
}
use vm_sync.Base.Maps
use vm_sync.Wal.Scan.{FrameIndex}
use vm_sync.Wal.State.{has_fault, Checkpoint, Wal, with_files, call}
use vm_sync.Wal.Open.{
  readable_files, insert, segment_numbers, split_at, index_file, index_files, remove_files,
}
use vm_sync.Wal.Outcome.{Ends-weaken}
use vm_sync.Wal.Recovery.Segments.{
  Segment, IsSegment, Has, whole, torn, numbers, entries_in, entries,
}
use vm_sync.Wal.Recovery.Reindex.{
  Has-remove, Calm, Runs, Runs-and_then, call-Runs, Indexing, index_file-Runs,
}

-- The list of the files is sorted.
abbrev pub Ascending : List ℕ → Type 0
Ascending [] = Unit {0}
Ascending (k ∷ ks) = All (λ j. k ≤ j) ks × Ascending ks

pub All-insert : (P : ℕ → Type 0) (k : ℕ) (ks : List ℕ) → P k → All P ks → All P (insert k ks)
unfolding insert
All-insert P k [] h a = (h, tt)
All-insert P k (j ∷ ks) h a = elim (Bool-cases (leb k j)) [
  | inl first ↦ rw first (h, a)
  | inr after ↦ rw after (a.0, All-insert P k ks h a.1)
]

All-le : (k j : ℕ) (ks : List ℕ) → k ≤ j → All (λ i. j ≤ i) ks → All (λ i. k ≤ i) ks
All-le k j [] h a = tt
All-le k j (i ∷ ks) h a = (omega (arith, h, a.0), All-le k j ks h a.1)

insert-Ascending : (k : ℕ) (ks : List ℕ) → Ascending ks → Ascending (insert k ks)
unfolding insert
insert-Ascending k [] a = (tt, tt)
insert-Ascending k (j ∷ ks) a = elim (Bool-cases (leb k j)) [
  | inl first ↦ rw first ((ground (arith, first), All-le k j ks (ground (arith, first)) a.0), a)
  | inr after ↦
      rw after (All-insert (λ i. j ≤ i) k ks (ground (arith, after)) a.0, insert-Ascending k ks a.1)
]

pub segment_numbers-Ascending : (files : List (ℕ × List ℕ)) → Ascending (segment_numbers files)
unfolding segment_numbers
segment_numbers-Ascending [] = tt
segment_numbers-Ascending ((k, b) ∷ files) =
    insert-Ascending k (segment_numbers files) (segment_numbers-Ascending files)

module _ (start : ℕ) where
  pub stale-lt : (ks : List ℕ) → All (λ k. k < start) (split_at start ks).0
  unfolding split_at
  stale-lt [] = tt
  stale-lt (k ∷ ks) = elim (Bool-cases (ltb k start)) [
    | inl old ↦ rw old (ground (arith, old), stale-lt ks)
    | inr new ↦ rw new (stale-lt ks)
  ]

  pub All-alive : (P : ℕ → Type 0) (ks : List ℕ) → All P ks → All P (split_at start ks).1
  unfolding split_at
  All-alive P [] a = tt
  All-alive P (k ∷ ks) a = elim (Bool-cases (ltb k start)) [
    | inl old ↦ rw old (All-alive P ks a.1)
    | inr new ↦ rw new (a.0, All-alive P ks a.1)
  ]

  pub alive-ge : (ks : List ℕ) → All (λ k. start ≤ k) (split_at start ks).1
  unfolding split_at
  alive-ge [] = tt
  alive-ge (k ∷ ks) = elim (Bool-cases (ltb k start)) [
    | inl old ↦ rw old (alive-ge ks)
    | inr new ↦ rw new (ground (arith, new), alive-ge ks)
  ]

  pub alive-Ascending : (ks : List ℕ) → Ascending ks → Ascending (split_at start ks).1
  unfolding split_at
  alive-Ascending [] a = tt
  alive-Ascending (k ∷ ks) a = elim (Bool-cases (ltb k start)) [
    | inl old ↦ rw old (alive-Ascending ks a.1)
    | inr new ↦ rw new (All-alive (λ j. k ≤ j) ks a.0, alive-Ascending ks a.1)
  ]

pub outside :
    (start k : ℕ) (ks : List ℕ) → k < start → All (λ j. start ≤ j) ks → contains k ks ≡ false
outside start k [] h a = refl
outside start k (j ∷ ks) h a = ground (arith, h, a.0, outside start k ks h a.1)

-- Numbers that are not among others.
abbrev pub Apart : List ℕ → List ℕ → Type 0
Apart ks js = All (λ j. contains j ks ≡ false) js

Apart-cons : (k : ℕ) (ks js : List ℕ) → contains k js ≡ false → Apart ks js → Apart (k ∷ ks) js
Apart-cons k ks [] h a = tt
Apart-cons k ks (j ∷ js) h a = (ground (arith, h, a.0), Apart-cons k ks js (ground (arith, h)) a.1)

pub Apart-nil : (js : List ℕ) → Apart [] js
Apart-nil [] = tt
Apart-nil (j ∷ js) = (refl, Apart-nil js)

module _ (faults : List (Option ℕ)) (cp : Checkpoint) where
  -- All the files are cut.
  abbrev pub Indexed : List FrameIndex → List Segment → List Segment → Wal → Type 0
  Indexed fis ds ss v =
      (v.cp ≡ cp)
      × ((v.acked ≡ 0)
          × ((v.index ≡ fis) × (All (Has whole v.disk.files) ds × All (Has whole v.disk.files) ss)))

  pub index_files-Runs :
      (idx : List FrameIndex) (ds ss : List Segment) (v : Wal)
      → All (IsSegment cp) ss
      → Distinct (numbers ss)
      → Apart (numbers ds) (numbers ss)
      → Indexing faults cp idx ds ss v
      → Calm faults v
      → Runs faults
          (Indexed (idx ++ entries cp ss) ds ss)
          (index_files readable_files (numbers ss) v)
  unfolding index_files
  index_files-Runs idx ds [] v ok d a b c =
      ((b.0, (b.1.0, (b.1.1.0 ∙ sym (append-nil idx), (b.1.1.1.0, tt)))), c)
  index_files-Runs idx ds (s ∷ ss) v ok d a b c =
      Runs-and_then faults (Indexing faults cp (idx ++ entries_in cp s) (s ∷ ds) ss)
        (Indexed (idx ++ entries cp (s ∷ ss)) ds (s ∷ ss)) (index_file readable_files s.number v)
        (λ _. index_files readable_files (numbers ss))
        (index_file-Runs faults cp idx ds ss s ok.0 a.0 d.0 v b c)
        (λ _ w b1 c1.
          Ends-weaken
            (λ _ u. Indexed (idx ++ entries_in cp s ++ entries cp ss) (s ∷ ds) ss u × Calm faults u)
            (λ _ u. Indexed (idx ++ entries cp (s ∷ ss)) ds (s ∷ ss) u × Calm faults u)
            (λ _. has_fault faults ≡ true) (λ _. has_fault faults ≡ true)
            (index_files readable_files (numbers ss) w)
            (λ _ u r. (
              (
                r.0.0,
                (
                  r.0.1.0,
                  (
                    r.0.1.1.0 ∙ append_assoc idx (entries_in cp s) (entries cp ss),
                    (r.0.1.1.1.0.1, (r.0.1.1.1.0.0, r.0.1.1.1.1)),
                  ),
                ),
              ),
              r.1,
            ))
            (λ _ e. e)
            (index_files-Runs (idx ++ entries_in cp s) (s ∷ ds) ss w ok.1 d.1
              (Apart-cons s.number (numbers ds) (numbers ss) d.0 a.1) b1 c1))

  pub remove_files-Runs :
      (ks : List ℕ) (ss : List Segment) (v : Wal)
      → All (λ k. contains k (numbers ss) ≡ false) ks
      → Indexing faults cp [] [] ss v
      → Calm faults v
      → Runs faults (Indexing faults cp [] [] ss) (remove_files ks v)
  unfolding remove_files
  remove_files-Runs [] ss v a b c = (b, c)
  remove_files-Runs (k ∷ ks) ss v a b c =
      Runs-and_then faults (Indexing faults cp [] [] ss) (Indexing faults cp [] [] ss) (call v)
        (λ _ w. remove_files ks (with_files (Maps.remove k w.disk.files) w))
        (call-Runs faults (Indexing faults cp [] [] ss) v (λ gs. b) b c)
        (λ _ w b1 c1.
          remove_files-Runs ks ss (with_files (Maps.remove k w.disk.files) w) a.1
            (b1.0, (b1.1.0, (b1.1.1.0, (tt, Has-remove torn k w.disk.files ss a.0 b1.1.1.1.1)))) c1)
