-- ===== src/Wal/Recovery/Reindex.antt =====
-- scanSegments of internal/wal/wal.go on such a directory: the loops over its files.
use vm_sync.Base.{
  ℕ, ◌≡◌, refl, sym, ap, subst, ◌∙◌, arith, List, [], ◌∷◌, ◌++◌, length, All, Option, none, some,
  true, false, if◌then◌else◌, ◌==◌, contains, Bool-cases, inl, inr,
}
use vm_sync.Base.Maps
use vm_sync.Base.Maps.{get-put, get-remove}
use vm_sync.Wal.Scan.{
  all_readable, FrameIndex, Scanned, indexed, corrupt, unfinished, index_segment,
}
use vm_sync.Wal.State.{
  Checkpoint, Wal, Step, Op, done, endless, endless, and_then, contents, with_files, has_fault,
  call, call_with, ◌>>◌, return, fail, modify,
}
use vm_sync.Wal.Open.{readable_files, index_file}
use vm_sync.Wal.Outcome.{Ends, Ends-and_then}
use vm_sync.Wal.Written.{contents-put}
use vm_sync.Wal.Recovery.Segments.{
  Segment, IsSegment, Has, whole, torn, numbers, acked_in, entries_in, index_segment-whole,
}

pub contents-put_other :
    (k j : ℕ) (b : List ℕ) (files : List (ℕ × List ℕ))
    → (k == j) ≡ false
    → contents j (Maps.put k b files) ≡ contents j files
unfolding contents
contents-put_other k j b files h = rw (contents, get-put k j b files) (ground (arith, h))

contents-remove_other :
    (k j : ℕ) (files : List (ℕ × List ℕ))
    → (k == j) ≡ false
    → contents j (Maps.remove k files) ≡ contents j files
unfolding contents
contents-remove_other k j files h = rw (contents, get-remove k j files) (ground (arith, h))

module _ (bytes : Segment → List ℕ) (k : ℕ) where
  pub Has-put :
      (b : List ℕ) (files : List (ℕ × List ℕ)) (ss : List Segment)
      → contains k (numbers ss) ≡ false
      → All (Has bytes files) ss
      → All (Has bytes (Maps.put k b files)) ss
  Has-put b files [] h a = tt
  Has-put b files (s ∷ ss) h a = (
    contents-put_other k s.number b files (ground (arith, h)) ∙ a.0,
    Has-put b files ss (ground (arith, h)) a.1,
  )

  pub Has-remove :
      (files : List (ℕ × List ℕ)) (ss : List Segment)
      → contains k (numbers ss) ≡ false
      → All (Has bytes files) ss
      → All (Has bytes (Maps.remove k files)) ss
  Has-remove files [] h a = tt
  Has-remove files (s ∷ ss) h a = (
    contents-remove_other k s.number files (ground (arith, h)) ∙ a.0,
    Has-remove files ss (ground (arith, h)) a.1,
  )

-- What follows the scan of the file with number `k`, as it is in `w`.
abbrev pub after_scan : ℕ → Wal → Scanned → Op (Unit {0})
after_scan k w r = elim r [
  | corrupt off ↦ fail
  | unfinished ↦ λ v. endless
  | indexed kept fis ↦ (do
    (if length kept == length (contents k w.disk.files) then return tt else call)
    modify (with_files (Maps.put k kept w.disk.files))
    modify λ v. record v { index = v.index ++ fis })
]

-- A run whose calls of the system all succeed if the disk has no fault to begin with: `P` holds of
-- what a success leaves, and an error is one of the system's.
module _ (faults : List (Option ℕ)) where
  abbrev pub Calm : Wal → Type 0
  Calm w = has_fault w.disk.faults ≡ true → has_fault faults ≡ true

  abbrev pub Runs {ℓ} : {A : Type ℓ} → (Wal → Type 0) → Step Wal A → Type 0
  Runs P s = Ends (λ _ w. P w × Calm w) (λ _. has_fault faults ≡ true) s

  pub Runs-and_then {ℓ κ} :
      {A : Type ℓ} {B : Type κ} (P Q : Wal → Type 0) (s : Step Wal A) (f : A → Wal → Step Wal B)
      → Runs P s
      → ((a : A) (w : Wal) → P w → Calm w → Runs Q (f a w))
      → Runs Q (and_then s f)
  Runs-and_then P Q s f h k =
      Ends-and_then (λ _ w. P w × Calm w) (λ _ w. Q w × Calm w) (λ _. has_fault faults ≡ true) s f h
        (λ a w p. k a w p.0 p.1)

  call_with-Runs :
      (P : Wal → Type 0) (w : Wal) (fs : List (Option ℕ))
      → ((gs : List (Option ℕ)) → P (record w { disk = record w.disk { faults = gs } }))
      → (has_fault fs ≡ true → has_fault faults ≡ true)
      → P w
      → Calm w
      → Runs P (call_with fs w)
  unfolding call_with
  call_with-Runs P w [] keeps calm h c = (h, c)
  call_with-Runs P w (none ∷ fs) keeps calm h c = (keeps fs, calm)
  call_with-Runs P w (some n ∷ fs) keeps calm h c = calm refl

  pub call-Runs :
      (P : Wal → Type 0) (w : Wal)
      → ((gs : List (Option ℕ)) → P (record w { disk = record w.disk { faults = gs } }))
      → P w
      → Calm w
      → Runs P (call w)
  unfolding call
  call-Runs P w keeps h c = call_with-Runs P w w.disk.faults keeps c h c

  -- The files of `ds` are scanned and cut, those of `ss` are still to come.
  abbrev pub Indexing : Checkpoint → List FrameIndex → List Segment → List Segment → Wal → Type 0
  Indexing cp fis ds ss v =
      (v.cp ≡ cp)
      × ((v.acked ≡ 0)
          × ((v.index ≡ fis) × (All (Has whole v.disk.files) ds × All (Has torn v.disk.files) ss)))

  module _ (cp : Checkpoint) (idx : List FrameIndex) (ds ss : List Segment) (s : Segment)
      (ok : IsSegment cp s) (old : contains s.number (numbers ds) ≡ false)
      (later : contains s.number (numbers ss) ≡ false) where
    abbrev pub Before : Wal → Type 0
    Before = Indexing cp idx ds (s ∷ ss)

    abbrev pub After : Wal → Type 0
    After = Indexing cp (idx ++ entries_in cp s) (s ∷ ds) ss

    -- The bytes are cut, and the frames come into the index.
    entered :
        (w v : Wal)
        → Before w
        → Before v
        → After (record (with_files (Maps.put s.number (whole s) w.disk.files) v) {
          index = v.index ++ entries_in cp s;
        })
    entered w v b c = (
      c.0,
      (
        c.1.0,
        (
          ap (λ (l : List FrameIndex). l ++ entries_in cp s) c.1.1.0,
          (
            (
              contents-put s.number (whole s) w.disk.files,
              Has-put whole s.number (whole s) w.disk.files ds old b.1.1.1.0,
            ),
            Has-put torn s.number (whole s) w.disk.files ss later b.1.1.1.1.1,
          ),
        ),
      ),
    )

    cut :
        (w : Wal)
        → Before w
        → Calm w
        → Runs Before (
            (if length (whole s) == length (contents s.number w.disk.files)
                then return tt
                else call)
              w)
    cut w b c = elim (Bool-cases (length (whole s) == length (contents s.number w.disk.files))) [
      | inl same ↦ rw same (b, c)
      | inr longer ↦ rw longer (call-Runs Before w (λ gs. b) b c)
    ]

    after_scan-Runs :
        (w : Wal) (r : Scanned)
        → r ≡ indexed (whole s) (entries_in cp s)
        → Before w
        → Calm w
        → Runs After (after_scan s.number w r w)
    after_scan-Runs w r e b c =
        subst (λ (q : Scanned). Runs After (after_scan s.number w q w)) (sym e)
          (Runs-and_then Before After
            ((if length (whole s) == length (contents s.number w.disk.files)
                then return tt
                else call)
              w)
            (λ _ v. done tt (record (with_files (Maps.put s.number (whole s) w.disk.files) v) {
              index = v.index ++ entries_in cp s;
            }))
            (cut w b c) (λ _ v k d. (entered w v b k, d)))

    scanned :
        (w : Wal)
        → Before w
        → index_segment all_readable
            (contents s.number w.disk.files)
            s.number
            (if s.number == w.cp.seg_start then w.cp.acked_bytes else 0)
          ≡ indexed (whole s) (entries_in cp s)
    scanned w b =
        ap
          (λ (q : Checkpoint).
            index_segment all_readable (contents s.number w.disk.files) s.number
              (acked_in q s.number))
          b.0
        ∙ ap (λ (f : List ℕ). index_segment all_readable f s.number (acked_in cp s.number))
            b.1.1.1.1.0
        ∙ index_segment-whole cp s ok

    pub index_file-Runs :
        (v : Wal) → Before v → Calm v → Runs After (index_file readable_files s.number v)
    unfolding index_file
    index_file-Runs v b c =
        Runs-and_then Before After (call v)
          (λ _ u. and_then (call u) (λ _ w.
            after_scan s.number w
              (index_segment all_readable (contents s.number w.disk.files) s.number
                (if s.number == w.cp.seg_start then w.cp.acked_bytes else 0))
              w))
          (call-Runs Before v (λ gs. b) b c)
          (λ _ u b1 c1.
            Runs-and_then Before After (call u)
              (λ _ w.
                after_scan s.number w
                  (index_segment all_readable (contents s.number w.disk.files) s.number
                    (if s.number == w.cp.seg_start then w.cp.acked_bytes else 0))
                  w)
              (call-Runs Before u (λ gs. b1) b1 c1)
              (λ _ w b2 c2. after_scan-Runs w _ (scanned w b2) b2 c2))
