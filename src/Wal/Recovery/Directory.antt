-- ===== src/Wal/Recovery/Directory.antt =====
-- The segment files of internal/wal/wal.go while the last one is written, and when one comes behind it.
use vm_sync.Base.{
  ℕ, ◌+◌, ◌≤◌, ◌<◌, ◌≡◌, refl, sym, ap, subst, ◌∙◌, arith, List, [], ◌∷◌, ◌++◌, All, All-append,
  true, false, Distinct, contains, contains-append, contains-delete, delete, delete-absent,
  Distinct-delete,
}
use vm_sync.Base.Maps
use vm_sync.Wal.Records.{segment_of}
use vm_sync.Wal.State.{contents}
use vm_sync.Wal.Open.{segment_numbers, split_at}
use vm_sync.Wal.Written.{contents-put}
use vm_sync.Wal.Recovery.Segments.{Segment, Has, whole, torn, numbers}
use vm_sync.Wal.Recovery.Listing.{All-alive}
use vm_sync.Wal.Recovery.Reindex.{Has-put}
use vm_sync.Wal.Recovery.Numbering.{put-present, All-segment_numbers, All-delete, put-behind}

-- The segment that is written to, behind the others.
abbrev pub with_last : List Segment → Segment → List Segment
with_last front s = front ++ s ∷ []

pub record IsWriting (start : ℕ) (front : List Segment) (s : Segment) (files : List (ℕ × List ℕ))
    : Type 0 where
  pub alive : (split_at start (segment_numbers files)).1 ≡ numbers (with_last front s)
  pub once : Distinct (Maps.keys files)
  pub distinct : Distinct (numbers (with_last front s))
  pub others : All (Has torn files) front
  pub bytes : contents s.number files ≡ torn s
  pub present : contains s.number (Maps.keys files) ≡ true
  pub behind : All (λ k. k ≤ s.number) (Maps.keys files)
  pub started : start ≤ s.number

pub numbers-with_last :
    (front : List Segment) (s : Segment)
    → numbers (with_last front s) ≡ numbers front ++ s.number ∷ []
numbers-with_last [] s = refl
numbers-with_last (f ∷ front) s = ap (λ (l : List ℕ). f.number ∷ l) (numbers-with_last front s)

Distinct-last : (k : ℕ) (ks : List ℕ) → Distinct (ks ++ k ∷ []) → contains k ks ≡ false
Distinct-last k [] d = refl
Distinct-last k (j ∷ ks) d =
    ground (arith, d.0, Distinct-last k ks d.1, contains-append j ks (k ∷ []))

Distinct-behind :
    (k : ℕ) (ks : List ℕ) → Distinct ks → contains k ks ≡ false → Distinct (ks ++ k ∷ [])
Distinct-behind k [] d h = (refl, tt)
Distinct-behind k (j ∷ ks) d h = (
  ground (arith, h, d.0, contains-append j ks (k ∷ [])),
  Distinct-behind k ks d.1 (ground (arith, h)),
)

pub not_above : (n : ℕ) (ks : List ℕ) → All (λ k. k ≤ n) ks → contains (n + 1) ks ≡ false
not_above n [] a = refl
not_above n (k ∷ ks) a = ground (arith, a.0, not_above n ks a.1)

All-below : (n : ℕ) (ks : List ℕ) → All (λ k. k ≤ n) ks → All (λ k. k < n + 1) ks
All-below n [] a = tt
All-below n (k ∷ ks) a = (omega (arith, a.0), All-below n ks a.1)

module _ (start : ℕ) (front : List Segment) (s : Segment) (files : List (ℕ × List ℕ))
    (w : IsWriting start front s files) where
  not_among : contains s.number (numbers front) ≡ false
  not_among =
      Distinct-last s.number (numbers front) (subst Distinct (numbers-with_last front s) w.distinct)

  -- The bytes that are written come to the end.
  pub IsWriting-put :
      (tail : List ℕ)
      → IsWriting start front (record s { tail = tail }) (Maps.put s.number (whole s ++ tail) files)
  IsWriting-put tail = record {
    alive =
        ap (λ (ks : List ℕ). (split_at start ks).1)
          (put-present s.number (whole s ++ tail) files w.once w.present)
        ∙ w.alive
        ∙ numbers-with_last front s
        ∙ sym (numbers-with_last front (record s { tail = tail }));
    once = subst Distinct (sym (Maps.keys-put s.number (whole s ++ tail) files)) (
      contains-delete s.number s.number (Maps.keys files) ∙ ground arith,
      Distinct-delete s.number (Maps.keys files) w.once,
    );
    distinct =
        subst Distinct
          (numbers-with_last front s ∙ sym (numbers-with_last front (record s { tail = tail })))
          w.distinct;
    others = Has-put torn s.number (whole s ++ tail) files front not_among w.others;
    bytes = contents-put s.number (whole s ++ tail) files;
    present =
        ap (contains s.number) (Maps.keys-put s.number (whole s ++ tail) files) ∙ ground arith;
    behind =
        subst (All (λ k. k ≤ s.number)) (sym (Maps.keys-put s.number (whole s ++ tail) files))
          (omega arith, All-delete (λ k. k ≤ s.number) s.number (Maps.keys files) w.behind);
    started = w.started;
  }

  abbrev pub next : Segment
  next = record { number = s.number + 1; frames = []; tail = [] }

  all_numbers : contains (s.number + 1) (numbers (with_last front s)) ≡ false
  all_numbers =
      ap (contains (s.number + 1)) (sym w.alive)
      ∙ not_above s.number (split_at start (segment_numbers files)).1 (
          All-alive start (λ k. k ≤ s.number) (segment_numbers files)
            (All-segment_numbers (λ k. k ≤ s.number) files w.behind))

  all_torn : All (Has torn files) (with_last front s)
  all_torn = All-append (Has torn files) front (s ∷ []) w.others (w.bytes, tt)

  -- A new file comes behind the others.
  pub IsWriting-next : IsWriting start (with_last front s) next (Maps.put (s.number + 1) [] files)
  unfolding segment_of
  IsWriting-next = record {
    alive =
        put-behind start (s.number + 1) [] files (omega (arith, w.started)) unused
          (All-below s.number (Maps.keys files) w.behind)
        ∙ ap (λ (l : List ℕ). l ++ (s.number + 1) ∷ []) w.alive
        ∙ sym (numbers-with_last (with_last front s) next);
    once =
        subst Distinct (sym keys)
          (ap (contains (s.number + 1)) same ∙ unused, subst Distinct (sym same) w.once);
    distinct =
        subst Distinct (sym (numbers-with_last (with_last front s) next))
          (Distinct-behind (s.number + 1) (numbers (with_last front s)) w.distinct all_numbers);
    others = Has-put torn (s.number + 1) [] files (with_last front s) all_numbers all_torn;
    bytes = contents-put (s.number + 1) [] files;
    present = ap (contains (s.number + 1)) keys ∙ ground arith;
    behind = subst (All (λ k. k ≤ s.number + 1)) (sym keys) (
      omega arith,
      subst (All (λ k. k ≤ s.number + 1)) (sym same) (up (Maps.keys files) w.behind),
    );
    started = omega (arith, w.started);
  }
    where
      unused : contains (s.number + 1) (Maps.keys files) ≡ false
      unused = not_above s.number (Maps.keys files) w.behind

      same : delete (s.number + 1) (Maps.keys files) ≡ Maps.keys files
      same = delete-absent (s.number + 1) (Maps.keys files) unused

      keys :
          Maps.keys (Maps.put (s.number + 1) [] files)
          ≡ (s.number + 1) ∷ delete (s.number + 1) (Maps.keys files)
      keys = Maps.keys-put (s.number + 1) [] files

      up : (ks : List ℕ) → All (λ k. k ≤ s.number) ks → All (λ k. k ≤ s.number + 1) ks
      up [] a = tt
      up (k ∷ ks) a = (omega (arith, a.0), up ks a.1)

pub contents-absent :
    (k : ℕ) (files : List (ℕ × List ℕ))
    → contains k (Maps.keys files) ≡ false
    → contents k files ≡ []
unfolding contents Maps.get
contents-absent k [] h = refl
contents-absent k ((j, b) ∷ files) h = ground (arith, h, contents-absent k files)
