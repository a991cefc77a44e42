-- ===== src/Wal/Recovery/Named.antt =====
-- Open of internal/wal/wal.go: which segment files there are, whatever is in them.
use vm_sync.Base.{
  ℕ, ◌≤◌, ◌<◌, ◌≡◌, refl, sym, ap, subst, ◌∙◌, arith, List, [], ◌∷◌, All, true, if◌then◌else◌, ◌==◌,
  ◌||◌, ltb, Distinct, contains, contains-delete, Distinct-delete, Bool-cases, inl, inr,
}
use vm_sync.Base.Maps
use vm_sync.Wal.State.{Wal}
use vm_sync.Wal.Open.{insert, segment_numbers, split_at, max_number, last_segment_idx}
use vm_sync.Wal.Recovery.Numbering.{put-present, All-segment_numbers, All-delete}

split-insert :
    (start k : ℕ) (ks : List ℕ)
    → (split_at start (insert k ks)).1
      ≡ (if ltb k start then (split_at start ks).1 else insert k (split_at start ks).1)
unfolding split_at insert
split-insert start k [] = ground arith
split-insert start k (j ∷ ks) = ground (arith, split-insert start k ks)

-- Removing a stale file changes nothing of the others.
remove-stale :
    (start k : ℕ) (files : List (ℕ × List ℕ))
    → k < start
    → (split_at start (segment_numbers (Maps.remove k files))).1
      ≡ (split_at start (segment_numbers files)).1
unfolding segment_numbers Maps.remove
remove-stale start k [] h = refl
remove-stale start k ((j, b) ∷ files) h = elim (Bool-cases (k == j)) [
  | inl same ↦ rw same (
      remove-stale start k files h
      ∙ sym (split-insert start j (segment_numbers files) ∙ ground (arith, same, h)))
  | inr other ↦ rw other (
      split-insert start j (segment_numbers (Maps.remove k files))
      ∙ ap (λ (l : List ℕ). if ltb j start then l else insert j l) (remove-stale start k files h)
      ∙ sym (split-insert start j (segment_numbers files)))
]

contains-insert : (k j : ℕ) (ks : List ℕ) → contains k (insert j ks) ≡ (k == j || contains k ks)
unfolding insert
contains-insert k j [] = ground arith
contains-insert k j (i ∷ ks) = ground (arith, contains-insert k j ks)

contains-segment_numbers :
    (k : ℕ) (files : List (ℕ × List ℕ))
    → contains k (segment_numbers files) ≡ contains k (Maps.keys files)
unfolding segment_numbers
contains-segment_numbers k [] = refl
contains-segment_numbers k ((j, b) ∷ files) =
    ground (arith, contains-insert k j (segment_numbers files), contains-segment_numbers k files)

contains-alive :
    (start k : ℕ) (ks : List ℕ) → contains k (split_at start ks).1 ≡ true → contains k ks ≡ true
unfolding split_at
contains-alive start k [] h = h
contains-alive start k (j ∷ ks) h = ground (arith, h, contains-alive start k ks)

max_number-ge : (k : ℕ) (ks : List ℕ) → contains k ks ≡ true → k ≤ max_number ks
unfolding max_number
max_number-ge k [] h = absurd (ground (arith, h))
max_number-ge k (j ∷ ks) h = ground (arith, h, max_number-ge k ks)

max_number-le : (n : ℕ) (ks : List ℕ) → All (λ k. k ≤ n) ks → max_number ks ≤ n
unfolding max_number
max_number-le n [] a = omega arith
max_number-le n (k ∷ ks) a = omega (arith, a.0, max_number-le n ks a.1)

-- The files from `start` on have these numbers, no number twice and none above `n`.
pub record IsNamed (start n : ℕ) (names : List ℕ) (files : List (ℕ × List ℕ)) : Type 0 where
  pub alive : (split_at start (segment_numbers files)).1 ≡ names
  pub once : Distinct (Maps.keys files)
  pub behind : All (λ k. k ≤ n) (Maps.keys files)

module _ (start n : ℕ) (names : List ℕ) where
  pub present :
      (k : ℕ) (files : List (ℕ × List ℕ))
      → IsNamed start n names files
      → contains k names ≡ true
      → contains k (Maps.keys files) ≡ true
  present k files v h =
      sym (contains-segment_numbers k files)
      ∙ contains-alive start k (segment_numbers files) (ap (contains k) v.alive ∙ h)

  pub IsNamed-put :
      (k : ℕ) (b : List ℕ) (files : List (ℕ × List ℕ))
      → contains k names ≡ true
      → IsNamed start n names files
      → IsNamed start n names (Maps.put k b files)
  IsNamed-put k b files h v = record {
    alive =
        ap (λ (ks : List ℕ). (split_at start ks).1) (put-present k b files v.once here) ∙ v.alive;
    once = subst Distinct (sym (Maps.keys-put k b files)) (
      contains-delete k k (Maps.keys files) ∙ ground arith,
      Distinct-delete k (Maps.keys files) v.once,
    );
    behind = subst (All (λ j. j ≤ n)) (sym (Maps.keys-put k b files)) (
      within (Maps.keys files) v.behind here,
      All-delete (λ j. j ≤ n) k (Maps.keys files) v.behind,
    );
  }
    where
      here : contains k (Maps.keys files) ≡ true
      here = present k files v h

      within : (ks : List ℕ) → All (λ j. j ≤ n) ks → contains k ks ≡ true → k ≤ n
      within [] a e = absurd (ground (arith, e))
      within (j ∷ ks) a e = ground (arith, a.0, e, within ks a.1)

  pub IsNamed-remove :
      (k : ℕ) (files : List (ℕ × List ℕ))
      → k < start
      → IsNamed start n names files
      → IsNamed start n names (Maps.remove k files)
  IsNamed-remove k files h v = record {
    alive = remove-stale start k files h ∙ v.alive;
    once =
        subst Distinct (sym (Maps.keys-remove k files))
          (Distinct-delete k (Maps.keys files) v.once);
    behind =
        subst (All (λ j. j ≤ n)) (sym (Maps.keys-remove k files))
          (All-delete (λ j. j ≤ n) k (Maps.keys files) v.behind);
  }

  pub last_segment_idx-IsNamed :
      (v : Wal)
      → IsNamed start n names v.disk.files
      → contains n names ≡ true
      → last_segment_idx v ≡ n
  unfolding last_segment_idx
  last_segment_idx-IsNamed v i h = by_list (segment_numbers v.disk.files) refl
    where
      there : contains n (segment_numbers v.disk.files) ≡ true
      there = contains-segment_numbers n v.disk.files ∙ present n v.disk.files i h

      by_list :
          (ks : List ℕ)
          → segment_numbers v.disk.files ≡ ks
          → (elim ks [ [] ↦ v.cp.seg_start | k ∷ js ↦ max_number (k ∷ js) ]) ≡ n
      by_list [] e = absurd (ground (arith, ap (contains n) e, there))
      by_list (k ∷ js) e = omega (
        arith,
        max_number-ge n (k ∷ js) (sym (ap (contains n) e) ∙ there),
        max_number-le n (k ∷ js)
            (subst (All (λ j. j ≤ n)) e (All-segment_numbers (λ j. j ≤ n) v.disk.files i.behind)),
      )
