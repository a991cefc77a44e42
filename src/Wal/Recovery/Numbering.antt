-- ===== src/Wal/Recovery/Numbering.antt =====
-- scanSegments of internal/wal/wal.go: the sorted numbers of the files, when one is written or added.
use vm_sync.Base.{
  ℕ, ◌≤◌, ◌<◌, ◌≡◌, refl, ap, ◌∙◌, arith, List, [], ◌∷◌, ◌++◌, All, true, false, ◌==◌, leb, ltb,
  Distinct, contains, delete, Bool-cases, inl, inr,
}
use vm_sync.Base.Maps
use vm_sync.Wal.Open.{insert, segment_numbers, split_at}
use vm_sync.Wal.Recovery.Listing.{All-insert}

insert_comm : (k j : ℕ) (ks : List ℕ) → insert k (insert j ks) ≡ insert j (insert k ks)
unfolding insert
insert_comm k j [] = ground arith
insert_comm k j (i ∷ ks) = ground (arith, insert_comm k j ks)

remove-absent :
    (k : ℕ) (files : List (ℕ × List ℕ))
    → contains k (Maps.keys files) ≡ false
    → Maps.remove k files ≡ files
unfolding Maps.remove
remove-absent k [] h = refl
remove-absent k ((j, b) ∷ files) h = elim (Bool-cases (k == j)) [
  | inl same ↦ absurd (ground (arith, h, same))
  | inr other ↦ rw other (
      ap (λ (l : List (ℕ × List ℕ)). (j, b) ∷ l) (remove-absent k files (ground (arith, h, other))))
]

-- Writing a file that is there changes no number.
pub put-present :
    (k : ℕ) (b : List ℕ) (files : List (ℕ × List ℕ))
    → Distinct (Maps.keys files)
    → contains k (Maps.keys files) ≡ true
    → segment_numbers (Maps.put k b files) ≡ segment_numbers files
unfolding segment_numbers Maps.put Maps.remove
put-present k b [] d h = absurd (ground (arith, h))
put-present k b ((j, c) ∷ files) d h = elim (Bool-cases (k == j)) [
  | inl same ↦ rw same (
      ap (λ (l : List (ℕ × List ℕ)). insert k (segment_numbers l))
        (remove-absent k files (ground (arith, d.0, same)))
      ∙ ap (λ (i : ℕ). insert i (segment_numbers files)) (ground (arith, same)))
  | inr other ↦ rw other (
      insert_comm k j (segment_numbers (Maps.remove k files))
      ∙ ap (insert j) (put-present k b files d.1 (ground (arith, h, other))))
]

insert_last : (k : ℕ) (ks : List ℕ) → All (λ j. j < k) ks → insert k ks ≡ ks ++ k ∷ []
unfolding insert
insert_last k [] a = refl
insert_last k (j ∷ ks) a = elim (Bool-cases (leb k j)) [
  | inl first ↦ absurd (ground (arith, first, a.0))
  | inr after ↦ rw after (ap (λ (l : List ℕ). j ∷ l) (insert_last k ks a.1))
]

module _ (P : ℕ → Type 0) where
  pub All-segment_numbers :
      (files : List (ℕ × List ℕ)) → All P (Maps.keys files) → All P (segment_numbers files)
  unfolding segment_numbers
  All-segment_numbers [] a = tt
  All-segment_numbers ((k, b) ∷ files) a =
      All-insert P k (segment_numbers files) a.0 (All-segment_numbers files a.1)

  pub All-delete : (k : ℕ) (ks : List ℕ) → All P ks → All P (delete k ks)
  All-delete k [] a = tt
  All-delete k (j ∷ ks) a = elim (Bool-cases (k == j)) [
    | inl same ↦ rw same (All-delete k ks a.1)
    | inr other ↦ rw other (a.0, All-delete k ks a.1)
  ]

split-last :
    (start k : ℕ) (ks : List ℕ)
    → start ≤ k
    → (split_at start (ks ++ k ∷ [])).1 ≡ (split_at start ks).1 ++ k ∷ []
unfolding split_at
split-last start k [] h = ground (arith, h)
split-last start k (j ∷ ks) h = elim (Bool-cases (ltb j start)) [
  | inl old ↦ rw old (split-last start k ks h)
  | inr new ↦ rw new (ap (λ (l : List ℕ). j ∷ l) (split-last start k ks h))
]

-- A file behind the others.
pub put-behind :
    (start k : ℕ) (b : List ℕ) (files : List (ℕ × List ℕ))
    → start ≤ k
    → contains k (Maps.keys files) ≡ false
    → All (λ j. j < k) (Maps.keys files)
    → (split_at start (segment_numbers (Maps.put k b files))).1
      ≡ (split_at start (segment_numbers files)).1 ++ k ∷ []
unfolding segment_numbers Maps.put
put-behind start k b files h new a =
    ap (λ (l : List (ℕ × List ℕ)). (split_at start (insert k (segment_numbers l))).1)
      (remove-absent k files new)
    ∙ ap (λ (l : List ℕ). (split_at start l).1)
        (insert_last k (segment_numbers files) (All-segment_numbers (λ j. j < k) files a))
    ∙ split-last start k (segment_numbers files) h
