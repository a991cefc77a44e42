-- ===== src/Receiver/Dedup.antt =====
-- The duplicate window: its invariant, and exactly which frames it takes for duplicates.
use vm_sync.Base.{ℕ, suc, ◌≤◌, ◌≡◌, ◌≢◌, refl, arith, List, [], ◌∷◌, ◌++◌, some}
use vm_sync.Base.{
  true, false, ltb, ◌==◌, if◌then◌else◌, length, contains, length-append, inl, inr, ◌⊎◌,
}
use vm_sync.Base.{Bool-cases, Option-cases, contains-append}
use vm_sync.Base.{Distinct}
use vm_sync.Base.Maps
use vm_sync.Receiver.Window.{
  Window, dedup_window_cap, evict, enqueue, dedup_record, dedup_hit, IsWindow,
}

Distinct-snoc :
    (x : ℕ) (xs : List ℕ) → Distinct xs → contains x xs ≡ false → Distinct (xs ++ (x ∷ []))
Distinct-snoc x [] d h = (refl, tt)
Distinct-snoc x (y ∷ xs) d h =
    (ground (arith, contains-append y xs (x ∷ []), d.0), Distinct-snoc x xs d.1 (ground arith))

-- A queue and a map that agree but for a number at the end of the queue.
record Queued (seq : ℕ) (order : List ℕ) (crcs : List (ℕ × ℕ)) : Type 0 where
  keys : (x : ℕ) → (if x == seq then true else Maps.has x crcs) ≡ contains x order
  distinct : Distinct order
  bounded : length order ≤ dedup_window_cap

evict-Queued :
    (seq : ℕ) (order : List ℕ) (crcs : List (ℕ × ℕ))
    → ((x : ℕ) → (if x == seq then true else Maps.has x crcs) ≡ contains x order)
    → Distinct order
    → length order ≤ suc dedup_window_cap
    → contains seq (evict order crcs).dedup_seq ≡ true
    → Queued seq (evict order crcs).dedup_seq (evict order crcs).dedup_crc
unfolding evict
evict-Queued seq [] crcs keys d h last = record {
  keys = keys;
  distinct = tt;
  bounded = omega arith;
}
evict-Queued seq (o ∷ order) crcs keys d h last =
    elim (Bool-cases (ltb dedup_window_cap (length (o ∷ order)))) [
      | inl over ↦ rw over (record {
        keys = λ x. ground (arith, keys x, Maps.get-remove o x crcs, d.0, over, last);
        distinct = d.1;
        bounded = omega (arith, h);
      })
      | inr fits ↦ rw fits (record { keys = keys; distinct = d; bounded = ground arith })
    ]

evict-last :
    (seq : ℕ) (order : List ℕ) (crcs : List (ℕ × ℕ))
    → contains seq (evict (order ++ (seq ∷ [])) crcs).dedup_seq ≡ true
unfolding evict
evict-last seq [] crcs = ground arith
evict-last seq (o ∷ order) crcs = ground (arith, contains-append seq order (seq ∷ []))

enqueue-Queued :
    (w : Window) (seq : ℕ)
    → IsWindow w
    → Queued seq (enqueue w seq).dedup_seq (enqueue w seq).dedup_crc
unfolding enqueue
enqueue-Queued w seq v = elim (Option-cases (Maps.get seq w.dedup_crc)) [
  | inl new ↦
      rw (new, enqueue)
        (evict-Queued seq (w.dedup_seq ++ (seq ∷ [])) w.dedup_crc
          (λ x. ground (arith, contains-append x w.dedup_seq (seq ∷ []), v.keys x))
          (Distinct-snoc seq w.dedup_seq v.distinct (ground (arith, v.keys seq)))
          (omega (arith, v.bounded, length-append w.dedup_seq (seq ∷ [])))
          (evict-last seq w.dedup_seq w.dedup_crc))
  | inr (crc, old) ↦
      rw (old, enqueue)
        (record {
          keys = λ x. ground (arith, v.keys x, v.keys seq, old);
          distinct = v.distinct;
          bounded = v.bounded;
        })
]

-- Recording a frame keeps the window: its queue holds the keys of the map, each once, and at
-- most 4096 of them.
pub dedup_record-IsWindow :
    (w : Window) (seq crc : ℕ) → IsWindow w → IsWindow (dedup_record w seq crc)
unfolding dedup_record
dedup_record-IsWindow w seq crc v =
    let q = enqueue-Queued w seq v in
    record {
      keys = λ x. ground (arith, q.keys x, Maps.get-put seq x crc (enqueue w seq).dedup_crc);
      distinct = q.distinct;
      bounded = q.bounded;
    }

-- An entry of the map after queueing was there before.
evict-get :
    (order : List ℕ) (crcs : List (ℕ × ℕ)) (x c : ℕ)
    → Maps.get x (evict order crcs).dedup_crc ≡ some c
    → Maps.get x crcs ≡ some c
unfolding evict
evict-get [] crcs x c h = h
evict-get (o ∷ order) crcs x c h = ground (arith, Maps.get-remove o x crcs)

enqueue-get :
    (w : Window) (seq x c : ℕ)
    → Maps.get x (enqueue w seq).dedup_crc ≡ some c
    → Maps.get x w.dedup_crc ≡ some c
unfolding enqueue
enqueue-get w seq x c h = ground (arith, evict-get (w.dedup_seq ++ (seq ∷ [])) w.dedup_crc x c)

pub dedup_hit-record_self :
    (w : Window) (seq crc : ℕ) → dedup_hit (dedup_record w seq crc) seq crc ≡ true
unfolding dedup_record dedup_hit
dedup_hit-record_self w seq crc = ground (arith, Maps.get-put seq seq crc (enqueue w seq).dedup_crc)

-- What hits after a frame was recorded is that frame, or it was a hit before and has another
-- number. So no frame that was not handled is taken for a duplicate.
pub dedup_hit-record :
    (w : Window) (seq crc x c : ℕ)
    → dedup_hit (dedup_record w seq crc) x c ≡ true
    → ((x ≡ seq) × (c ≡ crc)) ⊎ ((x ≢ seq) × (dedup_hit w x c ≡ true))
unfolding dedup_record dedup_hit
dedup_hit-record w seq crc x c h =
    ground (arith, Maps.get-put seq x crc (enqueue w seq).dedup_crc, enqueue-get w seq x c)
