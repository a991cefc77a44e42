-- ===== src/Receiver/Exact.antt =====
-- Without an overflow the prefix is as long as it can be.
use vm_sync.Base.{ℕ, ◌+◌, ◌≤◌, ◌<◌, ◌≡◌, ◌↔◌, arith, List, [], ◌∷◌, inl, inr, ◌⊎◌}
use vm_sync.Base.{true, ltb, length, contains, Bool-cases}
use vm_sync.Receiver.Tracker.{Tracker, done, drop_overflow, seq_pending_limit, init}
use vm_sync.Receiver.Done.{Done, known, jumped, grown, done-Done, advanced, advanced-Advanced}
use vm_sync.Receiver.History.{track, AllDone, IsNear, Explained, track-Explained}

-- What finished beyond the prefix is in the set, which is no longer than the history.
record Kept (ss : List ℕ) (t : Tracker) : Type 0 where
  kept : (y : ℕ) → contains y ss ≡ true → t.last < y → contains y t.pending ≡ true
  short : length t.pending ≤ length ss

drop_overflow-short : (t : Tracker) → length t.pending ≤ seq_pending_limit → drop_overflow t ≡ t
unfolding drop_overflow
drop_overflow-short t h = ground arith

done-Kept :
    (v s : ℕ) (ss : List ℕ) (t : Tracker)
    → IsNear v (s ∷ ss)
    → length (s ∷ ss) ≤ seq_pending_limit
    → Explained v ss t
    → Kept ss t
    → Kept (s ∷ ss) (done t s).0
done-Kept v s ss t n size x k = go (done-Done t s)
  where
    go : {u : Tracker} → Done t s u → Kept (s ∷ ss) u
    go (known old e) =
        rw e
          (record { kept = λ y h above. ground (arith, k.kept y); short = omega (arith, k.short) })
    go (jumped lo far e) = absurd (omega (arith, x.near, x.started, n.start, n.near.0))
    go (grown lo _ e) =
        let a = advanced-Advanced t s x.tracked lo (omega (arith, n.start, n.near.0)) in
        let small : length (advanced t s).pending ≤ length (s ∷ ss) =
          ground (arith, a.shrinks, k.short) in
        rw (e, drop_overflow-short (advanced t s) (omega (arith, small, size)))
          (record {
            kept = λ y h above. ground (arith, a.keeps y, a.grows, k.kept y);
            short = small;
          })

track-Kept :
    (v : ℕ) (ss : List ℕ) → IsNear v ss → length ss ≤ seq_pending_limit → Kept ss (track v ss)
unfolding track init
track-Kept v [] n h = record { kept = λ y e. absurd (ground arith); short = omega arith }
track-Kept v (s ∷ ss) n h =
    let m : IsNear v ss = record { start = n.start; near = n.near.1 } in
    done-Kept v s ss (track v ss) n h (track-Explained v ss m) (track-Kept v ss m (omega arith))

-- The prefix is exact: a number is within it if and only if it is not above the start, or all
-- from the start up to it have finished. So the order in which frames finish makes no difference.
-- No frame has a number beyond the start by more than the jump limit, the numbers do not wrap, and the
-- history is short enough that the set cannot overflow.
pub track_exact :
    (v n : ℕ) (ss : List ℕ)
    → IsNear v ss
    → length ss ≤ seq_pending_limit
    → (n ≤ (track v ss).last) ↔ ((n ≤ v) ⊎ AllDone v n ss)
track_exact v n ss near h = (to, from)
  where
    x : Explained v ss (track v ss)
    x = track-Explained v ss near

    to : n ≤ (track v ss).last → (n ≤ v) ⊎ AllDone v n ss
    to le = inr (λ y lo hi. x.sound y lo (omega arith))

    from : (n ≤ v) ⊎ AllDone v n ss → n ≤ (track v ss).last
    from (inl le) = omega (arith, x.started)
    from (inr all) = elim (Bool-cases (ltb (track v ss).last n)) [
      | inl below ↦ ground (
        arith,
        x.started,
        all ((track v ss).last + 1),
        (track-Kept v ss near h).kept ((track v ss).last + 1),
        x.stops,
      )
      | inr reached ↦ ground arith
    ]
