-- ===== src/Receiver/Done.antt =====
-- `done` on one frame: each of its branches, and the invariant.
use vm_sync.Base.{ℕ, ◌^◌, ◌≤◌, ◌<◌, ◌≡◌, arith, [], inl, inr}
use vm_sync.Base.{true, false, ltb, leb, length, contains, Bool-cases}
use vm_sync.Receiver.Tracker.{
  Tracker, add64, advance, done, drop_overflow, seq_jump_limit, add_pending,
}
use vm_sync.Receiver.Prefix.{IsTracked, Advanced, advance-Advanced}

-- The tracker with the finished frame in its set.
abbrev pub added : Tracker → ℕ → Tracker
added t seq = record t { pending = add_pending seq t.pending }

abbrev pub advanced : Tracker → ℕ → Tracker
advanced t seq = (advance (length (added t seq).pending) (added t seq) false).0

-- What `done` leaves, branch by branch.
pub data Done (t : Tracker) (seq : ℕ) (u : Tracker) : Type 0 where
  known : seq ≤ t.last → u ≡ t → Done t seq u
  jumped :
      t.last < seq
      → add64 t.last seq_jump_limit < seq
      → u ≡ record { last = seq; pending = [] }
      → Done t seq u
  grown :
      t.last < seq
      → seq ≤ add64 t.last seq_jump_limit
      → u ≡ drop_overflow (advanced t seq)
      → Done t seq u

pub done-Done : (t : Tracker) (seq : ℕ) → Done t seq (done t seq).0
unfolding done
done-Done t seq = elim (Bool-cases (leb seq t.last)) [
  | inl old ↦ known (ground arith) (rw old)
  | inr new ↦ elim (Bool-cases (ltb (add64 t.last seq_jump_limit) seq)) [
    | inl far ↦ jumped (ground arith) (ground arith) (rw (new, far))
    | inr near ↦ grown (ground arith) (ground arith) (rw (new, near))
  ]
]

pub added-IsTracked :
    (t : Tracker) (seq : ℕ) → IsTracked t → t.last < seq → seq < 2 ^ 64 → IsTracked (added t seq)
added-IsTracked t seq v lo hi = record {
  last_u64 = v.last_u64;
  beyond = λ x h. ground (arith, v.beyond x, h);
}

pub advanced-Advanced :
    (t : Tracker) (seq : ℕ)
    → IsTracked t
    → t.last < seq
    → seq < 2 ^ 64
    → Advanced (added t seq) (advanced t seq)
advanced-Advanced t seq v lo hi =
    advance-Advanced _ (added t seq) false (added-IsTracked t seq v lo hi) (omega arith)

pub drop_overflow-sub :
    (t : Tracker) (x : ℕ)
    → contains x (drop_overflow t).pending ≡ true
    → contains x t.pending ≡ true
unfolding drop_overflow
drop_overflow-sub t x h = ground arith

pub drop_overflow-last : (t : Tracker) → (drop_overflow t).last ≡ t.last
unfolding drop_overflow
drop_overflow-last t = ground arith

pub advanced-IsTracked :
    (t : Tracker) (seq : ℕ)
    → IsTracked t
    → t.last < seq
    → seq < 2 ^ 64
    → IsTracked (drop_overflow (advanced t seq))
advanced-IsTracked t seq v lo hi =
    let a = advanced-Advanced t seq v lo hi in
    let w = added-IsTracked t seq v lo hi in
    record {
      last_u64 = omega (arith, a.limit, drop_overflow-last (advanced t seq));
      beyond = λ x h. ground (
        arith,
        drop_overflow-last (advanced t seq),
        drop_overflow-sub (advanced t seq) x h,
        a.keeps x,
        w.beyond x,
      );
    }

-- `done` keeps the set above the prefix, on every branch, and never moves the prefix back.
pub done-IsTracked :
    (t : Tracker) (seq : ℕ)
    → IsTracked t
    → seq < 2 ^ 64
    → IsTracked (done t seq).0 × (t.last ≤ (done t seq).0.last)
done-IsTracked t seq v hi = go (done-Done t seq)
  where
    go : {u : Tracker} → Done t seq u → IsTracked u × (t.last ≤ u.last)
    go (known _ e) = rw e (v, omega arith)
    go (jumped lo far e) =
        rw e (record { last_u64 = hi; beyond = λ x h. absurd (ground arith) }, omega arith)
    go (grown lo _ e) = rw e (
      advanced-IsTracked t seq v lo hi,
      omega (arith, (advanced-Advanced t seq v lo hi).grows, drop_overflow-last (advanced t seq)),
    )
