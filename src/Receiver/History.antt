-- ===== src/Receiver/History.antt =====
-- The tracker after any history of finished frames.
use vm_sync.Base.{ℕ, ◌+◌, ◌*◌, ◌^◌, ◌≤◌, ◌<◌, ◌≡◌, refl, arith, List, [], ◌∷◌, inl, inr}
use vm_sync.Base.{true, false, ltb, ◌==◌, contains, All, Bool-cases, subst}
use vm_sync.Receiver.Tracker.{Tracker, done, drop_overflow, seq_jump_limit, init, new_seq_tracker}
use vm_sync.Receiver.Prefix.{IsTracked, Advanced}
use vm_sync.Receiver.Done.{
  Done, known, jumped, grown, done-Done, added, advanced, advanced-Advanced, drop_overflow-last,
  drop_overflow-sub, advanced-IsTracked,
}

-- The newest finished frame is at the head of the history.
unfoldable pub track : ℕ → List ℕ → Tracker
track v [] = init new_seq_tracker v
track v (s ∷ ss) = (done (track v ss) s).0

-- Every number after `v` up to `n` is in the history.
abbrev pub AllDone : ℕ → ℕ → List ℕ → Type 0
AllDone v n ss = (x : ℕ) → v < x → x ≤ n → contains x ss ≡ true

-- No frame is further than the jump limit from the start, and the numbers do not wrap.
pub record IsNear (v : ℕ) (ss : List ℕ) : Type 0 where
  pub start : v + 2 * seq_jump_limit < 2 ^ 64
  pub near : All (λ s. s ≤ v + seq_jump_limit) ss

pub record Explained (v : ℕ) (ss : List ℕ) (t : Tracker) : Type 0 where
  pub tracked : IsTracked t
  pub started : v ≤ t.last
  pub near : t.last ≤ v + seq_jump_limit
  pub sound : AllDone v t.last ss
  pub known : (x : ℕ) → contains x t.pending ≡ true → contains x ss ≡ true
  pub stops : contains (t.last + 1) t.pending ≡ false

drop_overflow-missing :
    (t : Tracker) (x : ℕ)
    → contains x t.pending ≡ false
    → contains x (drop_overflow t).pending ≡ false
unfolding drop_overflow
drop_overflow-missing t x h = ground arith

module _ (v s : ℕ) (ss : List ℕ) (t : Tracker) (start : v + 2 * seq_jump_limit < 2 ^ 64)
    (near : (y : ℕ) → contains y (s ∷ ss) ≡ true → y ≤ v + seq_jump_limit)
    (x : Explained v ss t) where
  small : s ≤ v + seq_jump_limit
  small = near s (ground arith)

  module _ (lo : t.last < s) where
    abbrev grew : Advanced (added t s) (advanced t s)
    grew = advanced-Advanced t s x.tracked lo (omega (arith, small, start))

    covered : (y : ℕ) → t.last < y → y ≤ (advanced t s).last → contains y (s ∷ ss) ≡ true
    covered y l h = ground (arith, grew.covers y l h, x.known y)

    still_near : (advanced t s).last ≤ v + seq_jump_limit
    still_near = elim (Bool-cases (ltb t.last (advanced t s).last)) [
      | inl moved ↦ near _ (covered (advanced t s).last (ground arith) (omega arith))
      | inr same ↦ ground (arith, x.near)
    ]

    grown-Explained : Explained v (s ∷ ss) (drop_overflow (advanced t s))
    grown-Explained = record {
      tracked = advanced-IsTracked t s x.tracked lo (omega (arith, small, start));
      started = omega (arith, x.started, grew.grows, drop_overflow-last (advanced t s));
      near = omega (arith, still_near, drop_overflow-last (advanced t s));
      sound = λ y l h. ground (arith, x.sound y, covered y, drop_overflow-last (advanced t s));
      known = λ y h. ground (arith, drop_overflow-sub (advanced t s) y h, grew.keeps y, x.known y);
      stops = ground (
        arith,
        drop_overflow-last (advanced t s),
        drop_overflow-missing (advanced t s) ((advanced t s).last + 1) grew.stops,
      );
    }

  done-Explained : Explained v (s ∷ ss) (done t s).0
  done-Explained = go (done-Done t s)
    where
      go : {u : Tracker} → Done t s u → Explained v (s ∷ ss) u
      go (known old e) = rw e (record {
        tracked = x.tracked;
        started = x.started;
        near = x.near;
        sound = λ y lo hi. ground (arith, x.sound y);
        known = λ y h. ground (arith, x.known y);
        stops = x.stops;
      })
      go (jumped lo far e) = absurd (omega (arith, x.near, x.started, start, small))
      go (grown lo _ e) = rw e (grown-Explained lo)

contains-All : (P : ℕ → Type 0) (ss : List ℕ) (y : ℕ) → All P ss → contains y ss ≡ true → P y
contains-All P [] y a h = absurd (ground arith)
contains-All P (s ∷ ss) y a h = elim (Bool-cases (y == s)) [
  | inl here ↦ subst P (ground arith) a.0
  | inr there ↦ contains-All P ss y a.1 (ground arith)
]

pub track-Explained : (v : ℕ) (ss : List ℕ) → IsNear v ss → Explained v ss (track v ss)
unfolding track init
track-Explained v [] n = record {
  tracked = record { last_u64 = omega (arith, n.start); beyond = λ x h. absurd (ground arith) };
  started = omega arith;
  near = omega arith;
  sound = λ x lo hi. absurd (omega arith);
  known = λ x h. h;
  stops = refl;
}
track-Explained v (s ∷ ss) n =
    done-Explained v s ss (track v ss) n.start
      (λ y. contains-All (λ (z : ℕ). z ≤ v + seq_jump_limit) (s ∷ ss) y n.near)
      (track-Explained v ss (record { start = n.start; near = n.near.1 }))

-- Where no frame has a number beyond the start by more than the jump limit, and the numbers do not wrap,
-- the prefix passes no frame that has not finished, whatever the order in which frames finish and
-- whether or not the set of finished frames has overflowed: every number after the start up to the
-- prefix was finished. It is not below the start. Of a frame behind a longer jump nothing is said:
-- `done` makes the prefix follow that.
pub track_sound :
    (v : ℕ) (ss : List ℕ) → IsNear v ss → AllDone v (track v ss).last ss × (v ≤ (track v ss).last)
track_sound v ss n = let x = track-Explained v ss n in (x.sound, x.started)
