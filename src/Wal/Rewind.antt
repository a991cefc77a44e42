-- ===== src/Wal/Rewind.antt =====
-- Where SetCursor and ApplyBackfillPolicy of internal/wal/wal.go leave the cursor.
use vm_sync.Base.{ℕ, ◌≡◌, refl, arith, Bool, true, false, ◌&&◌, ◌⊎◌, not, if◌then◌else◌, inl, inr}
use vm_sync.Base.Int.{ℤ, pos, ltb_ℤ, ◌≤ℤ◌, eq_of_parts}
use vm_sync.Wal.State.{Wal, done, failed, ◌>>◌, return}
use vm_sync.Wal.Commit.{persist}
use vm_sync.Wal.Cursor.{set_cursor, apply_backfill_policy, rewinds, eq_ℤ, move_cursor, note_policy}
use vm_sync.Wal.Outcome.{Ends, Ends-if, Ends-weaken, Ends-and_then, IsApart, persist-keeps}

-- The cursor of the state.
abbrev pub IsAt : ℤ → ℤ → Wal → Type 0
IsAt cursor policy w = (w.cp.cursor_ns ≡ cursor) × (w.cp.backfill_ns ≡ policy)

IsAt-IsApart : (cursor policy : ℤ) → IsApart (IsAt cursor policy)
IsAt-IsApart cursor policy = record { faults = λ w fs h. h; stored = λ w h. h; time = λ w now h. h }

abbrev pub is_moved : ℤ → ℤ → Wal → Bool
is_moved policy boundary w =
    not w.legacy_checkpoint
    && (not (eq_ℤ w.cp.backfill_ns policy)
        && (not (eq_ℤ policy (pos 0)) && (ltb_ℤ (pos 0) boundary && ltb_ℤ boundary w.cp.cursor_ns)))

eq_of_eq_ℤ : (a b : ℤ) → eq_ℤ a b ≡ true → a ≡ b
eq_of_eq_ℤ a b h = eq_of_parts a b (ground (arith, h))

-- The cursor that a change of the policy leaves.
abbrev pub backfilled : ℤ → ℤ → Wal → ℤ
backfilled policy boundary w = if is_moved policy boundary w then boundary else w.cp.cursor_ns

kept :
    (now : ℕ) (w : Wal) (cursor policy : ℤ)
    → IsAt cursor policy w
    → Ends (λ _. IsAt cursor policy) (IsAt cursor policy) (persist now w)
kept now w cursor policy h = persist-keeps (IsAt cursor policy) (IsAt-IsApart cursor policy) now w h

-- SetCursor keeps the policy; an error leaves the old cursor or the new one.
pub set_cursor-IsAt :
    (now : ℕ) (ts : ℤ) (w : Wal) (cursor policy : ℤ)
    → IsAt cursor policy w
    → Ends
        (λ _. IsAt ts policy)
        (λ w'. IsAt cursor policy w' ⊎ IsAt ts policy w')
        (set_cursor now ts w)
unfolding set_cursor
set_cursor-IsAt now ts w cursor policy h =
    Ends-if (λ _. IsAt ts policy) (λ w'. IsAt cursor policy w' ⊎ IsAt ts policy w')
      (ltb_ℤ ts w.cp.cursor_ns) (failed w) (persist now (move_cursor ts w)) (λ back. inl h)
      (λ forth.
        Ends-weaken (λ _. IsAt ts policy) (λ _. IsAt ts policy) (IsAt ts policy)
          (λ w'. IsAt cursor policy w' ⊎ IsAt ts policy w') (persist now (move_cursor ts w))
          (λ _ w' at. at) (λ w' at. inr at) (kept now (move_cursor ts w) ts policy (refl, h.1)))

-- SetCursor ends without a panic. If it returns, the cursor is the wanted one, which is not before the
-- old one. If it returns an error, then either the wanted one is before the old one and nothing has
-- changed, or the checkpoint was not stored and the cursor is the wanted one all the same.
pub set_cursor-monotone :
    (now : ℕ) (ts : ℤ) (w : Wal)
    → Ends
        (λ _ w'. (w'.cp.cursor_ns ≡ ts) × (w.cp.cursor_ns ≤ℤ ts))
        (λ w'.
          (ltb_ℤ ts w.cp.cursor_ns ≡ true × (w' ≡ w))
          ⊎ ((w'.cp.cursor_ns ≡ ts) × (w.cp.cursor_ns ≤ℤ ts)))
        (set_cursor now ts w)
unfolding set_cursor
set_cursor-monotone now ts w =
    Ends-if (λ _ w'. (w'.cp.cursor_ns ≡ ts) × (w.cp.cursor_ns ≤ℤ ts))
      (λ w'.
        (ltb_ℤ ts w.cp.cursor_ns ≡ true × (w' ≡ w))
        ⊎ ((w'.cp.cursor_ns ≡ ts) × (w.cp.cursor_ns ≤ℤ ts)))
      (ltb_ℤ ts w.cp.cursor_ns) (failed w) (persist now (move_cursor ts w))
      (λ back. inl (back, refl))
      (λ forth.
        Ends-weaken (λ _. IsAt ts w.cp.backfill_ns)
          (λ _ w'. (w'.cp.cursor_ns ≡ ts) × (w.cp.cursor_ns ≤ℤ ts)) (IsAt ts w.cp.backfill_ns)
          (λ w'.
            (ltb_ℤ ts w.cp.cursor_ns ≡ true × (w' ≡ w))
            ⊎ ((w'.cp.cursor_ns ≡ ts) × (w.cp.cursor_ns ≤ℤ ts)))
          (persist now (move_cursor ts w)) (λ _ w' at. (at.0, ground (arith, forth)))
          (λ w' at. inr (at.0, ground (arith, forth)))
          (kept now (move_cursor ts w) ts w.cp.backfill_ns (refl, refl)))

stored :
    (now : ℕ) (w : Wal) (cursor policy : ℤ) (answer moved : Bool)
    → IsAt cursor policy w
    → answer ≡ moved
    → Ends
        (λ b w'. IsAt cursor policy w' × (b ≡ moved))
        (IsAt cursor policy)
        ((persist now >> return answer) w)
stored now w cursor policy answer moved h e =
    Ends-and_then (λ _. IsAt cursor policy) (λ b w'. IsAt cursor policy w' × (b ≡ moved))
      (IsAt cursor policy) (persist now w) (λ _ v. done answer v) (kept now w cursor policy h)
      (λ _ v at. (at, e))

-- ApplyBackfillPolicy ends without a panic. Whether it returns or fails to store the checkpoint, it
-- leaves the wanted policy, and the cursor at the boundary exactly when the checkpoint is not of an
-- old version, the policy differs from the recorded one and is not 0, and the boundary is positive
-- and before the cursor; otherwise the cursor stays. Its answer is whether the cursor was moved.
pub apply_backfill_policy-cursor :
    (now : ℕ) (policy boundary : ℤ) (w : Wal)
    → Ends
        (λ moved w'.
          IsAt (backfilled policy boundary w) policy w' × (moved ≡ is_moved policy boundary w))
        (IsAt (backfilled policy boundary w) policy)
        (apply_backfill_policy now policy boundary w)
unfolding apply_backfill_policy
apply_backfill_policy-cursor now policy boundary w =
    Ends-if Good Bad w.legacy_checkpoint
      ((persist now >> return false) (note_policy policy (record w { legacy_checkpoint = false })))
      (if eq_ℤ w.cp.backfill_ns policy
        then done false w
        else (persist now >> return (rewinds policy boundary w)) (note_policy policy moved_back))
      (λ old.
        stored now (note_policy policy (record w { legacy_checkpoint = false }))
          (backfilled policy boundary w) policy false (is_moved policy boundary w)
          (ground (arith, old), refl) (ground (arith, old)))
      (λ new.
        Ends-if Good Bad (eq_ℤ w.cp.backfill_ns policy) (done false w)
          ((persist now >> return (rewinds policy boundary w)) (note_policy policy moved_back))
          (λ same. (
            (ground (arith, new, same), eq_of_eq_ℤ w.cp.backfill_ns policy same),
            ground (arith, new, same),
          ))
          (λ other.
            stored now (note_policy policy moved_back) (backfilled policy boundary w) policy
              (rewinds policy boundary w) (is_moved policy boundary w)
              (ground (arith, new, other), ground arith) (ground (arith, new, other))))
  where
    Good : Bool → Wal → Type 0
    Good moved w' =
        IsAt (backfilled policy boundary w) policy w' × (moved ≡ is_moved policy boundary w)

    Bad : Wal → Type 0
    Bad = IsAt (backfilled policy boundary w) policy

    moved_back : Wal
    moved_back = if rewinds policy boundary w then move_cursor boundary w else w
