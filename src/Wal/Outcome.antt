-- ===== src/Wal/Outcome.antt =====
-- How the operations of internal/wal/wal.go end: what holds of the state they leave, by their parts.
use vm_sync.Base.{ℕ, ◌≡◌, refl, List, [], ◌∷◌, Bool, true, false, Option, none, some, if◌then◌else◌}
use vm_sync.Wal.State.{
  Wal, Step, done, failed, panicked, endless, and_then, with_faults, call, call_with,
}
use vm_sync.Wal.Commit.{is_recent, store, save_checkpoint, persist, persist_throttled}

-- The operation ends without a panic: `P` holds of a result and its state, `Q` of the state that an
-- error leaves.
abbrev pub Ends {ℓ} : {A : Type ℓ} → (A → Wal → Type 0) → (Wal → Type 0) → Step Wal A → Type 0
Ends P Q (done a w) = P a w
Ends P Q (failed w) = Q w
Ends P Q panicked = ⊥
Ends P Q endless = ⊥

pub Ends-and_then {ℓ κ} :
    {A : Type ℓ} {B : Type κ} (P : A → Wal → Type 0) (R : B → Wal → Type 0) (Q : Wal → Type 0)
    (s : Step Wal A) (f : A → Wal → Step Wal B)
    → Ends P Q s
    → ((a : A) (w : Wal) → P a w → Ends R Q (f a w))
    → Ends R Q (and_then s f)
Ends-and_then P R Q (done a w) f h k = k a w h
Ends-and_then P R Q (failed w) f h k = h
Ends-and_then P R Q panicked f h k = h
Ends-and_then P R Q endless f h k = h

pub Ends-if {ℓ} :
    {A : Type ℓ} (P : A → Wal → Type 0) (Q : Wal → Type 0) (t : Bool) (s s' : Step Wal A)
    → (t ≡ true → Ends P Q s)
    → (t ≡ false → Ends P Q s')
    → Ends P Q (if t then s else s')
Ends-if P Q true s s' h k = h refl
Ends-if P Q false s s' h k = k refl

-- What follows from the outcome.
pub Ends-weaken {ℓ} :
    {A : Type ℓ} (P P' : A → Wal → Type 0) (Q Q' : Wal → Type 0) (s : Step Wal A)
    → ((a : A) (w : Wal) → P a w → P' a w)
    → ((w : Wal) → Q w → Q' w)
    → Ends P Q s
    → Ends P' Q' s
Ends-weaken P P' Q Q' (done a w) p q h = p a w h
Ends-weaken P P' Q Q' (failed w) p q h = q w h
Ends-weaken P P' Q Q' panicked p q h = h
Ends-weaken P P' Q Q' endless p q h = h

call_with-Ends :
    (P : Wal → Type 0) (l : List (Option ℕ)) (w : Wal)
    → P w
    → ((fs : List (Option ℕ)) → P (with_faults fs w))
    → Ends (λ _. P) P (call_with l w)
unfolding call_with
call_with-Ends P [] w h k = h
call_with-Ends P (none ∷ fs) w h k = k fs
call_with-Ends P (some n ∷ fs) w h k = k fs

-- What a call of the system leaves is the state with fewer faults to come.
pub call-Ends :
    (P : Wal → Type 0) (w : Wal)
    → P w
    → ((fs : List (Option ℕ)) → P (with_faults fs w))
    → Ends (λ _. P) P (call w)
unfolding call
call-Ends P w h k = call_with-Ends P w.disk.faults w h k

-- A property of the log that the disk's faults, its checkpoint and the time of the last checkpoint
-- have no part in holds behind persist if it holds before, whatever fails.
pub record IsApart (P : Wal → Type 0) : Type 1 where
  pub faults : (w : Wal) (fs : List (Option ℕ)) → P w → P (with_faults fs w)
  pub stored : (w : Wal) → P w → P (store w)
  pub time : (w : Wal) (now : ℕ) → P w → P (record w { last_cp = some now })

module _ (P : Wal → Type 0) (a : IsApart P) where
  pub call-keeps : (w : Wal) → P w → Ends (λ _. P) P (call w)
  call-keeps w h = call-Ends P w h (λ fs. a.faults w fs h)

  -- A call, and what follows it.
  step :
      {A : Type 0} (w : Wal) (f : Wal → Step Wal A)
      → P w
      → ((v : Wal) → P v → Ends (λ _. P) P (f v))
      → Ends (λ _. P) P (and_then (call w) (λ _. f))
  step w f h k = Ends-and_then (λ _. P) (λ _. P) P (call w) (λ _. f) (call-keeps w h) (λ _. k)

  pub save_checkpoint-keeps : (w : Wal) → P w → Ends (λ _. P) P (save_checkpoint w)
  unfolding save_checkpoint
  save_checkpoint-keeps w h = step w _ h λ v1 h1. step v1 _ h1 λ v2 h2. step v2 _ h2 λ v3 h3.
      step v3 _ h3 λ v4 h4. step v4 _ h4 λ v5 h5. step (store v5) _ (a.stored v5 h5) call-keeps

  pub persist-keeps : (now : ℕ) (w : Wal) → P w → Ends (λ _. P) P (persist now w)
  unfolding persist
  persist-keeps now w h =
      Ends-and_then (λ _. P) (λ _. P) P (save_checkpoint w)
        (λ _ v. done tt (record v { last_cp = some now })) (save_checkpoint-keeps w h)
        (λ _ v. a.time v now)

  pub persist_throttled-keeps :
      (now : ℕ) (w : Wal) → P w → Ends (λ _. P) P (persist_throttled now w)
  unfolding persist_throttled
  persist_throttled-keeps now w h =
      Ends-if (λ _. P) P (is_recent now w.last_cp) (done tt w) (persist now w) (λ _. h)
        (λ _. persist-keeps now w h)
