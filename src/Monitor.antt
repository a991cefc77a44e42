-- ===== src/Monitor.antt =====
-- internal/monitor/metrics.go with MonitorConfig of internal/config/config.go: who is given the
-- metrics, and the delay that they report.
use vm_sync.Base.{
  ℕ, ◌/◌, ◌-◌, ◌≤◌, ◌≡◌, ◌↔◌, ◌⊎◌, refl, sym, ap, subst, contains, inl, inr, arith, Bool, true,
  false, List, [], ◌∷◌, Option, none, some, if◌then◌else◌, leb, ◌==◌, ◌&&◌, ◌||◌, Bool-cases,
}
use vm_sync.Config.Durations.{is_empty}
use vm_sync.Config.Sizes.{same_text}
use vm_sync.Config.Accepted.{same_text→≡}

pub record Auth : Type 0 where
  pub username : List ℕ
  pub password : List ℕ

-- MonitorConfig has the same two fields beside the address.
unfoldable pub auth_of : Auth → Option Auth
auth_of c = if is_empty c.username then none else some c

-- Whether authMiddleware passes a request on, by what r.BasicAuth returns for it.
unfoldable pub passes : Option Auth → Option Auth → Bool
passes none request = true
passes (some auth) none = is_empty auth.username
passes (some auth) (some request) =
    is_empty auth.username
    || (same_text request.username auth.username && same_text request.password auth.password)

same_text_refl : (s : List ℕ) → same_text s s ≡ true
same_text_refl [] = refl
same_text_refl (c ∷ s) = ground (arith, same_text_refl s)

-- SetLastWriteTs, for times that are not negative.
unfoldable pub set_last_write_ts : ℕ → ℕ → ℕ
set_last_write_ts cur ts = if leb ts cur then cur else ts

unfoldable pub e2e_delay : ℕ → ℕ → ℕ
e2e_delay now ts = if ts == 0 then 0 else (now - ts) / 1000

-- The calls of SetLastWriteTs, the newest first.
unfoldable pub written_ts : List ℕ → ℕ
unfolding set_last_write_ts
written_ts [] = 0
written_ts (ts ∷ later) = let cur = written_ts later in set_last_write_ts cur ts

empty : (s : List ℕ) → is_empty s ≡ true → s ≡ []
empty [] h = refl
empty (c ∷ s) h = absurd (ground (arith, h))

-- With a username in the settings the metrics are given exactly to the requests that carry it with the
-- password; without one they are given to all.
passes-auth_of :
    (c : Auth) (request : Option Auth)
    → (passes (auth_of c) request ≡ true) ↔ ((c.username ≡ []) ⊎ (request ≡ some c))
unfolding passes auth_of
passes-auth_of c request = elim (Bool-cases (is_empty c.username)) [
  | inl missing ↦ (λ h. inl (empty c.username missing), λ h. rw missing refl)
  | inr shut ↦ (only_own request shut, backward request)
]
  where
    matching :
        (r : Auth)
        → (same_text r.username c.username && same_text r.password c.password) ≡ true
        → r ≡ c
    matching r h = ground (
      arith,
      same_text→≡ r.username c.username (ground (arith, h)),
      same_text→≡ r.password c.password (ground (arith, h)),
    )

    only_own :
        (o : Option Auth)
        → is_empty c.username ≡ false
        → passes (auth_of c) o ≡ true
        → (c.username ≡ []) ⊎ (o ≡ some c)
    only_own none shut h = absurd (ground (arith, h, shut))
    only_own (some r) shut h =
        inr (ap (λ (a : Auth). some a) (matching r (ground (arith, h, shut))))

    backward : (o : Option Auth) → (c.username ≡ []) ⊎ (o ≡ some c) → passes (auth_of c) o ≡ true
    backward o (inl e) = ground (arith, ap is_empty e)
    backward o (inr e) =
        subst (λ (q : Option Auth). passes (auth_of c) q ≡ true) (sym e)
          (own (is_empty c.username) refl)
      where
        own : (b : Bool) → is_empty c.username ≡ b → passes (auth_of c) (some c) ≡ true
        own true e = ground (arith, e)
        own false e = ground (arith, e, same_text_refl c.username, same_text_refl c.password)

newest : (ts : ℕ) (later : List ℕ) → contains ts later ≡ true → ts ≤ written_ts later
unfolding written_ts set_last_write_ts
newest ts [] h = absurd (ground (arith, h))
newest ts (t ∷ later) h = ground (arith, h, newest ts later)

-- The delay is not more than the age of any time that was reported, in whatever order they were.
e2e_delay-written_ts :
    (now ts : ℕ) (later : List ℕ)
    → contains ts later ≡ true
    → e2e_delay now (written_ts later) ≤ (now - ts) / 1000
unfolding e2e_delay
e2e_delay-written_ts now ts later h = elim (Bool-cases (written_ts later == 0)) [
  | inl e ↦ rw e (omega arith)
  | inr e ↦ rw e (omega (arith, newest ts later h))
]
