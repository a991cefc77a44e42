-- ===== src/Config/Accepted.antt =====
-- internal/config/config.go: what the accepted texts of sync.backfill mean.
use vm_sync.Base.{
  ℕ, ◌≡◌, refl, sym, ap, ◌∙◌, subst, inl, inr, Bool, true, false, ◌||◌, List, [], ◌∷◌, Option, none,
  some, codes, trim_space, is_digit, arith, Bool-cases,
}
use vm_sync.Base.Int.{ℤ, pos, ltb_ℤ, eq_of_parts}
use vm_sync.Config.Durations.{TimeTexts, is_empty, parse_duration_ext, expand_days, is_nonneg}
use vm_sync.Config.Sizes.{same_text}
use vm_sync.Config.Settings.{check_backfill, validate_backfill}
use vm_sync.Config.Backfill.{
  BackfillSpec, backfill_none, backfill_all, backfill_duration, of_mode, of_duration, backfill_spec,
}

pub same_text→≡ : (s t : List ℕ) → same_text s t ≡ true → s ≡ t
same_text→≡ [] [] h = refl
same_text→≡ [] (b ∷ t) h = absurd (ground (arith, h))
same_text→≡ (a ∷ s) [] h = absurd (ground (arith, h))
same_text→≡ (a ∷ s) (b ∷ t) h = ground (arith, h, same_text→≡ s t)

module _ (t : TimeTexts) where
  zero_seconds :
      t.parse_duration (codes "0s") ≡ some (pos 0)
      → is_nonneg (parse_duration_ext t (codes "0s")) ≡ true
  unfolding parse_duration_ext expand_days trim_space is_digit
  zero_seconds h = rw h refl

  zero_seconds_of :
      (b : List ℕ)
      → t.parse_duration (codes "0s") ≡ some (pos 0)
      → same_text b (codes "0s") ≡ true
      → is_nonneg (parse_duration_ext t b) ≡ true
  zero_seconds_of b h e =
      subst (λ s. is_nonneg (parse_duration_ext t s) ≡ true) (sym (same_text→≡ b (codes "0s") e))
        (zero_seconds h)

  -- Where ParseDuration reads 0s as nothing, ValidateBackfill accepts exactly the texts that Validate
  -- accepts for sync.backfill, although it tests one word more.
  pub validate_backfill-check_backfill :
      (s : List ℕ)
      → t.parse_duration (codes "0s") ≡ some (pos 0)
      → validate_backfill t s ≡ check_backfill t s
  unfolding validate_backfill check_backfill
  validate_backfill-check_backfill s h = elim (Bool-cases (same_text (trim_space s) (codes "0s"))) [
    | inl e ↦ ground (arith, e, zero_seconds_of (trim_space s) h e)
    | inr e ↦ ground (arith, e)
  ]

  abbrev pub is_word : List ℕ → Bool
  is_word v = is_empty v || same_text v (codes "all")

  abbrev pub is_nothing : List ℕ → Bool
  is_nothing v = same_text v (codes "0") || same_text v (codes "0s")

  -- How an accepted text is understood: `zero` is a duration of nothing that is not written 0 or 0s.
  pub data Meaning (v : List ℕ) (spec : BackfillSpec) : Type 0 where
    everything : is_word v ≡ true → spec ≡ of_mode backfill_all → Meaning v spec
    nothing : is_nothing v ≡ true → spec ≡ of_mode backfill_none → Meaning v spec
    bounded :
        (d : ℤ)
        → parse_duration_ext t v ≡ some d
        → ltb_ℤ (pos 0) d ≡ true
        → spec ≡ record { mode = backfill_duration; dur = d }
        → Meaning v spec
    zero :
        parse_duration_ext t v ≡ some (pos 0)
        → is_nothing v ≡ false
        → spec ≡ of_mode backfill_all
        → Meaning v spec

  parsed-Meaning :
      (v : List ℕ) (r : Option ℤ)
      → parse_duration_ext t v ≡ r
      → is_nonneg r ≡ true
      → is_nothing v ≡ false
      → Meaning v (of_duration r)
  parsed-Meaning v none e h n = absurd (ground (arith, h))
  parsed-Meaning v (some d) e h n = elim (Bool-cases (ltb_ℤ (pos 0) d)) [
    | inl more ↦ bounded d e more (rw more refl)
    | inr no_more ↦ zero (e ∙ ap (λ (i : ℤ). some i) (is_zero no_more)) n (rw no_more refl)
  ]
    where
      is_zero : ltb_ℤ (pos 0) d ≡ false → d ≡ pos 0
      is_zero no_more = eq_of_parts d (pos 0) (ground (arith, h, no_more))

  -- A text of sync.backfill that Validate accepts is never understood by way of an error: it means
  -- everything if it is empty or all, nothing if it is 0 or 0s, and its duration if that is positive;
  -- but a duration of nothing in any other form, such as 0d, means everything.
  pub check_backfill-Meaning :
      (s : List ℕ) → check_backfill t s ≡ true → Meaning (trim_space s) (backfill_spec t s)
  unfolding check_backfill backfill_spec
  check_backfill-Meaning s h = elim (Bool-cases (is_word (trim_space s))) [
    | inl word ↦ rw word (everything word refl)
    | inr no_word ↦ elim (Bool-cases (is_nothing (trim_space s))) [
      | inl off ↦ rw (no_word, off) (nothing off refl)
      | inr on ↦
          rw (no_word, on)
            (parsed-Meaning (trim_space s) (parse_duration_ext t (trim_space s)) refl
              (ground (arith, h, no_word, on)) on)
    ]
  ]
