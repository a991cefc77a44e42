-- ===== src/Config/Durations.antt =====
-- internal/config/config.go: durations with days, and their defaults.
use vm_sync.Base.{
  ℕ, zero, suc, Bool, true, false, ◌||◌, not, List, [], ◌∷◌, ◌++◌, Option, none, some, length,
  trim_space, is_digit, if◌then◌else◌, ◌==◌,
}
use vm_sync.Base.Int.{ℤ, pos, ltb_ℤ}

-- What the package takes of Go's time and strconv: ParseDuration, and the text of ParseFloat's result
-- times 24. `none` is an error.
pub record TimeTexts : Type 0 where
  pub parse_duration : List ℕ → Option ℤ
  pub day_hours : List ℕ → Option (List ℕ)

-- A byte of a number: '-', '+', '.' or a digit.
unfoldable pub is_number_byte : ℕ → Bool
is_number_byte c = c == 45 || c == 43 || c == 46 || is_digit c

-- The bytes in front that pass the test, and what follows them.
unfoldable pub span : (ℕ → Bool) → List ℕ → List ℕ × List ℕ
span test [] = ([], [])
span test (c ∷ s) = let rest = span test s in if test c then (c ∷ rest.0, rest.1) else ([], c ∷ s)

abbrev pub is_empty : List ℕ → Bool
is_empty [] = true
is_empty (c ∷ s) = false

-- The unit is "d" alone.
abbrev pub is_day : List ℕ → Bool
is_day (c ∷ []) = c == 100
is_day _ = false

abbrev pub with_hour : Option (List ℕ) → Option (List ℕ)
with_hour none = none
with_hour (some text) = some (text ++ 104 ∷ [])

abbrev pub joined : Option (List ℕ) → Option (List ℕ) → Option (List ℕ)
joined (some a) (some b) = some (a ++ b)
joined _ _ = none

abbrev pub or_else : Option ℤ → ℤ → ℤ
or_else none def = def
or_else (some d) def = d

-- Not an error, and not negative.
abbrev pub is_nonneg : Option ℤ → Bool
is_nonneg none = false
is_nonneg (some d) = not (ltb_ℤ d (pos 0))

module _ (t : TimeTexts) where
  -- A number and its unit, days as hours.
  abbrev pub in_hours : List ℕ → List ℕ → Option (List ℕ)
  in_hours num unit = if is_day unit then with_hour (t.day_hours num) else some (num ++ unit)

  -- The loop over the pairs of a number and a unit.
  unfoldable pub expand_days : ℕ → List ℕ → Option (List ℕ)
  unfolding is_number_byte span
  expand_days zero s = none
  expand_days (suc fuel) [] = some []
  expand_days (suc fuel) (c ∷ s) =
      let num = span is_number_byte (c ∷ s) in
      let unit = span (λ b. not (is_number_byte b)) num.1 in
      let later = expand_days fuel unit.1 in
      if is_number_byte c then joined (in_hours num.0 unit.0) later else none

  abbrev pub parsed : Option (List ℕ) → Option ℤ
  parsed none = none
  parsed (some text) = t.parse_duration text

  unfoldable pub parse_duration_ext : List ℕ → Option ℤ
  unfolding expand_days
  parse_duration_ext s =
      let trimmed = trim_space s in
      if is_empty trimmed then none else parsed (expand_days (suc (length trimmed)) trimmed)

  unfoldable pub dur : List ℕ → ℤ → ℤ
  unfolding parse_duration_ext
  dur s def = if is_empty s then def else or_else (parse_duration_ext s) def

  unfoldable pub validate_dur : List ℕ → Bool
  unfolding parse_duration_ext
  validate_dur s = if is_empty s then true else is_nonneg (parse_duration_ext s)
