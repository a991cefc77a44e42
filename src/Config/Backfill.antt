-- ===== src/Config/Backfill.antt =====
-- internal/config/config.go: how far back the first start reaches.
use vm_sync.Base.{ℕ, ◌||◌, List, Option, none, some, codes, trim_space, if◌then◌else◌}
use vm_sync.Base.Int.{ℤ, pos, ltb_ℤ}
use vm_sync.Config.Durations.{TimeTexts, is_empty, parse_duration_ext}
use vm_sync.Config.Sizes.{same_text}

pub data BackfillMode : Type 0 where
  backfill_none backfill_all backfill_duration : BackfillMode

-- `dur` is read in the mode with a duration only.
pub record BackfillSpec : Type 0 where
  pub mode : BackfillMode
  pub dur : ℤ

abbrev pub of_mode : BackfillMode → BackfillSpec
of_mode m = record { mode = m; dur = pos 0 }

-- An error, and what is not positive, stand for everything.
abbrev pub of_duration : Option ℤ → BackfillSpec
of_duration none = of_mode backfill_all
of_duration (some d) =
    if ltb_ℤ (pos 0) d then record { mode = backfill_duration; dur = d } else of_mode backfill_all

module _ (t : TimeTexts) where
  unfoldable pub backfill_spec : List ℕ → BackfillSpec
  backfill_spec s =
      let v = trim_space s in
      if is_empty v || same_text v (codes "all")
      then of_mode backfill_all
      else if same_text v (codes "0") || same_text v (codes "0s")
      then of_mode backfill_none
      else of_duration (parse_duration_ext t v)
