-- ===== src/Vm/Timestamps.antt =====
-- LastSampleTimestamp and lastTsInLine of internal/vm/client.go. A time below zero is read as 0:
-- the caller only asks whether it is greater than a time that starts at 0.
use vm_sync.Base.{ℕ, ◌≡◌, refl, List, [], ◌∷◌, Option, none, some}
use vm_sync.Base.{codes, after_last, before_byte, split, split_loop, trim_space, parse_nonneg}
use vm_sync.Base.{ltb, ◌==◌, if◌then◌else◌, length}

abbrev timestamps_key : List ℕ
timestamps_key = codes "\"timestamps\":["

abbrev or_zero : Option ℕ → ℕ
or_zero none = 0
or_zero (some n) = n

-- The text behind the last comma, or all of it.
last_item : List ℕ → List ℕ
last_item rest = elim (after_last (b',' ∷ []) rest) [ some tok ↦ tok | none ↦ rest ]

unfoldable pub last_ts_in_line : List ℕ → ℕ
unfolding last_item
last_ts_in_line line = elim (after_last timestamps_key line) [
  | none ↦ 0
  | some rest ↦ elim (before_byte b']' rest) [
    | none ↦ 0
    | some inside ↦ or_zero (parse_nonneg (trim_space (last_item inside)))
  ]
]

max_loop : ℕ → List (List ℕ) → ℕ
max_loop max_ts [] = max_ts
max_loop max_ts (line ∷ lines) =
    max_loop
      (if length line == 0
        then max_ts
        else if ltb max_ts (last_ts_in_line line)
        then last_ts_in_line line
        else max_ts)
      lines

unfoldable pub last_sample_timestamp : List ℕ → ℕ
unfolding max_loop
last_sample_timestamp raw = max_loop 0 (split b'\n' raw)

two_lines :
    last_sample_timestamp (codes "{\"timestamps\":[10,25]}\n{\"timestamps\":[7, 31 ]}\n") ≡ 31
unfolding last_sample_timestamp last_ts_in_line after_last before_byte split_loop trim_space
    parse_nonneg
two_lines = refl
