-- ===== src/Config/Sizes.antt =====
-- internal/config/config.go: sizes in bytes with units.
use vm_sync.Base.{
  ℕ, ◌-◌, ◌*◌, ◌%◌, ◌^◌, Bool, true, false, ◌&&◌, List, [], ◌∷◌, Option, none, some, length, take,
  drop, trim_space, parse_nonneg, parse_digits, within_int64, leading_digits, codes, has_prefix,
  if◌then◌else◌, ltb, leb, ◌==◌,
}
use vm_sync.Base.Int.{ℤ, pos, negsuc, sub_ℕ, ◌*ℤ◌}
use vm_sync.Wal.State.{default_segment_size}
use vm_sync.Config.Durations.{is_empty}

-- An integer as an int64, with its wrap-around.
unfoldable pub wrap_int64 : ℤ → ℤ
wrap_int64 (pos n) = let r = n % 2 ^ 64 in if ltb r (2 ^ 63) then pos r else sub_ℕ r (2 ^ 64)
wrap_int64 (negsuc n) =
    let r = n % 2 ^ 64 in if ltb r (2 ^ 63) then negsuc r else sub_ℕ (2 ^ 64 - 1) r

-- strings.ToUpper on ASCII.
abbrev pub upper : ℕ → ℕ
upper c = if leb 97 c && leb c 122 then c - 32 else c

unfoldable pub to_upper : List ℕ → List ℕ
to_upper [] = []
to_upper (c ∷ s) = upper c ∷ to_upper s

-- strings.HasSuffix, and the text before the suffix.
abbrev pub has_suffix : List ℕ → List ℕ → Bool
has_suffix p s = leb (length p) (length s) && has_prefix p (drop (length s - length p) s)

abbrev pub without_last : ℕ → List ℕ → List ℕ
without_last n s = take (length s - n) s

-- The units with their factors, the longer names first.
abbrev pub units : List (List ℕ × ℕ)
units = (codes "GB", 2 ^ 30) ∷ (codes "MB", 2 ^ 20) ∷ (codes "KB", 2 ^ 10) ∷ (codes "B", 1) ∷ []

-- The factor, and the text of the number.
unfoldable pub cut_unit : List (List ℕ × ℕ) → List ℕ → ℕ × List ℕ
unfolding to_upper
cut_unit [] s = (1, s)
cut_unit ((suffix, factor) ∷ later) s =
    let rest = cut_unit later s in
    if has_suffix suffix (to_upper s)
    then (factor, trim_space (without_last (length suffix) s))
    else rest

-- strconv.ParseInt(s, 10, 64)
abbrev pub at_most_2_63 : Option ℕ → Option ℤ
at_most_2_63 none = none
at_most_2_63 (some n) = if leb n (2 ^ 63) then some (sub_ℕ 0 n) else none

abbrev pub as_pos : Option ℕ → Option ℤ
as_pos none = none
as_pos (some n) = some (pos n)

unfoldable pub parse_int : List ℕ → Option ℤ
unfolding parse_nonneg
parse_int [] = none
parse_int (c ∷ s) = if c == 45 then at_most_2_63 (parse_digits s) else as_pos (parse_nonneg (c ∷ s))

abbrev pub times : ℕ → Option ℤ → Option ℤ
times factor none = none
times factor (some n) = some (wrap_int64 (n *ℤ pos factor))

unfoldable pub parse_byte_size : List ℕ → Option ℤ
unfolding cut_unit parse_int wrap_int64
parse_byte_size s =
    let t = trim_space s in
    let cut = cut_unit units t in if is_empty t then none else times cut.0 (parse_int cut.1)

-- `==` on texts.
abbrev pub same_text : List ℕ → List ℕ → Bool
same_text [] [] = true
same_text (a ∷ s) (b ∷ t) = a == b && same_text s t
same_text _ _ = false

-- The cases of the switch on the unit.
abbrev pub unit_cases : List (List ℕ × ℕ)
unit_cases =
    ([], 1)
    ∷ (codes "B", 1)
    ∷ (codes "KB", 2 ^ 10)
    ∷ (codes "MB", 2 ^ 20)
    ∷ (codes "GB", 2 ^ 30)
    ∷ []

unfoldable pub factor_of : List (List ℕ × ℕ) → List ℕ → Option ℕ
factor_of [] unit = none
factor_of ((name, factor) ∷ later) unit =
    let rest = factor_of later unit in if same_text name unit then some factor else rest

abbrev pub scaled : Option ℕ → Option ℕ → Option ℤ
scaled (some n) (some factor) = some (wrap_int64 (pos (n * factor)))
scaled _ _ = none

unfoldable pub parse_size : List ℕ → Option ℤ
unfolding leading_digits factor_of to_upper
parse_size s =
    let t = trim_space s in
    let digits = leading_digits t in
    if is_empty digits
    then none
    else scaled (within_int64 (parse_digits digits))
        (factor_of unit_cases (to_upper (trim_space (drop (length digits) t))))

-- wal.DefaultSegmentSize, for no text and for one that does not parse.
abbrev pub size_or : Option ℤ → ℤ → ℤ
size_or none def = def
size_or (some n) def = n

unfoldable pub segment_size : List ℕ → ℤ
unfolding parse_size
segment_size s =
    if is_empty s
    then pos default_segment_size
    else size_or (parse_size s) (pos default_segment_size)
