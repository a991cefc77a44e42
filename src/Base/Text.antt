-- ===== src/Base/Text.antt =====
-- What the program uses of Go's bytes, strings and strconv, over byte lists.
use Prim.Native.Nat.{ℕ, ◌+◌, ◌*◌, ◌-◌, ◌^◌}
use Prim.Native.Char.{code}
use Prim.Native.String.{String}
use mathlib.Core.Bool.{Bool, true, false, ◌&&◌, ◌||◌}
use mathlib.Core.List.{List, [], ◌∷◌, ◌++◌, reverse}
use mathlib.Core.Option.{Option, none, some}
use vm_sync.Base.Tests.{if◌then◌else◌, ◌==◌, ltb, leb}
use vm_sync.Base.Lists.{length, drop}

-- The bytes of a text of ASCII characters.
abbrev pub codes : String → List ℕ
codes String.[] = []
codes (String.◌∷◌ c s) = code c ∷ codes s

-- strings.HasPrefix(s, p)
abbrev pub has_prefix : List ℕ → List ℕ → Bool
has_prefix [] s = true
has_prefix (c ∷ p) [] = false
has_prefix (c ∷ p) (d ∷ s) = c == d && has_prefix p s

-- What follows the first occurrence of a text: strings.Index(s, p), and the slice behind it.
unfoldable pub after_first : List ℕ → List ℕ → Option (List ℕ)
after_first p [] = if has_prefix p [] then some [] else none
after_first p (c ∷ s) =
    let rest = after_first p s in
    if has_prefix p (c ∷ s) then some (drop (length p) (c ∷ s)) else rest

-- What follows the last occurrence: bytes.LastIndex.
unfoldable pub after_last : List ℕ → List ℕ → Option (List ℕ)
after_last p [] = if has_prefix p [] then some [] else none
after_last p (c ∷ s) = elim (after_last p s) [
  | some rest ↦ some rest
  | none ↦ if has_prefix p (c ∷ s) then some (drop (length p) (c ∷ s)) else none
]

-- What stands before the first byte `b`: s[:strings.IndexByte(s, b)].
unfoldable pub before_byte : ℕ → List ℕ → Option (List ℕ)
before_byte b [] = none
before_byte b (c ∷ s) = elim (before_byte b s) [
  | some front ↦ if c == b then some [] else some (c ∷ front)
  | none ↦ if c == b then some [] else none
]

-- bytes.Split(s, sep) for one byte: `first` is the part that is being read.
unfoldable pub split_loop : ℕ → List ℕ → List ℕ → List (List ℕ)
split_loop sep first [] = first ∷ []
split_loop sep first (c ∷ s) = elim (c == sep) [
  | true ↦ first ∷ split_loop sep [] s
  | false ↦ split_loop sep (first ++ (c ∷ [])) s
]

abbrev pub split : ℕ → List ℕ → List (List ℕ)
split sep = split_loop sep []

-- The ASCII white space of unicode.IsSpace.
unfoldable pub is_space : ℕ → Bool
is_space c = c == 32 || (leb 9 c && leb c 13)

unfoldable pub trim_left : List ℕ → List ℕ
unfolding is_space
trim_left [] = []
trim_left (c ∷ s) = let rest = trim_left s in if is_space c then rest else c ∷ s

-- strings.TrimSpace
unfoldable pub trim_space : List ℕ → List ℕ
unfolding trim_left
trim_space s = reverse (trim_left (reverse (trim_left s)))

unfoldable pub is_digit : ℕ → Bool
is_digit c = leb 48 c && leb c 57

-- Decimal digits only, at least one.
unfoldable pub digits_loop : ℕ → List ℕ → Option ℕ
unfolding is_digit
digits_loop acc [] = some acc
digits_loop acc (c ∷ s) =
    let rest = digits_loop (acc * 10 + (c - 48)) s in if is_digit c then rest else none

unfoldable pub parse_digits : List ℕ → Option ℕ
unfolding digits_loop
parse_digits [] = none
parse_digits (c ∷ s) = digits_loop 0 (c ∷ s)

-- A number that strconv.ParseInt(s, 10, 64) accepts, if it is not negative.
unfoldable pub within_int64 : Option ℕ → Option ℕ
within_int64 none = none
within_int64 (some n) = if ltb n (2 ^ 63) then some n else none

unfoldable pub parse_nonneg : List ℕ → Option ℕ
unfolding parse_digits within_int64
parse_nonneg [] = none
parse_nonneg (c ∷ s) = within_int64 (if c == 43 then parse_digits s else parse_digits (c ∷ s))

-- The digits at the front.
unfoldable pub leading_digits : List ℕ → List ℕ
unfolding is_digit
leading_digits [] = []
leading_digits (c ∷ s) = let rest = c ∷ leading_digits s in if is_digit c then rest else []
