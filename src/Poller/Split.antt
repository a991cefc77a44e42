-- ===== src/Poller/Split.antt =====
-- splitFrames of internal/sender/poller.go.
use vm_sync.Base.{
  ℕ, ◌+◌, List, [], ◌∷◌, ◌++◌, Bool, ◌&&◌, ◌||◌, if◌then◌else◌, ltb, leb, ◌==◌, length, split,
}

abbrev pub newline : ℕ
newline = 10

-- The variables of the loop.
pub record Packing : Type 0 where
  pub frames : List (List ℕ)
  pub cur : List ℕ
  pub cur_lines : ℕ

unfoldable pub flush : Packing → Packing
flush p =
    if length p.cur == 0
    then p
    else record { frames = p.frames ++ (p.cur ∷ []); cur = []; cur_lines = 0 }

-- A line joins the frame that is being made.
unfoldable pub join_line : List ℕ → Packing → Packing
join_line line p = record {
  frames = p.frames;
  cur = if ltb 0 p.cur_lines then p.cur ++ (newline ∷ line) else line;
  cur_lines = p.cur_lines + 1;
}

abbrev pub is_full : ℕ → ℕ → List ℕ → Packing → Bool
is_full max_lines max_bytes line p =
    ltb 0 p.cur_lines
    && (leb max_lines p.cur_lines || ltb max_bytes (length p.cur + length line + 1))

abbrev pub flush_if : Bool → Packing → Packing
flush_if b p = if b then flush p else p

unfoldable pub add_line : ℕ → ℕ → List ℕ → Packing → Packing
unfolding flush join_line
add_line max_lines max_bytes line p =
    let joined = join_line line (flush_if (is_full max_lines max_bytes line p) p) in
    if length line == 0 then p else flush_if (ltb max_bytes (length joined.cur)) joined

unfoldable pub add_lines : ℕ → ℕ → List (List ℕ) → Packing → Packing
unfolding add_line
add_lines max_lines max_bytes [] p = p
add_lines max_lines max_bytes (line ∷ lines) p =
    add_lines max_lines max_bytes lines (add_line max_lines max_bytes line p)

unfoldable pub split_frames : List ℕ → ℕ → ℕ → List (List ℕ)
unfolding add_lines flush
split_frames raw max_lines max_bytes =
    (flush (
      add_lines max_lines max_bytes (split newline raw)
        (record { frames = []; cur = []; cur_lines = 0 }))).frames
