-- ===== src/Poller/Groups.antt =====
-- internal/sender/poller.go: lines in groups, and the frames that they make.
use vm_sync.Base.{
  ℕ, suc, ◌≤◌, ◌<◌, ◌≡◌, refl, sym, ap, ◌∙◌, arith, List, [], ◌∷◌, ◌++◌, map, append-nil,
  append_assoc, false, ◌⊎◌, if◌then◌else◌, ltb, ◌==◌, length, max, All, Bool-cases, inl, inr,
}
use vm_sync.Poller.Split.{newline}

-- The lines of a frame, with a newline before each but the first.
abbrev pub join_rest : List (List ℕ) → List ℕ
join_rest [] = []
join_rest (line ∷ lines) = newline ∷ (line ++ join_rest lines)

abbrev pub join : List (List ℕ) → List ℕ
join [] = []
join (line ∷ lines) = line ++ join_rest lines

abbrev pub concat : List (List (List ℕ)) → List (List ℕ)
concat [] = []
concat (g ∷ gs) = g ++ concat gs

-- The lines that have something in them.
abbrev pub filled : List (List ℕ) → List (List ℕ)
filled [] = []
filled (line ∷ lines) = if length line == 0 then filled lines else line ∷ filled lines

-- A group of lines that may be a frame: not too many, and not too long unless it is one line.
abbrev pub IsFrame : ℕ → ℕ → List (List ℕ) → Type 0
IsFrame max_lines max_bytes g =
    (0 < length g)
    × ((length g ≤ max 1 max_lines) × ((length (join g) ≤ max_bytes) ⊎ (length g ≡ 1)))

pub record Packed (max_lines max_bytes : ℕ) (ls fs : List (List ℕ)) : Type 0 where
  pub groups : List (List (List ℕ))
  pub frames : fs ≡ map join groups
  pub lines : concat groups ≡ ls
  pub each : All (IsFrame max_lines max_bytes) groups

join_rest-append :
    (lines : List (List ℕ)) (line : List ℕ)
    → join_rest (lines ++ (line ∷ [])) ≡ join_rest lines ++ (newline ∷ line)
join_rest-append [] line = ap (λ (l : List ℕ). newline ∷ l) (append-nil line)
join_rest-append (l ∷ lines) line =
    ap (λ (r : List ℕ). newline ∷ (l ++ r)) (join_rest-append lines line)
    ∙ ap (λ (r : List ℕ). newline ∷ r) (sym (append_assoc l (join_rest lines) (newline ∷ line)))

pub join-append :
    (lines : List (List ℕ)) (line : List ℕ)
    → join (lines ++ (line ∷ []))
      ≡ (if ltb 0 (length lines) then join lines ++ (newline ∷ line) else line)
join-append [] line = append-nil line
join-append (l ∷ lines) line =
    ap (λ (r : List ℕ). l ++ r) (join_rest-append lines line)
    ∙ sym (append_assoc l (join_rest lines) (newline ∷ line))
    ∙ more
  where
    more :
        l ++ join_rest lines ++ (newline ∷ line)
        ≡ (if ltb 0 (suc (length lines)) then l ++ join_rest lines ++ (newline ∷ line) else line)
    more = ground arith

pub concat-append :
    (gs : List (List (List ℕ))) (g : List (List ℕ)) → concat (gs ++ (g ∷ [])) ≡ concat gs ++ g
concat-append [] g = append-nil g
concat-append (h ∷ gs) g =
    ap (λ (r : List (List ℕ)). h ++ r) (concat-append gs g) ∙ sym (append_assoc h (concat gs) g)

pub map-join-append :
    (gs : List (List (List ℕ))) (g : List (List ℕ))
    → map join (gs ++ (g ∷ [])) ≡ map join gs ++ (join g ∷ [])
map-join-append [] g = refl
map-join-append (h ∷ gs) g = ap (λ (r : List (List ℕ)). join h ∷ r) (map-join-append gs g)

pub has_lines : (l : List (List ℕ)) → (length (join l) == 0) ≡ false → 0 < length l
has_lines [] h = absurd (ground (arith, h))
has_lines (line ∷ l) h = omega arith

pub filled_append :
    (line : List ℕ) (ls : List (List ℕ)) → filled (line ∷ []) ++ filled ls ≡ filled (line ∷ ls)
filled_append line ls = elim (Bool-cases (length line == 0)) [
  | inl e ↦ rw e refl
  | inr e ↦ rw e refl
]
