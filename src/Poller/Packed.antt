-- ===== src/Poller/Packed.antt =====
-- splitFrames of internal/sender/poller.go: the frames are the lines, in groups.
use vm_sync.Base.{
  ℕ, ◌+◌, ◌≤◌, ◌<◌, ◌≡◌, refl, sym, ap, subst, ◌∙◌, arith, List, [], ◌∷◌, ◌++◌, map, append-nil,
  append_assoc, Bool, true, false, ◌⊎◌, if◌then◌else◌, ltb, ◌==◌, length, split, max, All,
  All-append, length-append, Bool-cases, inl, inr,
}
use vm_sync.Poller.Split.{
  newline, Packing, flush, flush_if, join_line, is_full, add_line, add_lines, split_frames,
}
use vm_sync.Poller.Groups.{
  join, concat, filled, IsFrame, Packed, join-append, concat-append, map-join-append, has_lines,
  filled_append,
}

module _ (max_lines max_bytes : ℕ) where
  -- The invariant of the loop: the lines so far are those of the frames and of the open group.
  record Packs (lines : List (List ℕ)) (p : Packing) : Type 0 where
    groups : List (List (List ℕ))
    last : List (List ℕ)
    frames : p.frames ≡ map join groups
    cur : p.cur ≡ join last
    count : p.cur_lines ≡ length last
    all : concat groups ++ last ≡ lines
    each : All (IsFrame max_lines max_bytes) groups
    few : length last ≤ max 1 max_lines
    short : (length p.cur ≤ max_bytes) ⊎ (p.cur_lines ≡ 1)
    solid : length p.cur ≡ 0 → p.cur_lines ≡ 0

  flush-Packs :
      (lines : List (List ℕ)) (p : Packing)
      → Packs lines p
      → Packs lines (flush p) × ((flush p).cur_lines ≡ 0)
  unfolding flush
  flush-Packs lines p k = elim (Bool-cases (length p.cur == 0)) [
    | inl e ↦ rw (e, flush) (k, k.solid (ground (arith, e)))
    | inr e ↦
        rw (e, flush)
          (
            record {
              groups = k.groups ++ (k.last ∷ []);
              last = [];
              frames =
                  ap (λ (r : List (List ℕ)). r ++ (p.cur ∷ [])) k.frames
                  ∙ ap (λ (c : List ℕ). map join k.groups ++ (c ∷ [])) k.cur
                  ∙ sym (map-join-append k.groups k.last);
              cur = refl;
              count = refl;
              all =
                  append-nil (concat (k.groups ++ (k.last ∷ [])))
                  ∙ concat-append k.groups k.last
                  ∙ k.all;
              each = All-append (IsFrame max_lines max_bytes) k.groups (k.last ∷ []) k.each (
                (
                  has_lines k.last (rw (sym k.cur) e),
                  (k.few, ground (arith, k.short, ap length k.cur, k.count)),
                ),
                tt,
              );
              few = omega arith;
              short = inl (omega arith);
              solid = λ _. refl;
            },
            refl,
          )
  ]

  join_line-Packs :
      (line : List ℕ) (lines : List (List ℕ)) (p : Packing)
      → Packs lines p
      → 0 < length line
      → is_full max_lines max_bytes line p ≡ false
      → Packs (lines ++ (line ∷ [])) (join_line line p)
  unfolding join_line
  join_line-Packs line lines p k some_bytes room = record {
    groups = k.groups;
    last = k.last ++ (line ∷ []);
    frames = k.frames;
    cur =
        ap (λ (n : ℕ). if ltb 0 n then p.cur ++ (newline ∷ line) else line) k.count
        ∙ ap (λ (c : List ℕ). if ltb 0 (length k.last) then c ++ (newline ∷ line) else line) k.cur
        ∙ sym (join-append k.last line);
    count = ap (λ (n : ℕ). n + 1) k.count ∙ sym (length-append k.last (line ∷ []));
    all =
        sym (append_assoc (concat k.groups) k.last (line ∷ []))
        ∙ ap (λ (r : List (List ℕ)). r ++ (line ∷ [])) k.all;
    each = k.each;
    few = ground (arith, length-append k.last (line ∷ []), room, k.count, k.few);
    short = ground (arith, room, length-append p.cur (newline ∷ line));
    solid = λ z. absurd (ground (arith, z, some_bytes, length-append p.cur (newline ∷ line)));
  }

  flush_if-Packs :
      (b : Bool) (lines : List (List ℕ)) (p : Packing) → Packs lines p → Packs lines (flush_if b p)
  flush_if-Packs true lines p k = (flush-Packs lines p k).0
  flush_if-Packs false lines p k = k

  -- After the first flush the frame has room for the line.
  has_room :
      (line : List ℕ) (lines : List (List ℕ)) (p : Packing)
      → Packs lines p
      → is_full max_lines max_bytes line (flush_if (is_full max_lines max_bytes line p) p) ≡ false
  has_room line lines p k = elim (Bool-cases (is_full max_lines max_bytes line p)) [
    | inl e ↦ rw (e, flush_if) (ground (arith, (flush-Packs lines p k).1))
    | inr e ↦ rw (e, flush_if) e
  ]

  add_line-Packs :
      (line : List ℕ) (lines : List (List ℕ)) (p : Packing)
      → Packs lines p
      → Packs (lines ++ filled (line ∷ [])) (add_line max_lines max_bytes line p)
  unfolding add_line
  add_line-Packs line lines p k = elim (Bool-cases (length line == 0)) [
    | inl e ↦ rw (e, add_line, append-nil) k
    | inr e ↦
        let start = flush_if (is_full max_lines max_bytes line p) p in
        let k1 = flush_if-Packs (is_full max_lines max_bytes line p) lines p k in
        let k2 =
          join_line-Packs line lines start k1 (ground (arith, e)) (has_room line lines p k) in
        rw (e, add_line)
          (flush_if-Packs (ltb max_bytes (length (join_line line start).cur)) (lines ++ (line ∷ []))
            (join_line line start) k2)
  ]

  add_lines-Packs :
      (ls lines : List (List ℕ)) (p : Packing)
      → Packs lines p
      → Packs (lines ++ filled ls) (add_lines max_lines max_bytes ls p)
  unfolding add_lines
  add_lines-Packs [] lines p k = rw append-nil k
  add_lines-Packs (line ∷ ls) lines p k =
      subst (λ (l : List (List ℕ)). Packs l (add_lines max_lines max_bytes (line ∷ ls) p))
        (append_assoc lines (filled (line ∷ [])) (filled ls)
          ∙ ap (λ (r : List (List ℕ)). lines ++ r) (filled_append line ls))
        (add_lines-Packs ls (lines ++ filled (line ∷ [])) (add_line max_lines max_bytes line p)
          (add_line-Packs line lines p k))

no_lines : (l : List (List ℕ)) → length l ≡ 0 → l ≡ []
no_lines [] h = refl
no_lines (line ∷ l) h = absurd (omega arith)

-- The frames of a response are its lines that are not empty, in their order, in groups: each frame is
-- one or more lines with a newline between two, and has no more lines than the limit (one is always
-- allowed), and no more bytes unless it is one line.
pub split_frames-Packed :
    (raw : List ℕ) (max_lines max_bytes : ℕ)
    → Packed max_lines max_bytes (filled (split newline raw)) (split_frames raw max_lines max_bytes)
unfolding split_frames
split_frames-Packed raw max_lines max_bytes = record {
  groups = end.groups;
  frames = end.frames;
  lines =
      sym (append-nil (concat end.groups))
      ∙ ap (λ (l : List (List ℕ)). concat end.groups ++ l)
          (sym (no_lines end.last (sym end.count ∙ flushed.1)))
      ∙ end.all;
  each = end.each;
}
  where
    start : Packing
    start = record { frames = []; cur = []; cur_lines = 0 }

    empty : Packs max_lines max_bytes [] start
    empty = record {
      groups = [];
      last = [];
      frames = refl;
      cur = refl;
      count = refl;
      all = refl;
      each = tt;
      few = omega arith;
      short = inl (omega arith);
      solid = λ _. refl;
    }

    flushed :
        Packs max_lines max_bytes
          (filled (split newline raw))
          (flush (add_lines max_lines max_bytes (split newline raw) start))
        × ((flush (add_lines max_lines max_bytes (split newline raw) start)).cur_lines ≡ 0)
    flushed =
        flush-Packs max_lines max_bytes (filled (split newline raw))
          (add_lines max_lines max_bytes (split newline raw) start)
          (add_lines-Packs max_lines max_bytes (split newline raw) [] start empty)

    end :
        Packs max_lines max_bytes
          (filled (split newline raw))
          (flush (add_lines max_lines max_bytes (split newline raw) start))
    end = flushed.0
