-- ===== src/Transport/Arrivals.antt =====
-- The frames of a connection's bytes, and the handler calls of tcp_server.go that get them.
use vm_sync.Base.{
  ℕ, zero, suc, ◌<◌, ◌≤◌, ◌≡◌, ◌+◌, refl, sym, take-append_take, drop-drop, ap, subst, ◌∙◌, Bool,
  true, false, ◌||◌, ◌==◌, leb, Option, none, some, List, [], ◌∷◌, All, arith, length, take, drop,
  get_elem?, first_of_drop, length-take, length-drop, ltb, if◌then◌else◌, Bool-cases, inl, inr,
}
use vm_sync.Protocol.Frame.{Header, Result, ok, err}
use vm_sync.Protocol.Codec.{parse_header}
use vm_sync.Transport.Serving.{
  Call, Reader, reading, admitting, returned, Serving, Received, ended, bad_head, received,
  with_head, read_next, counts_as_data, take_frame, start_call,
}

-- A frame of the types that carry data.
abbrev pub is_data_type : ℕ → Bool
is_data_type t = t == 1 || t == 4

-- The number that a frame gets, and the count of data frames behind it.
abbrev pub number : Header → ℕ → ℕ
number h d = if is_data_type h.type then d else 0

abbrev pub count_on : Header → ℕ → ℕ
count_on h d = if is_data_type h.type then suc d else d

-- The whole frame at the front of a stream: the bytes of the header and as many as it says.
abbrev pub with_length : List ℕ → Result Header → Option (Header × List ℕ)
with_length stream (err e) = none
with_length stream (ok h) =
    if leb (20 + h.length) (length stream) then some (h, take (20 + h.length) stream) else none

unfoldable pub whole_frame : List ℕ → Option (Header × List ℕ)
whole_frame stream =
    if leb 20 (length stream) then with_length stream (parse_header (take 20 stream)) else none

-- The frame at the front, if there is one, and those of what follows it.
abbrev from_frame :
    Option (Header × List ℕ) → (Header → List ℕ → List (ℕ × List ℕ)) → ℕ → List (ℕ × List ℕ)
from_frame (some (h, frame_bytes)) later d = (number h d, frame_bytes) ∷ later h frame_bytes
from_frame none later d = []

-- The whole frames at the front of a stream, with their numbers among the data frames.
unfoldable pub arrivals : ℕ → ℕ → List ℕ → List (ℕ × List ℕ)
arrivals zero d stream = []
arrivals (suc fuel) d stream =
    from_frame (whole_frame stream)
      (λ h frame_bytes. arrivals fuel (count_on h d) (drop (length frame_bytes) stream)) d

abbrev pub all_arrivals : List ℕ → List (ℕ × List ℕ)
all_arrivals stream = arrivals (length stream) 0 stream

abbrev or_else : {A : Type 0} → A → Option A → A
or_else d none = d
or_else d (some x) = x

if_some :
    {A : Type 0} (t : Bool) (x y : A) → (if t then some x else none) ≡ some y → (t ≡ true) × (x ≡ y)
if_some {A} true x y e = (refl, ap (λ (o : Option A). or_else x o) e)
if_some false x y e = absurd (ground (arith, e))

-- A whole frame takes a byte at least, and no more than there are.
whole_frame-length :
    (stream : List ℕ) (h : Header) (frame_bytes : List ℕ)
    → whole_frame stream ≡ some (h, frame_bytes)
    → (0 < length frame_bytes) × (length frame_bytes ≤ length stream)
unfolding whole_frame
whole_frame-length stream h frame_bytes e = elim (Bool-cases (leb 20 (length stream))) [
  | inl long ↦ by_head (parse_header (take 20 stream)) (rw long at e)
  | inr short ↦ absurd (ground (arith, rw short at e))
]
  where
    by_head :
        (r : Result Header)
        → with_length stream r ≡ some (h, frame_bytes)
        → (0 < length frame_bytes) × (length frame_bytes ≤ length stream)
    by_head (err x) eq = absurd (ground (arith, eq))
    by_head (ok g) eq =
        let found =
          if_some (leb (20 + g.length) (length stream)) (g, take (20 + g.length) stream)
            (h, frame_bytes) eq in
        let size = ap (λ (p : Header × List ℕ). length p.1) found.1 in
        (
          ground (arith, found.0, size, length-take (20 + g.length) stream),
          ground (arith, found.0, size, length-take (20 + g.length) stream),
        )

abbrev head_of : Header → Received → Header
head_of d (received h frame_bytes rest) = h
head_of d ended = d
head_of d bad_head = d

abbrev frame_of : Received → List ℕ
frame_of (received h frame_bytes rest) = frame_bytes
frame_of ended = []
frame_of bad_head = []

abbrev rest_of : Received → List ℕ
rest_of (received h frame_bytes rest) = rest
rest_of ended = []
rest_of bad_head = []

-- What the read loop receives is the whole frame at the front.
read_next-whole_frame :
    (stream : List ℕ) (h : Header) (frame_bytes rest : List ℕ)
    → read_next stream ≡ received h frame_bytes rest
    → (whole_frame stream ≡ some (h, frame_bytes)) × (rest ≡ drop (length frame_bytes) stream)
unfolding read_next whole_frame
read_next-whole_frame stream h frame_bytes rest e = elim (Bool-cases (ltb (length stream) 20)) [
  | inl short ↦ absurd (ground (arith, rw short at e))
  | inr long ↦
      let size : 20 ≤ length stream = ground (arith, long) in
      let here : leb 20 (length stream) ≡ true = ground (arith, size) in
      rw here (by_head (parse_header (take 20 stream)) size (rw long at e))
]
  where
    by_head :
        (r : Result Header)
        → 20 ≤ length stream
        → with_head (take 20 stream) (drop 20 stream) r ≡ received h frame_bytes rest
        → (with_length stream r ≡ some (h, frame_bytes)) × (rest ≡ drop (length frame_bytes) stream)
    by_head (err x) size eq = absurd (ground (arith, eq))
    by_head (ok g) size eq = elim (Bool-cases (ltb (length (drop 20 stream)) g.length)) [
      | inl short ↦ absurd (ground (arith, rw short at eq))
      | inr enough ↦
          let all : 20 + g.length ≤ length stream =
            ground (arith, enough, size, length-drop 20 stream) in
          let here : leb (20 + g.length) (length stream) ≡ true = ground (arith, all) in
          let got = rw enough at eq in
          rw here (
            ap (λ (r : Received). some (head_of g r, frame_of r))
                (ap (λ (b : List ℕ). received g b (drop g.length (drop 20 stream)))
                    (sym (take-append_take 20 g.length stream))
                  ∙ got),
            sym (ap rest_of got)
                ∙ drop-drop g.length 20 stream
                ∙ ap (λ (n : ℕ). drop n stream)
                    (omega (arith, all, length-take (20 + g.length) stream)
                      ∙ ap length (sym (take-append_take 20 g.length stream))
                      ∙ ap (λ (r : Received). length (frame_of r)) got),
          )
    ]

from_frame-congr :
    (r : Option (Header × List ℕ)) (d : ℕ) (f g : Header → List ℕ → List (ℕ × List ℕ))
    → ((h : Header) (frame_bytes : List ℕ)
        → r ≡ some (h, frame_bytes)
        → f h frame_bytes ≡ g h frame_bytes)
    → from_frame r f d ≡ from_frame r g d
from_frame-congr none d f g e = refl
from_frame-congr (some (h, frame_bytes)) d f g e =
    ap (λ (l : List (ℕ × List ℕ)). (number h d, frame_bytes) ∷ l) (e h frame_bytes refl)

whole_frame-empty : (stream : List ℕ) → length stream ≤ 0 → whole_frame stream ≡ none
unfolding whole_frame
whole_frame-empty [] h = refl
whole_frame-empty (b ∷ stream) h = absurd (omega (arith, h))

rest_shorter :
    (stream : List ℕ) (h : Header) (frame_bytes : List ℕ)
    → whole_frame stream ≡ some (h, frame_bytes)
    → length (drop (length frame_bytes) stream) < length stream
rest_shorter stream h frame_bytes e =
    let size = whole_frame-length stream h frame_bytes e in
    omega (arith, size.0, size.1, length-drop (length frame_bytes) stream)

-- Fuel for each byte is enough.
arrivals-fuel :
    (fuel more d : ℕ) (stream : List ℕ)
    → length stream ≤ fuel
    → length stream ≤ more
    → arrivals fuel d stream ≡ arrivals more d stream
unfolding arrivals
arrivals-fuel zero zero d stream h k = refl
arrivals-fuel zero (suc more) d stream h k = rw (arrivals, whole_frame-empty stream h) refl
arrivals-fuel (suc fuel) zero d stream h k = rw (arrivals, whole_frame-empty stream k) refl
arrivals-fuel (suc fuel) (suc more) d stream h k =
    from_frame-congr (whole_frame stream) d _ _ λ head frame_bytes e.
      arrivals-fuel fuel more (count_on head d) (drop (length frame_bytes) stream)
        (omega (arith, h, rest_shorter stream head frame_bytes e))
        (omega (arith, k, rest_shorter stream head frame_bytes e))

arrivals-whole_frame :
    (d : ℕ) (h : Header) (frame_bytes : List ℕ) (stream : List ℕ) (n : ℕ)
    → n ≡ length stream
    → whole_frame stream ≡ some (h, frame_bytes)
    → arrivals n d stream
      ≡ (number h d, frame_bytes)
        ∷ arrivals
            (length (drop (length frame_bytes) stream))
            (count_on h d)
            (drop (length frame_bytes) stream)
unfolding arrivals
arrivals-whole_frame d h frame_bytes stream zero z f =
    absurd (ground (arith, f, whole_frame-empty stream (omega (arith, z))))
arrivals-whole_frame d h frame_bytes stream (suc n) z f =
    rw (arrivals, f)
      (ap (λ (l : List (ℕ × List ℕ)). (number h d, frame_bytes) ∷ l)
        (arrivals-fuel n (length (drop (length frame_bytes) stream)) (count_on h d)
          (drop (length frame_bytes) stream) (omega (arith, z, rest_shorter stream h frame_bytes f))
          (omega arith)))

arrivals-received :
    (d : ℕ) (stream : List ℕ) (h : Header) (frame_bytes rest : List ℕ)
    → read_next stream ≡ received h frame_bytes rest
    → arrivals (length stream) d stream
      ≡ (number h d, frame_bytes) ∷ arrivals (length rest) (count_on h d) rest
arrivals-received d stream h frame_bytes rest e =
    let found = read_next-whole_frame stream h frame_bytes rest e in
    arrivals-whole_frame d h frame_bytes stream (length stream) refl found.0 ∙ rw found.1 refl

module _ (all : List (ℕ × List ℕ)) where
  -- A running call has the frame of its number.
  abbrev pub IsCallOf : Call → Type 0
  IsCallOf c = get_elem? all c.index ≡ some (c.frame_idx, c.frame_bytes)

  -- What the read loop has still to take up.
  abbrev pub Left : Reader → (idx data_idx : ℕ) (stream : List ℕ) → Type 0
  Left reading idx data_idx stream = drop idx all ≡ arrivals (length stream) data_idx stream
  Left (admitting frame_idx frame_bytes) idx data_idx stream =
      drop idx all ≡ (frame_idx, frame_bytes) ∷ arrivals (length stream) data_idx stream
  Left returned idx data_idx stream = Unit {0}

  abbrev pub IsNumbered : Serving → Type 0
  IsNumbered s = All IsCallOf s.calls × Left s.reader s.idx s.data_idx s.stream

  pub arrival-IsNumbered :
      (h : Header) (frame_bytes rest : List ℕ) (s : Serving)
      → IsNumbered s
      → s.reader ≡ reading
      → read_next s.stream ≡ received h frame_bytes rest
      → IsNumbered (take_frame h frame_bytes rest s)
  unfolding take_frame
  arrival-IsNumbered h frame_bytes rest s n w e = elim (Bool-cases (counts_as_data h)) [
    | inl data_frame ↦ rw data_frame (n.0, left data_frame)
    | inr other ↦ rw other (n.0, left other)
  ]
    where
      left :
          {b : Bool}
          → counts_as_data h ≡ b
          → drop s.idx all
            ≡ ((if b then s.data_idx else 0), frame_bytes)
              ∷ arrivals (length rest) (if b then suc s.data_idx else s.data_idx) rest
      left eb =
          subst (λ r. Left r s.idx s.data_idx s.stream) w n.1
          ∙ arrivals-received s.data_idx s.stream h frame_bytes rest e
          ∙ rw eb refl

  pub start_call-IsNumbered :
      (frame_idx : ℕ) (frame_bytes : List ℕ) (s : Serving)
      → IsNumbered s
      → s.reader ≡ admitting frame_idx frame_bytes
      → IsNumbered (start_call frame_idx frame_bytes s)
  unfolding start_call
  start_call-IsNumbered frame_idx frame_bytes s n w =
      let found =
        first_of_drop s.idx all _ _ (subst (λ r. Left r s.idx s.data_idx s.stream) w n.1) in
      ((found.0, n.0), found.1)
