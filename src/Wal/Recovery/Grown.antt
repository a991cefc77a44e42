-- ===== src/Wal/Recovery/Grown.antt =====
-- internal/wal/wal.go: a segment with one frame more, and what it adds to the frames that wait.
use vm_sync.Base.{
  ℕ, ◌+◌, ◌≤◌, ◌≡◌, sym, ap, subst, ◌∙◌, arith, List, [], ◌∷◌, ◌++◌, append-nil, append_assoc, All,
  All-append, leb, length, length-append, Distinct, Bool-cases, inl, inr,
}
use vm_sync.Wal.Scan.{FrameIndex}
use vm_sync.Wal.Records.{
  Framed, IsFramed, record_of, segment_of, pending_from, index_of, length-record_of,
}
use vm_sync.Wal.State.{Checkpoint}
use vm_sync.Wal.Recovery.Segments.{
  Segment, IsSegment, whole, numbers, acked_in, entries_in, entries,
}
use vm_sync.Wal.Recovery.Directory.{with_last, IsWriting, numbers-with_last}
use vm_sync.Wal.Recovery.Adding.{entries-with_last}

pub segment_of-append :
    (xs : List Framed) (x : Framed) → segment_of (xs ++ x ∷ []) ≡ segment_of xs ++ record_of x.bytes
unfolding segment_of
segment_of-append [] x = append-nil (record_of x.bytes)
segment_of-append (y ∷ xs) x =
    ap (λ (b : List ℕ). record_of y.bytes ++ b) (segment_of-append xs x)
    ∙ sym (append_assoc (record_of y.bytes) (segment_of xs) (record_of x.bytes))

-- One frame more in a segment.
pending_from-append :
    (seg skip off : ℕ) (xs : List Framed) (x : Framed)
    → skip ≤ off + length (segment_of xs)
    → pending_from seg skip off (xs ++ x ∷ [])
      ≡ pending_from seg skip off xs ++ index_of seg (off + length (segment_of xs)) x ∷ []
unfolding pending_from segment_of
pending_from-append seg skip off [] x h = ground (arith, h)
pending_from-append seg skip off (y ∷ xs) x h =
    let next = off + 4 + length y.bytes in
    let size : off + length (record_of y.bytes ++ segment_of xs) ≡ next + length (segment_of xs) =
      omega (arith, length-append (record_of y.bytes) (segment_of xs), length-record_of y.bytes) in
    let rest =
      subst
        (λ (n : ℕ).
          pending_from seg skip next (xs ++ x ∷ [])
          ≡ pending_from seg skip next xs ++ index_of seg n x ∷ [])
        (sym size) (pending_from-append seg skip next xs x (omega (arith, h, size))) in
    elim (Bool-cases (leb next skip)) [
      | inl acked ↦ rw acked rest
      | inr waits ↦ rw waits (ap (λ (l : List FrameIndex). index_of seg off y ∷ l) rest)
    ]

pub All-last {κ} :
    (P : Segment → Type κ) (front : List Segment) (s : Segment)
    → All P (with_last front s)
    → All P front × P s
All-last P [] s a = (tt, a.0)
All-last P (f ∷ front) s a = let r = All-last P front s a.1 in ((a.0, r.0), r.1)

abbrev pub grown : Segment → Framed → Segment
grown s x = record { number = s.number; frames = s.frames ++ x ∷ []; tail = [] }

pub entries-grown :
    (cp : Checkpoint) (front : List Segment) (s : Segment) (x : Framed)
    → IsSegment cp s
    → entries cp (with_last front (grown s x))
      ≡ entries cp (with_last front s) ++ index_of s.number (length (whole s)) x ∷ []
entries-grown cp front s x v =
    entries-with_last cp front (grown s x)
    ∙ ap (λ (l : List FrameIndex). entries cp front ++ l)
        (pending_from-append s.number (acked_in cp s.number) 0 s.frames x (omega (arith, v.acked))
          ∙ ap (λ (n : ℕ). entries_in cp s ++ index_of s.number n x ∷ []) (omega arith))
    ∙ sym (
        append_assoc (entries cp front) (entries_in cp s)
          (index_of s.number (length (whole s)) x ∷ []))
    ∙ ap (λ (l : List FrameIndex). l ++ index_of s.number (length (whole s)) x ∷ [])
        (sym (entries-with_last cp front s))

All-append_framed :
    (xs : List Framed) (x : Framed) → All IsFramed xs → IsFramed x → All IsFramed (xs ++ x ∷ [])
All-append_framed xs x a v = All-append IsFramed xs (x ∷ []) a (v, tt)

pub grown-IsSegment :
    (cp : Checkpoint) (s : Segment) (x : Framed)
    → IsSegment cp s
    → IsFramed x
    → IsSegment cp (grown s x)
grown-IsSegment cp s x v f = record {
  framed = All-append_framed s.frames x v.framed f;
  short = omega arith;
  acked = omega (
    arith,
    v.acked,
    ap length (segment_of-append s.frames x),
    length-append (whole s) (record_of x.bytes),
  );
}

pub IsWriting-grown :
    (start : ℕ) (front : List Segment) (s : Segment) (x : Framed) (files : List (ℕ × List ℕ))
    → IsWriting start front (record s { tail = record_of x.bytes }) files
    → IsWriting start front (grown s x) files
IsWriting-grown start front s x files w = record {
  alive = w.alive ∙ renumbered;
  once = w.once;
  distinct = subst Distinct renumbered w.distinct;
  others = w.others;
  bytes =
      w.bytes ∙ sym (append-nil (segment_of (s.frames ++ x ∷ [])) ∙ segment_of-append s.frames x);
  present = w.present;
  behind = w.behind;
  started = w.started;
}
  where
    renumbered :
        numbers (with_last front (record s { tail = record_of x.bytes }))
        ≡ numbers (with_last front (grown s x))
    renumbered =
        numbers-with_last front (record s { tail = record_of x.bytes })
        ∙ sym (numbers-with_last front (grown s x))
