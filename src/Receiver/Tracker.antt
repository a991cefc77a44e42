-- ===== src/Receiver/Tracker.antt =====
-- seqTracker of internal/receiver/receiver.go: the last sequence number of the contiguous prefix
-- of finished frames, and the set of those finished beyond it. Numbers are uint64.
use vm_sync.Base.{ℕ, zero, suc, ◌+◌, ◌%◌, ◌^◌, List, [], ◌∷◌}
use vm_sync.Base.{Bool, true, false, ltb, leb, if◌then◌else◌, length, contains, delete}

abbrev pub seq_jump_limit : ℕ
seq_jump_limit = 100000

abbrev pub seq_pending_limit : ℕ
seq_pending_limit = 65536

-- Addition of uint64s.
abbrev pub add64 : ℕ → ℕ → ℕ
add64 a b = (a + b) % 2 ^ 64

pub record Tracker : Type 0 where
  pub last : ℕ
  pub pending : List ℕ

unfoldable pub new_seq_tracker : Tracker
new_seq_tracker = record { last = 0; pending = [] }

unfoldable pub init : Tracker → ℕ → Tracker
init t v = record { last = v; pending = [] }

-- The keys of the map that the loop over it keeps.
unfoldable pub above : ℕ → List ℕ → List ℕ
above n [] = []
above n (s ∷ ss) = let rest = above n ss in if leb s n then rest else s ∷ rest

unfoldable pub close_gap : Tracker → ℕ → Tracker
unfolding above
close_gap t up_to =
    let last = if ltb t.last up_to then up_to else t.last in
    record { last = last; pending = above last t.pending }

abbrev pub add_pending : ℕ → List ℕ → List ℕ
add_pending s ss = if contains s ss then ss else s ∷ ss

-- The loop of `done`. Each round takes one number out of the set, so its size is fuel enough.
unfoldable pub advance : ℕ → Tracker → Bool → Tracker × Bool
advance zero t advanced = (t, advanced)
advance (suc fuel) t advanced =
    let next = add64 t.last 1 in
    let round = advance fuel (record { last = next; pending = delete next t.pending }) true in
    if contains next t.pending then round else (t, advanced)

-- An overflowing set is dropped.
unfoldable pub drop_overflow : Tracker → Tracker
drop_overflow t = if ltb seq_pending_limit (length t.pending) then record t { pending = [] } else t

unfoldable pub done : Tracker → ℕ → Tracker × Bool
unfolding advance drop_overflow
done t seq =
    if leb seq t.last
    then (t, false)
    else if ltb (add64 t.last seq_jump_limit) seq
    then (record { last = seq; pending = [] }, true)
    else let pending = add_pending seq t.pending in
      let (t', advanced) = advance (length pending) (record t { pending = pending }) false in
      (drop_overflow t', advanced)

unfoldable pub load : Tracker → ℕ
load t = t.last
