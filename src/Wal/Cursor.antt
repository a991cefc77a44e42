-- ===== src/Wal/Cursor.antt =====
-- The cursor in internal/wal/wal.go: SetCursor and ApplyBackfillPolicy.
use vm_sync.Base.{ℕ, Bool, false, ◌&&◌, not, if◌then◌else◌, ◌==◌}
use vm_sync.Base.Int.{ℤ, pos, ltb_ℤ, pos_part, neg_part}
use vm_sync.Wal.State.{Wal, done, failed, Op, ◌>>◌, return, backfill_none_ns}
use vm_sync.Wal.Commit.{persist}

abbrev pub eq_ℤ : ℤ → ℤ → Bool
eq_ℤ a b = pos_part a == pos_part b && neg_part a == neg_part b

abbrev pub move_cursor : ℤ → Wal → Wal
move_cursor ts w = record w { cp = record w.cp { cursor_ns = ts } }

abbrev pub note_policy : ℤ → Wal → Wal
note_policy policy w = record w { cp = record w.cp { backfill_ns = policy } }

unfoldable pub set_cursor : ℕ → ℤ → Op (Unit {0})
unfolding persist
set_cursor now ts w = if ltb_ℤ ts w.cp.cursor_ns then failed w else persist now (move_cursor ts w)

-- Whether a policy that has changed moves the cursor back.
abbrev pub rewinds : ℤ → ℤ → Wal → Bool
rewinds policy boundary w =
    not (eq_ℤ policy backfill_none_ns) && (ltb_ℤ (pos 0) boundary && ltb_ℤ boundary w.cp.cursor_ns)

unfoldable pub apply_backfill_policy : ℕ → ℤ → ℤ → Op Bool
unfolding persist
apply_backfill_policy now policy boundary w =
    let rewound = rewinds policy boundary w in
    let w' = if rewound then move_cursor boundary w else w in
    if w.legacy_checkpoint
    then (persist now >> return false) (note_policy policy (record w { legacy_checkpoint = false }))
    else if eq_ℤ w.cp.backfill_ns policy
    then done false w
    else (persist now >> return rewound) (note_policy policy w')
