-- ===== src/Poller/Once.antt =====
-- pollOnce and launchPrefetch of internal/sender/poller.go: one round of the poller over the log.
-- Times are milliseconds.
use vm_sync.Base.{
  ℕ, ◌+◌, List, [], ◌∷◌, Bool, true, false, Option, none, some, if◌then◌else◌, ltb, ◌==◌, length,
  min,
}
use vm_sync.Base.Int.{ℤ, ◌+ℤ◌, ◌-ℤ◌, ltb_ℤ}
use vm_sync.Protocol.Frame.{
  ProtocolError, payload_too_large, frame_too_large, Result, ok, err, ◌>>=◌,
}
use vm_sync.Protocol.Codec.{Compressors, encode}
use vm_sync.Wal.State.{Wal, Step, done, failed, panicked, endless}
use vm_sync.Wal.Append.{append_batch}
use vm_sync.Wal.Cursor.{set_cursor, eq_ℤ}
use vm_sync.Poller.Window.{PollerConfig, Streaks, window_size, window_end, milliseconds, lesser}
use vm_sync.Poller.Split.{split_frames}

-- A query that was sent ahead; none is its error.
pub record Slot : Type 0 where
  pub cursor : ℤ
  pub end : ℤ
  pub result : Option (List ℕ)

pub record Poller : Type 0 where
  pub cfg : PollerConfig
  pub wal : Wal
  pub streaks : Streaks
  pub prefetch : Option Slot

-- What a round meets: the time of the poller and of the log, whether the source could be flushed,
-- whether the wait for a query sent ahead is cancelled, and ExportRange.
pub record Source : Type 0 where
  pub now : ℤ
  pub clock : ℕ
  pub flushed : Bool
  pub cancelled : Bool
  pub export : ℤ → ℤ → Option (List ℕ)

pub data Fetched : Type 0 where
  stopped : Fetched
  fetched : ℤ → Option (List ℕ) → Fetched

-- The query sent ahead counts only if it starts at the cursor, and then with its own end.
abbrev pub fetch_window : Source → ℤ → ℤ → Option Slot → Fetched
fetch_window src cursor end none = fetched end (src.export cursor end)
fetch_window src cursor end (some slot) =
    if eq_ℤ slot.cursor cursor
    then if src.cancelled then stopped else fetched slot.end slot.result
    else fetched end (src.export cursor end)

abbrev pub is_empty : List (List ℕ) → Bool
is_empty [] = true
is_empty (f ∷ fs) = false

abbrev pub observe : PollerConfig → List ℕ → List (List ℕ) → Streaks → Streaks
observe c raw frames s =
    if is_empty frames
    then record s { underfill = s.underfill + 1 }
    else if ltb (length raw) c.window_target
    then record s { underfill = s.underfill + 1; all_empty = false }
    else record s { underfill = 0; all_empty = true }

abbrev pub prefetch_end : PollerConfig → Streaks → ℤ → ℤ → ℤ
prefetch_end c s cursor now =
    let size = window_size c s in
    let size' = if s.underfill == 0 then min size c.max_window else size in
    lesser (cursor +ℤ milliseconds size') (now -ℤ milliseconds c.watermark)

unfoldable pub launch_prefetch : Source → ℤ → Poller → Poller
launch_prefetch src cursor p =
    let end = prefetch_end p.cfg p.streaks cursor src.now in
    let launched = record p {
      prefetch = some (record { cursor = cursor; end = end; result = src.export cursor end });
    } in
    elim (p.prefetch) [
      | some slot ↦ p
      | none ↦
          if ltb_ℤ (src.now -ℤ end) (milliseconds p.cfg.export_lag)
          then p
          else if ltb_ℤ cursor end
          then launched
          else p
    ]

unfoldable pub encode_frames : Compressors → ℕ → List (List ℕ) → Result (List (List ℕ))
encode_frames c typ [] = ok []
encode_frames c typ (f ∷ fs) = do fb ← encode c typ 0 f; fbs ← encode_frames c typ fs; ok (fb ∷ fbs)

-- errors.Is(err, protocol.ErrTooLarge)
abbrev pub is_too_large : ProtocolError → Bool
is_too_large payload_too_large = true
is_too_large frame_too_large = true
is_too_large e = false

abbrev pub without_prefetch : Poller → Poller
without_prefetch p = record p { prefetch = none }

abbrev pub oversize_to : ℕ → Poller → Poller
oversize_to n p = record p { streaks = record p.streaks { oversize = n } }

abbrev pub encode_failed : ProtocolError → Poller → Poller
encode_failed e p =
    if is_too_large e
    then without_prefetch (oversize_to (p.streaks.oversize + 1) p)
    else without_prefetch p

-- The cursor goes to the end of the window in the log `w`.
abbrev pub cursor_set : Poller → Step Wal (Unit {0}) → Step Poller (Unit {0})
cursor_set p (done a w) = done tt (oversize_to 0 (record p { wal = w }))
cursor_set p (failed w) = done tt (without_prefetch (record p { wal = w }))
cursor_set p panicked = panicked
cursor_set p endless = endless

abbrev pub batch_appended : Source → ℤ → Poller → Step Wal (List ℕ) → Step Poller (Unit {0})
batch_appended src end p (done seqs w) = cursor_set p (set_cursor src.clock end w)
batch_appended src end p (failed w) = done tt (without_prefetch (record p { wal = w }))
batch_appended src end p panicked = panicked
batch_appended src end p endless = endless

abbrev pub store_encoded : Source → ℤ → Poller → Result (List (List ℕ)) → Step Poller (Unit {0})
store_encoded src end p (err e) = done tt (encode_failed e p)
store_encoded src end p (ok enc) =
    batch_appended src end p (append_batch p.cfg.compression enc p.wal)

abbrev pub store_frames : Compressors → Source → ℤ → List (List ℕ) → Poller → Step Poller (Unit {0})
store_frames c src end [] p = cursor_set p (set_cursor src.clock end p.wal)
store_frames c src end (f ∷ fs) p =
    store_encoded src end p (encode_frames c p.cfg.compression (f ∷ fs))

abbrev pub export_failed : Poller → Poller
export_failed p = record p { streaks = record { underfill = 0; all_empty = true; oversize = 0 } }

-- `p` has no query sent ahead any more.
abbrev pub use_response : Compressors → Source → Poller → Fetched → Step Poller (Unit {0})
use_response c src p stopped = done tt p
use_response c src p (fetched end none) = done tt (export_failed p)
use_response c src p (fetched end (some raw)) =
    let frames = split_frames raw p.cfg.frame_lines p.cfg.frame_bytes in
    store_frames c src end frames
      (launch_prefetch src end (record p { streaks = observe p.cfg raw frames p.streaks }))

-- Near the present the source is flushed first.
abbrev pub flush_ok : Source → Poller → Bool
flush_ok src p =
    if ltb_ℤ (src.now -ℤ milliseconds p.cfg.export_lag)
      (p.wal.cp.cursor_ns +ℤ milliseconds (window_size p.cfg p.streaks))
    then src.flushed
    else true

unfoldable pub poll_once : Compressors → Source → Poller → Step Poller (Unit {0})
unfolding launch_prefetch encode_frames append_batch set_cursor split_frames
poll_once c src p =
    let cursor = p.wal.cp.cursor_ns in
    let end = window_end p.cfg p.streaks cursor src.now (flush_ok src p) in
    if ltb_ℤ cursor end
    then use_response c src (without_prefetch p) (fetch_window src cursor end p.prefetch)
    else done tt p
