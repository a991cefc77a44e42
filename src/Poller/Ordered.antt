-- ===== src/Poller/Ordered.antt =====
-- pollOnce of internal/sender/poller.go: the log comes before the cursor.
use vm_sync.Base.{ℕ, ◌≡◌, ◌⊎◌, List, [], true, some}
use vm_sync.Base.Int.{ℤ, ltb_ℤ, ◌≤ℤ◌}
use vm_sync.Protocol.Frame.{ok}
use vm_sync.Protocol.Codec.{Compressors}
use vm_sync.Wal.State.{Wal, Step, done, failed, panicked, endless}
use vm_sync.Wal.Append.{append_batch}
use vm_sync.Wal.Outcome.{Ends}
use vm_sync.Poller.Window.{window_end}
use vm_sync.Poller.Split.{split_frames}
use vm_sync.Poller.Once.{Poller, Source, Fetched, fetched, fetch_window, flush_ok, encode_frames}

abbrev cursor : Poller → ℤ
cursor p = p.wal.cp.cursor_ns

-- The frames of the log and its files are the same.
abbrev pub SameFrames : Wal → Wal → Type 0
SameFrames v w = (w.index ≡ v.index) × ((w.acked ≡ v.acked) × (w.disk.files ≡ v.disk.files))

-- What storing the frames of a window that ends at `end` can do to the cursor.
data Stored (c : Compressors) (end : ℤ) (frames : List (List ℕ)) (typ : ℕ) (w : Wal) (p' : Poller)
    : Type 0 where
  stays : cursor p' ≡ w.cp.cursor_ns → Stored c end frames typ w p'
  empties : frames ≡ [] → cursor p' ≡ end → SameFrames w p'.wal → Stored c end frames typ w p'
  stores :
      (enc : List (List ℕ)) (seqs : List ℕ) (v : Wal)
      → encode_frames c typ frames ≡ ok enc
      → append_batch typ enc w ≡ done seqs v
      → cursor p' ≡ end
      → SameFrames v p'.wal
      → Stored c end frames typ w p'

abbrev pub Polling : (Poller → Type 0) → Step Poller (Unit {0}) → Type 0
Polling P (done a p) = P p
Polling P (failed p) = ⊥
Polling P panicked = ⊥
Polling P endless = ⊥

-- Both ends of set_cursor, from a log `v`.
abbrev Set : ℤ → Wal → Step Wal (Unit {0}) → Type 0
Set end v =
    Ends (λ _ w'. (w'.cp.cursor_ns ≡ end) × (v.cp.cursor_ns ≤ℤ end))
      (λ w'.
        (ltb_ℤ end v.cp.cursor_ns ≡ true × (w' ≡ v))
        ⊎ ((w'.cp.cursor_ns ≡ end) × (v.cp.cursor_ns ≤ℤ end)))

module _ (c : Compressors) (src : Source) (end : ℤ) (q : Poller) where
  abbrev typ : ℕ
  typ = q.cfg.compression

-- The frames of a response are all in the log of `p'`: there are none, and the log has the frames of
-- `p`; or they were appended to that in one batch, and the log has the frames that this has given.
pub data IsLogged (c : Compressors) (p p' : Poller) (frames : List (List ℕ)) : Type 0 where
  nothing : frames ≡ [] → SameFrames p.wal p'.wal → IsLogged c p p' frames
  logged :
      (enc : List (List ℕ)) (seqs : List ℕ) (v : Wal)
      → encode_frames c p.cfg.compression frames ≡ ok enc
      → append_batch p.cfg.compression enc p.wal ≡ done seqs v
      → SameFrames v p'.wal
      → IsLogged c p p' frames

-- The window that the round asks for, with the response.
abbrev pub window : Source → Poller → Fetched
window src p =
    fetch_window src p.wal.cp.cursor_ns
      (window_end p.cfg p.streaks p.wal.cp.cursor_ns src.now (flush_ok src p)) p.prefetch

pub data Polled (c : Compressors) (src : Source) (p p' : Poller) : Type 0 where
  stayed : p'.wal.cp.cursor_ns ≡ p.wal.cp.cursor_ns → Polled c src p p'
  moved :
      (end : ℤ) (raw : List ℕ)
      → window src p ≡ fetched end (some raw)
      → IsLogged c p p' (split_frames raw p.cfg.frame_lines p.cfg.frame_bytes)
      → p'.wal.cp.cursor_ns ≡ end
      → Polled c src p p'
