-- ===== src/Receiver/Window.antt =====
-- dedupRecord and dedupHit of internal/receiver/receiver.go: the checksums of the frames that were
-- handled last, oldest first.
use vm_sync.Base.{ℕ, ◌≤◌, ◌≡◌, List, [], ◌∷◌, ◌++◌, none, some}
use vm_sync.Base.{Distinct, Bool, false, ltb, ◌==◌, if◌then◌else◌, length, contains}
use vm_sync.Base.Maps

abbrev pub dedup_window_cap : ℕ
dedup_window_cap = 4096

pub record Window : Type 0 where
  pub dedup_seq : List ℕ
  pub dedup_crc : List (ℕ × ℕ)

abbrev pub empty_window : Window
empty_window = record { dedup_seq = []; dedup_crc = [] }

-- The oldest entry goes when the queue is over the cap.
unfoldable pub evict : List ℕ → List (ℕ × ℕ) → Window
evict [] crcs = record { dedup_seq = []; dedup_crc = crcs }
evict (oldest ∷ rest) crcs =
    if ltb dedup_window_cap (length (oldest ∷ rest))
    then record { dedup_seq = rest; dedup_crc = Maps.remove oldest crcs }
    else record { dedup_seq = oldest ∷ rest; dedup_crc = crcs }

unfoldable pub enqueue : Window → ℕ → Window
unfolding evict
enqueue w seq = elim (Maps.get seq w.dedup_crc) [
  | some crc ↦ w
  | none ↦ evict (w.dedup_seq ++ (seq ∷ [])) w.dedup_crc
]

unfoldable pub dedup_record : Window → ℕ → ℕ → Window
unfolding enqueue
dedup_record w seq crc =
    let w' = enqueue w seq in record w' { dedup_crc = Maps.put seq crc w'.dedup_crc }

unfoldable pub dedup_hit : Window → ℕ → ℕ → Bool
dedup_hit w seq crc = elim (Maps.get seq w.dedup_crc) [ some c ↦ c == crc | none ↦ false ]

-- The queue holds the keys of the map, each once, within the cap.
pub record IsWindow (w : Window) : Type 0 where
  pub keys : (x : ℕ) → Maps.has x w.dedup_crc ≡ contains x w.dedup_seq
  pub distinct : Distinct w.dedup_seq
  pub bounded : length w.dedup_seq ≤ dedup_window_cap
