-- ===== src/Receiver/Restart.antt =====
-- New of internal/receiver/receiver.go: a receiver that starts with the last sequence number of the
-- file.
use vm_sync.Base.{
  ℕ, ◌+◌, ◌^◌, ◌<◌, ◌≡◌, refl, sym, ◌∙◌, subst, Bool, true, false, List, [], Option, none, some,
  if◌then◌else◌, arith,
}
use vm_sync.Base.Int.{ℤ, pos, negsuc}
use vm_sync.Receiver.Tracker.{new_seq_tracker, init, seq_jump_limit}
use vm_sync.Receiver.Window.{empty_window}
use vm_sync.Receiver.State.{Config, Receiver}
use vm_sync.Receiver.History.{track, AllDone, IsNear, track-Explained}
use vm_sync.Receiver.Saved.{SeqDir, SaveEnv, save_last_seq, load_last_seq}
use vm_sync.Receiver.Restored.{Restores, load_last_seq-save_last_seq}

-- A file with a negative number, which saveLastSeq writes only for numbers from 2^63 on, is outside
-- the model, whose last_seq is not negative.
pub data Started (S : Type 0) : Type 0 where
  refused : Started S
  outside : Started S
  started : (r : Receiver S) → Started S

module _ {S : Type 0} where
  abbrev pub new_state : Config → S → Receiver S
  new_state cfg relay = record {
    cfg = cfg;
    last_seq = 0;
    seq_ord = new_seq_tracker;
    inflight_seq = [];
    gap_warned = 0;
    gap_warned_at = 0;
    dedup = empty_window;
    persist_at = 0;
    saved = none;
    metrics = record {
      recv = 0;
      dup = 0;
      inflight = 0;
      write_ok = 0;
      write_fail = 0;
      poison = 0;
      dlq = 0;
      relay_dlq = 0;
    };
    imported = [];
    dead_letters = [];
    relay_letters = [];
    reported_ts = none;
    relay = relay;
  }

  unfoldable pub restored : Receiver S → Option ℤ → Started S
  unfolding init
  restored r none = refused
  restored r (some (negsuc n)) = outside
  restored r (some (pos n)) = started (record r { last_seq = n; seq_ord = init r.seq_ord n })

  unfoldable pub new : Config → S → Bool → SeqDir → Started S
  unfolding restored load_last_seq
  new cfg relay readable d =
      if cfg.last_seq_file
      then restored (new_state cfg relay) (load_last_seq readable d)
      else started (new_state cfg relay)

  -- The start works, and everything up to the number that it begins with has finished.
  abbrev pub Resumes : ℕ → List ℕ → Started S → Type 0
  Resumes v ss refused = ⊥
  Resumes v ss outside = ⊥
  Resumes v ss (started r) = AllDone v r.last_seq ss × (r.seq_ord.last ≡ r.last_seq)

  restored-Resumes :
      (v n : ℕ) (ss : List ℕ) (r : Receiver S) (o : Option ℤ)
      → o ≡ some (pos n)
      → AllDone v n ss
      → Resumes v ss (restored r o)
  unfolding restored init
  restored-Resumes v n ss r o e done =
      subst (λ (p : Option ℤ). Resumes v ss (restored r p)) (sym e) (done, refl)

  -- After the saving, whether it has worked or not.
  either_way :
      (v m n : ℕ) (ss : List ℕ) (d : SeqDir) (r : Receiver S) (saved : Bool × SeqDir)
      → load_last_seq true d ≡ some (pos m)
      → AllDone v m ss
      → AllDone v n ss
      → Restores n d saved
      → Resumes v ss (restored r (load_last_seq true saved.1))
  either_way v m n ss d r (true, d') old before now e = restored-Resumes v n ss r _ e now
  either_way v m n ss d r (false, d') old before now e =
      restored-Resumes v m ss r _ (e ∙ old) before

  -- The prefix that a receiver has reached from `v` after frames have finished in any order is saved,
  -- and any call of the saving may fail. If the file's old number had all finished up to it, then a
  -- receiver with a file that is started next, and can read what is there, starts with a number up to
  -- which all have finished, and with the prefix at that number. The frames have to be within the jump
  -- limit, and their numbers within an int64.
  pub new-Resumes :
      (e : SaveEnv) (v m : ℕ) (ss : List ℕ) (d : SeqDir) (cfg : Config) (relay : S)
      → IsNear v ss
      → v + seq_jump_limit < 2 ^ 63
      → load_last_seq true d ≡ some (pos m)
      → AllDone v m ss
      → cfg.last_seq_file ≡ true
      → Resumes v ss (new cfg relay true (save_last_seq e (pos (track v ss).last) d).1)
  unfolding new
  new-Resumes e v m ss d cfg relay near small old before file =
      let x = track-Explained v ss near in
      subst
        (λ (b : Bool). Resumes v ss (
          if b
          then restored (new_state cfg relay)
              (load_last_seq true (save_last_seq e (pos (track v ss).last) d).1)
          else started (new_state cfg relay)))
        (sym file)
        (either_way v m (track v ss).last ss d (new_state cfg relay)
          (save_last_seq e (pos (track v ss).last) d) old before x.sound
          (load_last_seq-save_last_seq e (track v ss).last d (omega (arith, x.near, small))))
