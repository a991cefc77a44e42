-- ===== src/Examples/Handler.antt =====
-- Runs of internal/receiver on a small state.
use vm_sync.Base.{
  ℕ, ◌+◌, ◌≡◌, ◌^◌, ◌≤◌, ◌↔◌, ◌⊎◌, refl, arith, List, [], ◌∷◌, true, false, none, some,
}
use vm_sync.Protocol.Frame.{ok, is_heartbeat, ack_success}
use vm_sync.Protocol.Codec.{decode, decompress, gunzip, read_limited}
use vm_sync.Vm.Http.{Outcome, responded, import_write}
use vm_sync.Receiver.Tracker.{Tracker, done, advance, load}
use vm_sync.Receiver.Window.{empty_window, dedup_record, dedup_hit, enqueue, evict, IsWindow}
use vm_sync.Receiver.State.{
  Receiver, Env, Relay, add_inflight, remove_inflight, mark_done, advance_seq,
}
use vm_sync.Receiver.Handle.{
  count, handle_frame, accept, process, decompress_and_deliver, deliver, import_ok, check_jump,
  finish, forward, report_ts,
}
use vm_sync.Base.{trim_space}
use vm_sync.Base.Maps
use vm_sync.Receiver.Prefix.{IsTracked}
use vm_sync.Receiver.History.{track, AllDone, IsNear, track_sound}
use vm_sync.Receiver.Exact.{track_exact}
use vm_sync.Receiver.Dedup.{dedup_record-IsWindow}
use vm_sync.Receiver.Ack.{Persisted, received, ack_success-Persisted}
use vm_sync.Receiver.Retry.{duplicated, resend_is_duplicate}
use vm_sync.Base.Int.{pos}
use vm_sync.Receiver.Saved.{SeqDir, SaveEnv, save_last_seq, load_last_seq}
use vm_sync.Receiver.Restored.{Restores, load_last_seq-save_last_seq}
use vm_sync.Receiver.Restart.{Resumes, new, new-Resumes}
use vm_sync.Examples.Frames.{copying, frame, frame_bytes, decode-frame}

-- A forwarding log that takes everything.
abbrev pub counting : Relay ℕ
counting = record { append = λ typ raw n. (true, n + 1) }

abbrev pub new_receiver : Receiver ℕ
new_receiver = record {
  cfg = record {
    last_seq_file = true;
    dlq_dir = true;
    relay_wal = true;
    relay_dlq_dir = true;
    last_write_ts = false;
  };
  last_seq = 0;
  seq_ord = record { last = 0; pending = [] };
  inflight_seq = [];
  gap_warned = 0;
  gap_warned_at = 0;
  dedup = empty_window;
  persist_at = 0;
  saved = none;
  metrics = record {
    recv = 0;
    dup = 0;
    inflight = 0;
    write_ok = 0;
    write_fail = 0;
    poison = 0;
    dlq = 0;
    relay_dlq = 0;
  };
  imported = [];
  dead_letters = [];
  relay_letters = [];
  reported_ts = none;
  relay = 0;
}

abbrev answering : Outcome → Env
answering outcome = record {
  now = 10 ^ 10;
  save_ok = true;
  response = outcome;
  dlq_io = true;
  relay_dlq_io = true;
}

decode-frame_1 : decode (frame_bytes 1) ≡ ok (frame 1)
decode-frame_1 = decode-frame 1 (omega arith)

abbrev pub good : Env
good = answering (responded 204 [])

abbrev after_good : Receiver ℕ
after_good = (handle_frame counting copying new_receiver 0 (frame_bytes 1) good).0

-- The handler's answers to the frame 1 when the database takes it, and when it answers 503.
accepted : (handle_frame counting copying new_receiver 0 (frame_bytes 1) good).1 ≡ ack_success
unfolding is_heartbeat handle_frame accept process decompress_and_deliver deliver import_ok
    decompress gunzip read_limited trim_space import_write dedup_hit Maps.get
accepted = rw (decode-frame_1, handle_frame) refl

passed : 1 ≤ after_good.last_seq
unfolding is_heartbeat handle_frame accept process decompress_and_deliver deliver import_ok
    decompress gunzip read_limited trim_space import_write dedup_hit Maps.get check_jump
    add_inflight remove_inflight finish mark_done advance_seq done advance forward report_ts load
passed = rw (after_good, decode-frame_1, handle_frame) (omega arith)

abbrev overloaded : Env
overloaded = answering (responded 503 [])

ack_success-Persisted_example :
    (dedup_hit new_receiver.dedup 1 (frame 1).crc ≡ true)
    ⊎ Persisted copying new_receiver (frame 1) good after_good
unfolding is_heartbeat
ack_success-Persisted_example =
    ack_success-Persisted counting copying new_receiver 0 (frame_bytes 1) (frame 1) good
      decode-frame_1 refl accepted

resend_is_duplicate_example :
    handle_frame counting copying after_good 1 (frame_bytes 1) overloaded
    ≡ (count (count after_good received) duplicated, ack_success)
unfolding is_heartbeat
resend_is_duplicate_example =
    resend_is_duplicate counting copying new_receiver 0 (frame_bytes 1) (frame 1) good
      decode-frame_1 refl 1 overloaded accepted passed

-- Of the frames after 10 the numbers 12, 11 and 14 have finished, the last one first.
abbrev finished : List ℕ
finished = 14 ∷ 11 ∷ 12 ∷ []

finished-IsNear : IsNear 10 finished
finished-IsNear = record {
  start = omega arith;
  near = (omega arith, (omega arith, (omega arith, tt)));
}

track_sound_example : AllDone 10 (track 10 finished).last finished × (10 ≤ (track 10 finished).last)
track_sound_example = track_sound 10 finished finished-IsNear

track_exact_example : (12 ≤ (track 10 finished).last) ↔ ((12 ≤ 10) ⊎ AllDone 10 12 finished)
track_exact_example = track_exact 10 12 finished finished-IsNear (omega arith)

abbrev waiting : Tracker
waiting = record { last = 10; pending = 12 ∷ 11 ∷ [] }

waiting-IsTracked : IsTracked waiting
waiting-IsTracked = record { last_u64 = omega arith; beyond = λ x h. ground (arith, h) }

empty-IsWindow : IsWindow empty_window
unfolding Maps.get
empty-IsWindow = record { keys = λ x. refl; distinct = tt; bounded = omega arith }

dedup_record-IsWindow_example : IsWindow (dedup_record empty_window 3 77)
dedup_record-IsWindow_example = dedup_record-IsWindow empty_window 3 77 empty-IsWindow

hit_3 : dedup_hit (dedup_record empty_window 3 77) 3 77 ≡ true
unfolding dedup_record dedup_hit enqueue evict Maps.get Maps.put
hit_3 = refl

-- A disk on which every call works, and a directory with an old number.
abbrev disk_works : SaveEnv
disk_works = record {
  mkdir_ok = true;
  open_ok = true;
  cut = none;
  sync_ok = true;
  close_ok = true;
  rename_ok = true;
}

abbrev holds_41 : SeqDir
holds_41 = record { tmp = none; file = some (52 ∷ 49 ∷ 10 ∷ []) }

load_last_seq-save_last_seq_example :
    Restores 7025 holds_41 (save_last_seq disk_works (pos 7025) holds_41)
load_last_seq-save_last_seq_example =
    load_last_seq-save_last_seq disk_works 7025 holds_41 (omega arith)

load_old : load_last_seq true holds_41 ≡ some (pos 41)
unfolding load_last_seq trim_space
load_old = refl

save_7025 :
    save_last_seq disk_works (pos 7025) holds_41
    ≡ (true, record { tmp = none; file = some (55 ∷ 48 ∷ 50 ∷ 53 ∷ 10 ∷ []) })
unfolding save_last_seq
save_7025 = refl

-- The write of the new number stops after its first digit.
abbrev disk_full : SaveEnv
disk_full = record disk_works { cut = some 1 }

abbrev holds_10 : SeqDir
holds_10 = record { tmp = none; file = some (49 ∷ 48 ∷ 10 ∷ []) }

load_10 : load_last_seq true holds_10 ≡ some (pos 10)
unfolding load_last_seq trim_space
load_10 = refl

new-Resumes_example : Resumes {S = ℕ} 10 finished (
    new new_receiver.cfg 0 true (save_last_seq disk_full (pos (track 10 finished).last) holds_10).1)
new-Resumes_example =
    new-Resumes disk_full 10 10 finished holds_10 new_receiver.cfg 0 finished-IsNear (omega arith)
      load_10 (λ x lo hi. absurd (omega (arith, lo, hi))) refl
