-- ===== src/Wal/Recovery/Survives.antt =====
-- internal/wal/wal.go: what AppendEncoded has taken is there when the log is opened again, also where the
-- program ends in between.
use vm_sync.Base.{
  true, ◌+◌, ◌-◌, ◌<◌, ◌≡◌, ◌^◌, sym, ap, subst, ◌∙◌, arith, List, [], ◌∷◌, ◌++◌, append_assoc,
  false,
}
use vm_sync.Base.Int.{ℤ}
use vm_sync.Wal.Scan.{FrameIndex}
use vm_sync.Wal.Records.{Framed, IsFramed}
use vm_sync.Wal.State.{has_fault, Checkpoint, Wal, pending}
use vm_sync.Wal.Append.{append_encoded}
use vm_sync.Wal.Open.{readable_files, load_checkpoint, max_seq, open_wal}
use vm_sync.Wal.Outcome.{Ends, Ends-weaken}
use vm_sync.Wal.Recovery.Segments.{Segment, entries}
use vm_sync.Wal.Recovery.Reindex.{Calm}
use vm_sync.Wal.Recovery.Directory.{with_last}
use vm_sync.Wal.Recovery.Reopened.{Reopened, open_wal-Reopened}
use vm_sync.Wal.Recovery.Taken.{
  IsLogged, IsLogged-Holds, max_seq-append, IsTaken, append_encoded-Runs,
}

-- The frame waits behind the others, and a log that is opened on the directory as it is then has the same
-- frames waiting, behind those that were acknowledged but not stored as such.
pub record IsKept (before : List FrameIndex) (seg_size : ℤ) (w : Wal) (x : Framed) (v : Wal)
    : Type 0 where
  pub entry : FrameIndex
  pub waiting : pending v ≡ pending w ++ entry ∷ []
  pub header : (entry.seq ≡ x.header.seq) × (entry.typ ≡ x.header.type)
  pub reopened :
      Ends
        (λ _ u. pending u ≡ before ++ pending v)
        (λ _. has_fault v.disk.faults ≡ true)
        (open_wal readable_files false seg_size v.disk)

-- Let the directory hold what the log knows, in whole records, with the last segment open. AppendEncoded
-- of a whole frame with the next number ends without a panic, and returns an error only if one of the coming calls of the
-- system fails; of the log that an error leaves nothing is said. If it returns, the frame waits
-- behind the others; and if the program ends then, Open on the directory ends without a panic, fails only
-- if one of the calls then coming fails, and gives a log with the same frames waiting, behind those whose
-- acknowledgement the stored checkpoint does not have yet. No read of a segment file fails in Open,
-- and the numbers are below 2^64 - 1.
pub append_encoded-IsKept :
    (cp : Checkpoint) (before : List FrameIndex) (front : List Segment) (s : Segment) (seg_size : ℤ)
    (w : Wal) (x : Framed)
    → IsLogged cp before front s w
    → IsFramed x
    → x.header.seq ≡ w.cp.next_seq
    → max_seq (before ++ pending w) + 1 < 2 ^ 64
    → x.header.seq + 1 < 2 ^ 64
    → Ends
        (λ _. IsKept before seg_size w x)
        (λ _. has_fault w.disk.faults ≡ true)
        (append_encoded x.header.type x.header.seq x.bytes w)
append_encoded-IsKept cp before front s seg_size w x g framed same small low =
    Ends-weaken (λ _ v. IsTaken cp before w x v × Calm w.disk.faults v)
      (λ _. IsKept before seg_size w x) (λ _. has_fault w.disk.faults ≡ true)
      (λ _. has_fault w.disk.faults ≡ true) (append_encoded x.header.type x.header.seq x.bytes w)
      (λ _ v a. keeps v a.0) (λ _ e. e) (append_encoded-Runs cp before front s w g x framed same)
  where
    keeps : (v : Wal) → IsTaken cp before w x v → IsKept before seg_size w x v
    keeps v t = record {
      entry = t.entry;
      waiting = t.waiting;
      header = t.header;
      reopened =
          Ends-weaken (λ _. Reopened v.disk (with_last t.front t.last))
            (λ _ u. pending u ≡ before ++ pending v) (λ _. has_fault v.disk.faults ≡ true)
            (λ _. has_fault v.disk.faults ≡ true) (open_wal readable_files false seg_size v.disk)
            (λ _ u r. r.waiting ∙ all) (λ _ e. e)
            (open_wal-Reopened seg_size v.disk (with_last t.front t.last)
              (IsLogged-Holds cp before t.front t.last v t.logged)
              (subst (λ (l : List FrameIndex). max_seq l + 1 < 2 ^ 64) (sym (all ∙ more)) bound));
    }
      where
        all : entries (load_checkpoint v.disk).0 (with_last t.front t.last) ≡ before ++ pending v
        all =
            ap (λ (q : Checkpoint). entries q (with_last t.front t.last)) t.logged.stored
            ∙ t.logged.known

        more : before ++ pending v ≡ (before ++ pending w) ++ t.entry ∷ []
        more =
            ap (λ (l : List FrameIndex). before ++ l) t.waiting
            ∙ sym (append_assoc before (pending w) (t.entry ∷ []))

        bound : max_seq ((before ++ pending w) ++ t.entry ∷ []) + 1 < 2 ^ 64
        bound = omega (
          arith,
          max_seq-append (before ++ pending w) t.entry (2 ^ 64 - 1) (omega (arith, small))
              (omega (arith, low, t.header.0)),
        )
