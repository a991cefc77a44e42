-- ===== src/Wal/Recovery/Relisted.antt =====
-- Open of internal/wal/wal.go keeps the segment files and the stored checkpoint, and goes on with the last file.
use vm_sync.Base.{ℕ, ◌≡◌, refl, List, true, false, contains}
use vm_sync.Base.Int.{ℤ}
use vm_sync.Wal.State.{Wal, Disk, Step, and_then, call}
use vm_sync.Wal.Append.{rotate}
use vm_sync.Wal.Open.{
  readable_files, scan_segments, restore_next_seq, last_segment_idx, load_checkpoint, fresh,
  open_wal,
}
use vm_sync.Wal.Outcome.{Ends}
use vm_sync.Wal.Recovery.Named.{IsNamed, last_segment_idx-IsNamed}
use vm_sync.Wal.Recovery.Relist.{
  Named, Keeps, then_, call-Keeps, scan_segments-Keeps, Placed, rotate-Keeps, restore-Named,
}

module _ (n : ℕ) (names : List ℕ) (seg_size : ℤ) (d : Disk) where
  abbrev start_of : ℕ
  start_of = (load_checkpoint d).0.seg_start

  abbrev RunsTo : (Wal → Type 0) → Step Wal (Unit {0}) → Type 0
  RunsTo P s = Keeps start_of n names d.checkpoint P s

  abbrev There : Wal → Type 0
  There = Placed start_of n names d.checkpoint

  abbrev Ready : Wal → Type 0
  Ready w = Named start_of n names d.checkpoint w × (w.cp.seg_start ≡ start_of)

  calls :
      (w : Wal) (f : Wal → Step Wal (Unit {0}))
      → ((u : Wal) → Ready u → RunsTo There (f u))
      → Ready w
      → RunsTo There (and_then (call w) (λ _. f))
  calls w f k l =
      then_ start_of n names d.checkpoint Ready There (call w) f
        (call-Keeps start_of n names d.checkpoint Ready w (λ gs. l) l) k

  abbrev to_last : Wal → Step Wal (Unit {0})
  to_last w = rotate (record w { cur_seg = last_segment_idx w })

  abbrev number_on : Wal → Step Wal (Unit {0})
  number_on w = and_then (call (restore_next_seq w)) (λ _. to_last)

  scanning :
      (w : Wal)
      → contains n names ≡ true
      → Ready w
      → RunsTo There (and_then (scan_segments readable_files w) (λ _. number_on))
  scanning w h l =
      then_ start_of n names d.checkpoint (Named start_of n names d.checkpoint) There
        (scan_segments readable_files w) number_on
        (scan_segments-Keeps start_of n names d.checkpoint w l.1 l.0)
        (λ u m.
          let o = restore-Named start_of n names d.checkpoint u m in
          then_ start_of n names d.checkpoint (Named start_of n names d.checkpoint) There
            (call (restore_next_seq u)) to_last
            (call-Keeps start_of n names d.checkpoint (Named start_of n names d.checkpoint)
              (restore_next_seq u) (λ gs. o) o)
            (λ v p.
              rotate-Keeps start_of n names d.checkpoint (record v { cur_seg = last_segment_idx v })
                h (p, last_segment_idx-IsNamed start_of n names v p.0 h)))

  pub open_wal-Placed :
      IsNamed start_of n names d.files
      → contains n names ≡ true
      → Ends
          (λ _. Placed (load_checkpoint d).0.seg_start n names d.checkpoint)
          (λ _. Unit {0})
          (open_wal readable_files false seg_size d)
  unfolding open_wal fresh
  open_wal-Placed named h =
      calls (fresh seg_size d) (λ w. and_then (call w) (λ _ u. and_then (call u) (λ _. scan)))
        (λ w. calls w (λ u. and_then (call u) (λ _. scan)) (λ u. calls u scan (λ v. scanning v h)))
        ((named, refl), refl)
    where
      scan : Wal → Step Wal (Unit {0})
      scan w = and_then (scan_segments readable_files w) (λ _. number_on)
