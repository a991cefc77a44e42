-- ===== src/Wal/Recovery/Relist.antt =====
-- scanSegments of internal/wal/wal.go: its steps keep the segment files and the stored checkpoint.
use vm_sync.Base.{
  ℕ, ◌+◌, ◌%◌, ◌^◌, ◌<◌, ◌≡◌, ◌≢◌, refl, sym, ap, subst, ◌∙◌, arith, List, [], ◌∷◌, ◌++◌, All,
  Option, Bool, true, false, if◌then◌else◌, ◌==◌, ltb, length, contains, contains-append,
  append_assoc,
}
use vm_sync.Base.Maps
use vm_sync.Wal.Scan.{all_readable, Scanned, indexed, corrupt, unfinished, index_segment}
use vm_sync.Wal.Fuel.{index_segment-ends}
use vm_sync.Wal.State.{Checkpoint, Wal, Step, done, and_then, contents, with_files, call, return}
use vm_sync.Wal.Append.{rotate, touch, attach}
use vm_sync.Wal.Open.{
  readable_files, segment_numbers, split_at, index_file, index_files, remove_files, start_from,
  scan_segments, max_seq, restore_next_seq,
}
use vm_sync.Wal.Outcome.{Ends, Ends-and_then, Ends-weaken, call-Ends}
use vm_sync.Wal.Recovery.Reindex.{after_scan}
use vm_sync.Wal.Recovery.Starting.{over}
use vm_sync.Wal.Recovery.Listing.{stale-lt}
use vm_sync.Wal.Recovery.Named.{IsNamed, IsNamed-put, IsNamed-remove}

All-self : (ks js : List ℕ) → All (λ k. contains k (js ++ ks) ≡ true) ks
All-self [] js = tt
All-self (k ∷ ks) js = (
  contains-append k js (k ∷ ks) ∙ ground arith,
  subst (λ (l : List ℕ). All (λ j. contains j l ≡ true) ks) (append_assoc js (k ∷ []) ks)
      (All-self ks (js ++ k ∷ [])),
)

module _ (start n : ℕ) (names : List ℕ) (c : Option (Checkpoint × Bool)) where
  abbrev pub Named : Wal → Type 0
  Named v = IsNamed start n names v.disk.files × (v.disk.checkpoint ≡ c)

  abbrev Among : List ℕ → Type 0
  Among ks = All (λ k. contains k names ≡ true) ks

  abbrev pub Keeps : (Wal → Type 0) → Step Wal (Unit {0}) → Type 0
  Keeps P s = Ends (λ _. P) (λ _. Unit {0}) s

  pub then_ :
      (P Q : Wal → Type 0) (s : Step Wal (Unit {0})) (f : Wal → Step Wal (Unit {0}))
      → Keeps P s
      → ((w : Wal) → P w → Keeps Q (f w))
      → Keeps Q (and_then s (λ _. f))
  then_ P Q s f h k = Ends-and_then (λ _. P) (λ _. Q) (λ _. Unit {0}) s (λ _. f) h (λ _. k)

  pub call-Keeps :
      (P : Wal → Type 0) (v : Wal)
      → ((gs : List (Option ℕ)) → P (record v { disk = record v.disk { faults = gs } }))
      → P v
      → Keeps P (call v)
  call-Keeps P v keeps h =
      Ends-weaken (λ _. P) (λ _. P) P (λ _. Unit {0}) (call v) (λ _ w p. p) (λ _ p. tt)
        (call-Ends P v h keeps)

  after_scan-Keeps :
      (k : ℕ) (w : Wal) (r : Scanned) (v : Wal)
      → contains k names ≡ true
      → r ≢ unfinished
      → Named w
      → Named v
      → Keeps Named (after_scan k w r v)
  after_scan-Keeps k w (corrupt off) v h f m l = tt
  after_scan-Keeps k w unfinished v h f m l = absurd (f refl)
  after_scan-Keeps k w (indexed kept fis) v h f m l =
      then_ Named Named
        ((if length kept == length (contents k w.disk.files) then return tt else call) v)
        (λ u.
          done tt (record (with_files (Maps.put k kept w.disk.files) u) { index = u.index ++ fis }))
        (cut (length kept == length (contents k w.disk.files)))
        (λ u o. (IsNamed-put start n names k kept w.disk.files h m.0, o.1))
    where
      cut : (b : Bool) → Keeps Named ((if b then return tt else call) v)
      cut true = l
      cut false = call-Keeps Named v (λ gs. l) l

  index_file-Keeps :
      (k : ℕ) (v : Wal)
      → contains k names ≡ true
      → Named v
      → Keeps Named (index_file readable_files k v)
  unfolding index_file
  index_file-Keeps k v h m =
      then_ Named Named (call v)
        (λ u. and_then (call u) (λ _ w.
          after_scan k w
            (index_segment all_readable (contents k w.disk.files) k
              (if k == w.cp.seg_start then w.cp.acked_bytes else 0))
            w))
        (call-Keeps Named v (λ gs. m) m)
        (λ u l.
          then_ Named Named (call u)
            (λ w.
              after_scan k w
                (index_segment all_readable (contents k w.disk.files) k
                  (if k == w.cp.seg_start then w.cp.acked_bytes else 0))
                w)
            (call-Keeps Named u (λ gs. l) l)
            (λ w o.
              after_scan-Keeps k w _ w h
                (index_segment-ends all_readable (contents k w.disk.files) k _) o o))

  index_files-Keeps :
      (ks : List ℕ) (v : Wal) → Among ks → Named v → Keeps Named (index_files readable_files ks v)
  unfolding index_files
  index_files-Keeps [] v a m = m
  index_files-Keeps (k ∷ ks) v a m =
      then_ Named Named (index_file readable_files k v) (index_files readable_files ks)
        (index_file-Keeps k v a.0 m) (λ w l. index_files-Keeps ks w a.1 l)

  remove_files-Keeps :
      (ks : List ℕ) (v : Wal) → All (λ k. k < start) ks → Named v → Keeps Named (remove_files ks v)
  unfolding remove_files
  remove_files-Keeps [] v a m = m
  remove_files-Keeps (k ∷ ks) v a m =
      then_ Named Named (call v) (λ w. remove_files ks (with_files (Maps.remove k w.disk.files) w))
        (call-Keeps Named v (λ gs. m) m)
        (λ w l.
          remove_files-Keeps ks (with_files (Maps.remove k w.disk.files) w) a.1
            (IsNamed-remove start n names k w.disk.files a.0 l.0, l.1))

  start_from-Named : (first : ℕ) (v : Wal) → Named v → Named (start_from first v)
  start_from-Named first v m = by_test (ltb v.cp.seg_start first)
    where
      by_test :
          (t : Bool)
          → Named (
              if t then record v { cp = record v.cp { seg_start = first; acked_bytes = 0 } } else v)
      by_test true = m
      by_test false = m

  over-Keeps : (ks : List ℕ) (v : Wal) → Among ks → Named v → Keeps Named (over ks v)
  over-Keeps [] v a m = m
  over-Keeps (k ∷ ks) v a m =
      then_ Named Named (index_files readable_files (k ∷ ks) (start_from k v))
        (λ u. done tt (record u { acked = 0 }))
        (index_files-Keeps (k ∷ ks) (start_from k v) a (start_from-Named k v m)) (λ u l. l)

  pub scan_segments-Keeps :
      (v : Wal) → v.cp.seg_start ≡ start → Named v → Keeps Named (scan_segments readable_files v)
  unfolding scan_segments
  scan_segments-Keeps v e m =
      then_ Starts Named (call v)
        (λ w.
          let split = split_at w.cp.seg_start (segment_numbers w.disk.files) in
          and_then (remove_files split.0 w) (λ _. over split.1))
        (call-Keeps Starts v (λ gs. (m, e)) (m, e))
        (λ w l.
          let split = split_at w.cp.seg_start (segment_numbers w.disk.files) in
          then_ Named Named (remove_files split.0 w) (over split.1)
            (remove_files-Keeps split.0 w
              (subst (λ (q : ℕ). All (λ k. k < start) (split_at q (segment_numbers w.disk.files)).0)
                (sym l.1) (stale-lt start (segment_numbers w.disk.files)))
              l.0)
            (λ u o.
              over-Keeps split.1 u
                (subst Among
                  (sym (
                    ap (λ (q : ℕ). (split_at q (segment_numbers w.disk.files)).1) l.1
                    ∙ l.0.0.alive))
                  (All-self names []))
                o))
    where
      Starts : Wal → Type 0
      Starts w = Named w × (w.cp.seg_start ≡ start)

  -- The last file is the one that is written to.
  abbrev pub Placed : Wal → Type 0
  Placed v = Named v × (v.cur_seg ≡ n)

  pub rotate-Keeps : (v : Wal) → contains n names ≡ true → Placed v → Keeps Placed (rotate v)
  unfolding rotate
  rotate-Keeps v h m =
      then_ Placed Placed (call v) (λ u. and_then (call (touch u)) (λ _ x. done tt (attach x)))
        (call-Keeps Placed v (λ gs. m) m)
        (λ u l.
          let o : Placed (touch u) = (
            (
              IsNamed-put start n names u.cur_seg (contents u.cur_seg u.disk.files) u.disk.files
                  (ap (λ (k : ℕ). contains k names) l.1 ∙ h) l.0.0,
              l.0.1,
            ),
            l.1,
          ) in
          then_ Placed Placed (call (touch u)) (λ x. done tt (attach x))
            (call-Keeps Placed (touch u) (λ gs. o) o) (λ x p. p))

  pub restore-Named : (v : Wal) → Named v → Named (restore_next_seq v)
  unfolding restore_next_seq
  restore-Named v m = by_test (ltb v.cp.next_seq ((max_seq v.index + 1) % 2 ^ 64))
    where
      by_test :
          (t : Bool)
          → Named (
              if t
              then record v { cp = record v.cp { next_seq = (max_seq v.index + 1) % 2 ^ 64 } }
              else v)
      by_test true = m
      by_test false = m
