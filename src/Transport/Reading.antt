-- ===== src/Transport/Reading.antt =====
-- The steps of the read loop of tcp_server.go.
use vm_sync.Base.{
  ℕ, suc, ◌+◌, ◌<◌, ◌≡◌, refl, ap, sym, subst, Bool, true, false, List, arith, Bool-cases, inl, inr,
}
use vm_sync.Protocol.Frame.{ack_fail, Header}
use vm_sync.Transport.Pipeline.{Wait, ready, gave_up, asleep, close_pipeline, await_inflight}
use vm_sync.Transport.Serial.{Serial, Serves, next, ask, refuse, leave as shut}
use vm_sync.Transport.Serving.{
  Reader, reading, admitting, returned, Writer, fetching, holding, written, stopped, Serving,
  Received, ended, bad_head, received, leave, write_ack, counts_as_data, take_frame, on_received,
  start_call, on_admission, read_step, hang_up_step, close_conn,
}
use vm_sync.Transport.View.{is_open, answered_by, view, Below-suc, InHand, IsServing, Follows}

module _ (limit : ℕ) (answer : ℕ → ℕ) where
  Follows-leave : (s : Serving) → IsServing answer s → Follows limit answer s (leave s)
  unfolding leave close_pipeline
  Follows-leave s h = (
    record { running = h.running; kept = h.kept; counted = h.counted; hand = h.hand },
    λ x r. next r (shut refl),
  )

  Follows-refuse :
      (sent : Bool) (s : Serving)
      → IsServing answer s
      → is_open s.reader ≡ true
      → Follows limit answer s (leave (write_ack sent ack_fail s))
  unfolding leave close_pipeline write_ack
  Follows-refuse true s h on = (
    record { running = h.running; kept = h.kept; counted = h.counted; hand = h.hand },
    λ x r. next r (refuse on refl),
  )
  Follows-refuse false s h on = Follows-leave s h

  Follows-reader :
      (s t : Serving)
      → IsServing answer s
      → is_open s.reader ≡ true
      → is_open t.reader ≡ true
      → t ≡ record s { stream = t.stream; reader = t.reader; data_idx = t.data_idx }
      → Follows limit answer s t
  Follows-reader s t h on still e = (
    rw e (record { running = h.running; kept = h.kept; counted = h.counted; hand = h.hand }),
    λ x r. subst (λ v. Serves limit answer x v) (same e) r,
  )
    where
      same :
          t ≡ record s { stream = t.stream; reader = t.reader; data_idx = t.data_idx }
          → view s ≡ view t
      same e = ground (arith, ap view e)

  Follows-take :
      (head : Header) (frame_bytes rest : List ℕ) (s : Serving)
      → IsServing answer s
      → is_open s.reader ≡ true
      → Follows limit answer s (take_frame head frame_bytes rest s)
  unfolding take_frame
  Follows-take head frame_bytes rest s h on = elim (Bool-cases (counts_as_data head)) [
    | inl e ↦ rw e (Follows-reader s _ h on refl refl)
    | inr e ↦ rw e (Follows-reader s _ h on refl refl)
  ]

  Follows-received :
      (sent : Bool) (r : Received) (s : Serving)
      → IsServing answer s
      → is_open s.reader ≡ true
      → Follows limit answer s (on_received sent r s)
  unfolding on_received
  Follows-received sent ended s h on = Follows-leave s h
  Follows-received sent bad_head s h on = Follows-refuse sent s h on
  Follows-received sent (received head frame_bytes rest) s h on =
      Follows-take head frame_bytes rest s h on

  InHand-suc : (w : Writer) (i idx : ℕ) → InHand answer w i idx → InHand answer w i (suc idx)
  InHand-suc fetching i idx h = h
  InHand-suc (holding ack) i idx h = (h.0, omega (arith, h.1))
  InHand-suc written i idx h = (tt, omega (arith, h.1))
  InHand-suc stopped i idx h = h

  Follows-start :
      (frame_idx : ℕ) (frame_bytes : List ℕ) (s : Serving)
      → IsServing answer s
      → is_open s.reader ≡ true
      → s.idx < s.pipe.next + limit
      → Follows limit answer s (start_call frame_idx frame_bytes s)
  unfolding start_call
  Follows-start frame_idx frame_bytes s h on room = (
    record {
      running = (omega arith, Below-suc s.idx s.calls h.running);
      kept = λ i ack e. (omega (arith, (h.kept i ack e).0), (h.kept i ack e).1);
      counted = h.counted;
      hand = InHand-suc s.writer s.write_idx s.idx h.hand;
    },
    λ x r. next r (ask on (within s.writer) (ap again (sym on))),
  )
    where
      within : (w : Writer) → s.idx < answered_by w s.write_idx + limit
      within w = ground (arith, room, h.counted)

      again : Bool → Serial
      again b = record {
        asked = suc s.idx;
        answered = answered_by s.writer s.write_idx;
        wire = s.wire;
        accepting = b;
      }

  -- A frame is admitted only into a window that has room.
  await_inflight-room :
      (s : Serving) (u : Unit {0})
      → await_inflight s.idx limit s.pipe ≡ ready u
      → s.idx < s.pipe.next + limit
  unfolding await_inflight
  await_inflight-room s u e = ground (arith, e)

  Follows-admission :
      (frame_idx : ℕ) (frame_bytes : List ℕ) (s : Serving) (w : Wait (Unit {0}))
      → IsServing answer s
      → is_open s.reader ≡ true
      → await_inflight s.idx limit s.pipe ≡ w
      → Follows limit answer s (on_admission frame_idx frame_bytes w s)
  unfolding on_admission
  Follows-admission frame_idx frame_bytes s (ready u) h on e =
      Follows-start frame_idx frame_bytes s h on (await_inflight-room s u e)
  Follows-admission frame_idx frame_bytes s gave_up h on e = Follows-leave s h
  Follows-admission frame_idx frame_bytes s asleep h on e = (h, λ x r. r)

  pub Follows-read :
      (sent : Bool) (s : Serving) (r : Reader)
      → IsServing answer s
      → s.reader ≡ r
      → Follows limit answer s (read_step limit sent r s)
  unfolding read_step
  Follows-read sent s reading h e = Follows-received sent _ s h (ap is_open e)
  Follows-read sent s (admitting frame_idx frame_bytes) h e =
      Follows-admission frame_idx frame_bytes s _ h (ap is_open e) refl
  Follows-read sent s returned h e = (h, λ x r. r)

  pub Follows-hang_up :
      (s : Serving) (r : Reader) → IsServing answer s → Follows limit answer s (hang_up_step r s)
  Follows-hang_up s reading h = Follows-leave s h
  Follows-hang_up s (admitting frame_idx frame_bytes) h = (h, λ x r. r)
  Follows-hang_up s returned h = (h, λ x r. r)

  pub Follows-close_conn :
      (s : Serving) (r : Reader) → IsServing answer s → Follows limit answer s (close_conn r s)
  Follows-close_conn s reading h = (h, λ x r. r)
  Follows-close_conn s (admitting frame_idx frame_bytes) h = (h, λ x r. r)
  Follows-close_conn s returned h =
      (record { running = h.running; kept = h.kept; counted = h.counted; hand = h.hand }, λ x r. r)
