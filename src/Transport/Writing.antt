-- ===== src/Transport/Writing.antt =====
-- The steps of the handlers and of the writer of tcp_server.go.
use vm_sync.Base.{
  ℕ, suc, ◌<◌, ◌≡◌, refl, ap, sym, subst, Bool, true, false, [], ◌∷◌, ◌++◌, Option, none, some,
  arith, if◌then◌else◌, Bool-cases, inl, inr,
}
use vm_sync.Base.Maps.{get, put, remove, get-put, get-remove}
use vm_sync.Transport.Pipeline.{
  set_result, gave_up, asleep, next_result, result_found, close_pipeline, advance_next,
}
use vm_sync.Transport.Serial.{Serial, Serves, next, reply}
use vm_sync.Transport.Serving.{
  Writer, fetching, holding, written, stopped, Serving, write_ack, is_running, handler_step,
  on_result, write_step,
}
use vm_sync.Transport.View.{
  answered_by, view, Below-end_call, Below-is_running, InHand, IsServing, Follows,
}

module _ (limit : ℕ) (answer : ℕ → ℕ) where
  -- A handler's result is kept under its frame's number.
  pub Follows-handler :
      (i : ℕ) (s : Serving)
      → IsServing answer s
      → Follows limit answer s (handler_step i (answer i) s)
  unfolding handler_step set_result
  Follows-handler i s h = elim (Bool-cases (is_running i s.calls)) [
    | inl e ↦ rw e (
      record {
        running = Below-end_call s.idx i s.calls h.running;
        kept = λ j ack found. put-kept j ack (Below-is_running s.idx i s.calls h.running e) found;
        counted = h.counted;
        hand = h.hand;
      },
      λ x r. r,
    )
    | inr e ↦ rw e (h, λ x r. r)
  ]
    where
      put-kept :
          (j ack : ℕ)
          → i < s.idx
          → get j (put i (answer i) s.pipe.results) ≡ some ack
          → (j < s.idx) × (ack ≡ answer j)
      put-kept j ack below found =
          ground (arith, below, found, get-put i j (answer i) s.pipe.results, h.kept j ack)

  Follows-no_result :
      (closed : Bool) (s : Serving)
      → IsServing answer s
      → s.writer ≡ fetching
      → Follows limit answer s (on_result (if closed then gave_up else asleep) s)
  unfolding on_result
  Follows-no_result true s h w = (
    record { running = h.running; kept = h.kept; counted = h.counted; hand = (tt, tt) },
    λ x r. subst (λ v. Serves limit answer x (view (record s { writer = v }))) w r,
  )
  Follows-no_result false s h w = (h, λ x r. r)

  Follows-result :
      (r : Option ℕ) (s : Serving)
      → IsServing answer s
      → s.writer ≡ fetching
      → get s.write_idx s.pipe.results ≡ r
      → Follows limit answer s (on_result (result_found s.write_idx s.pipe r) s)
  unfolding on_result
  Follows-result (some ack) s h w e = (
    record {
      running = h.running;
      kept = λ j b found. remove-kept j b found;
      counted = h.counted;
      hand = ((h.kept s.write_idx ack e).1, (h.kept s.write_idx ack e).0);
    },
    λ x r. subst (λ v. Serves limit answer x v) (ap from_writer w) r,
  )
    where
      remove-kept :
          (j b : ℕ)
          → get j (remove s.write_idx s.pipe.results) ≡ some b
          → (j < s.idx) × (b ≡ answer j)
      remove-kept j b found =
          ground (arith, found, get-remove s.write_idx j s.pipe.results, h.kept j b)

      from_writer : Writer → Serial
      from_writer w = view (record s { writer = w })
  Follows-result none s h w e = Follows-no_result s.pipe.closed s h w

  pub Follows-write :
      (sent : Bool) (s : Serving) (w : Writer)
      → IsServing answer s
      → s.writer ≡ w
      → Follows limit answer s (write_step sent w s)
  unfolding write_step next_result close_pipeline advance_next write_ack
  Follows-write sent s fetching h e = Follows-result _ s h e refl
  Follows-write true s (holding ack) h e = (
    record {
      running = h.running;
      kept = h.kept;
      counted = h.counted;
      hand = (tt, (held e h.hand).1);
    },
    λ x r. next r (reply (below e h.hand) (sent_out e (held e h.hand).0)),
  )
    where
      held :
          s.writer ≡ holding ack
          → InHand answer s.writer s.write_idx s.idx
          → (ack ≡ answer s.write_idx) × (s.write_idx < s.idx)
      held e h = subst (λ w. InHand answer w s.write_idx s.idx) e h

      below :
          s.writer ≡ holding ack
          → InHand answer s.writer s.write_idx s.idx
          → (view s).answered < s.idx
      below e h = subst (λ w. answered_by w s.write_idx < s.idx) (sym e) (held e h).1

      sent_out :
          s.writer ≡ holding ack
          → ack ≡ answer s.write_idx
          → view (record s { wire = s.wire ++ ack ∷ []; writer = written }) ≡ record (view s) {
            answered = suc (view s).answered;
            wire = s.wire ++ answer (view s).answered ∷ [];
          }
      sent_out e f = rw (ap (λ w. answered_by w s.write_idx) e, f) refl
  Follows-write false s (holding ack) h e = (
    record { running = h.running; kept = h.kept; counted = h.counted; hand = (tt, tt) },
    λ x r. subst (λ v. Serves limit answer x (view (record s { writer = v }))) e r,
  )
  Follows-write sent s written h e = (
    record { running = h.running; kept = h.kept; counted = ap suc h.counted; hand = (tt, tt) },
    λ x r. subst (λ v. Serves limit answer x (view (record s { writer = v }))) e r,
  )
  Follows-write sent s stopped h e = (h, λ x r. r)
