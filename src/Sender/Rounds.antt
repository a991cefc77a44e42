-- ===== src/Sender/Rounds.antt =====
-- runPipeline of internal/sender/sender.go comes to an end with the context.
use vm_sync.Base.{
  ℕ, zero, suc, ◌-◌, ◌<◌, ◌≡◌, refl, ◌⊎◌, inl, inr, Bool, true, false, List, [], ◌∷◌, Option, none,
  some, length, arith,
}
use vm_sync.Wal.State.{Wal, FrameData, Step, done, failed, panicked, endless}
use vm_sync.Wal.Commit.{peek_batch}
use vm_sync.Sender.Backoff.{SenderConfig}
use vm_sync.Transport.Client.{Connection, Client, dialled, ensure_with, ensure_connected}
use vm_sync.Sender.Pipeline.{
  Sending, Sent, all_sent, send_failed, cancelled, unless_done, send_window, Acked, all_acked,
  send_again, read_acks, after_dial, reconnect, Outcome, returned, running, crashed, on_acked,
  on_sent, go_back_n, with_window, run_pipeline,
}
use vm_sync.Sender.Spent.{
  WithinNet, WindowWithin, AckedWithin, send_window-WindowWithin, read_acks-less,
}

dialled-less :
    (net : List (Option ℕ)) (c : Client)
    → c.net ≡ net
    → WithinNet (length net - 1) (dialled net c).1
dialled-less [] c e = rw e (omega arith)
dialled-less (none ∷ net) c e = omega arith
dialled-less (some n ∷ net) c e = omega arith

ensure_with-le : (o : Option Connection) (c : Client) → WithinNet (length c.net) (ensure_with o c).1
ensure_with-le none c = omega (arith, dialled-less c.net c refl)
ensure_with-le (some conn) c = omega arith

ensure_with-less :
    (o : Option Connection) (c : Client)
    → o ≡ none
    → WithinNet (length c.net - 1) (ensure_with o c).1
ensure_with-less none c e = dialled-less c.net c refl
ensure_with-less (some conn) c e = absurd (ground (arith, e))

after_dial-client :
    (cfg : SenderConfig) (r : Bool × Client) (s : Sending) → (after_dial cfg r s).client ≡ r.1
after_dial-client cfg (true, c) s = refl
after_dial-client cfg (false, c) s = refl

reconnect-le :
    (cfg : SenderConfig) (n : ℕ) (s : Sending)
    → WithinNet n s.client
    → WithinNet n (reconnect cfg s).client
unfolding reconnect ensure_connected
reconnect-le cfg n s h =
    rw (after_dial-client cfg (ensure_connected s.client) s)
      (omega (arith, h, ensure_with-le s.client.conn s.client))

reconnect-less :
    (cfg : SenderConfig) (n : ℕ) (s : Sending)
    → s.client.conn ≡ none
    → WithinNet n s.client
    → WithinNet (n - 1) (reconnect cfg s).client
unfolding reconnect ensure_connected
reconnect-less cfg n s e h =
    rw (after_dial-client cfg (ensure_connected s.client) s)
      (omega (arith, h, ensure_with-less s.client.conn s.client e))

abbrev pub Ends : Outcome → Type 0
Ends (returned s) = Unit
Ends (running s) = ⊥
Ends crashed = Unit

on_acked-Ends :
    (cfg : SenderConfig) (go : List FrameData → Sending → Outcome) (n : ℕ) (r : Step Sending Acked)
    → AckedWithin n r
    → ((window : List FrameData) (t : Sending) → WithinNet n t.client → Ends (go window t))
    → Ends (on_acked cfg go r)
on_acked-Ends cfg go n (done all_acked s) h k = tt
on_acked-Ends cfg go n (done (send_again []) s) h k = absurd h
on_acked-Ends cfg go n (done (send_again (f ∷ fs)) s) h k =
    k (f ∷ fs) (reconnect cfg s) (reconnect-le cfg n s h)
on_acked-Ends cfg go n (failed s) h k = tt
on_acked-Ends cfg go n panicked h k = tt
on_acked-Ends cfg go n endless h k = tt

on_sent-Ends :
    (cfg : SenderConfig) (clock : ℕ → ℕ) (go : List FrameData → Sending → Outcome) (n : ℕ)
    (f : FrameData) (fs : List FrameData) (r : Sent × Sending)
    → WindowWithin n r
    → ((window : List FrameData) (t : Sending) → WithinNet (n - 1) t.client → Ends (go window t))
    → Ends (on_sent cfg clock go (f ∷ fs) r)
on_sent-Ends cfg clock go n f fs (cancelled, s) h k = tt
on_sent-Ends cfg clock go n f fs (send_failed [], s) h k = absurd h
on_sent-Ends cfg clock go n f fs (send_failed (g ∷ gs), s) h k =
    k (g ∷ gs) (reconnect cfg s) (reconnect-less cfg n s h.0 h.1)
on_sent-Ends cfg clock go n f fs (all_sent, s) h k =
    on_acked-Ends cfg go (n - 1) _ (read_acks-less cfg clock n f fs s h.0 h.1) k

no_window :
    (fuel : ℕ) (cfg : SenderConfig) (clock : ℕ → ℕ) (s : Sending)
    → Ends (go_back_n (suc fuel) cfg clock [] s)
unfolding go_back_n send_window read_acks
no_window fuel cfg clock s = tt

net-cases : (net : List (Option ℕ)) → (net ≡ []) ⊎ (0 < length net)
net-cases [] = inl refl
net-cases (e ∷ net) = inr (omega arith)

-- The context has ended.
unless_done-Ends :
    (cfg : SenderConfig) (clock : ℕ → ℕ) (go : List FrameData → Sending → Outcome)
    (window : List FrameData) (net : List (Option ℕ)) (s : Sending) (r : Sent × Sending)
    → net ≡ []
    → Ends (on_sent cfg clock go window (unless_done net s r))
unless_done-Ends cfg clock go window [] s r e = tt
unless_done-Ends cfg clock go window (n ∷ net) s r e = absurd (ground (arith, e))

on_cancelled-Ends :
    (cfg : SenderConfig) (clock : ℕ → ℕ) (go : List FrameData → Sending → Outcome) (f : FrameData)
    (fs : List FrameData) (s : Sending)
    → s.client.net ≡ []
    → Ends (on_sent cfg clock go (f ∷ fs) (send_window cfg true (f ∷ fs) s))
unfolding send_window
on_cancelled-Ends cfg clock go f fs s e = unless_done-Ends cfg clock go (f ∷ fs) s.client.net s _ e

go_back_n-Ends :
    (fuel : ℕ) (cfg : SenderConfig) (clock : ℕ → ℕ) (window : List FrameData) (s : Sending)
    → length s.client.net < fuel
    → Ends (go_back_n fuel cfg clock window s)
unfolding go_back_n
go_back_n-Ends zero cfg clock window s h = absurd (omega (arith, h))
go_back_n-Ends (suc fuel) cfg clock [] s h = no_window fuel cfg clock s
go_back_n-Ends (suc fuel) cfg clock (f ∷ fs) s h = elim (net-cases s.client.net) [
  | inl e ↦ on_cancelled-Ends cfg clock (go_back_n fuel cfg clock) f fs s e
  | inr more ↦
      on_sent-Ends cfg clock (go_back_n fuel cfg clock) (length s.client.net) f fs _
        (send_window-WindowWithin cfg f fs s)
        λ window t k. go_back_n-Ends fuel cfg clock window t (omega (arith, h, more, k))
]

with_window-Ends :
    (fuel : ℕ) (cfg : SenderConfig) (clock : ℕ → ℕ) (fd : FrameData) (s : Sending)
    (r : Step Wal (List FrameData))
    → length s.client.net < fuel
    → Ends (with_window fuel cfg clock fd s r)
with_window-Ends fuel cfg clock fd s (done window w) h =
    go_back_n-Ends fuel cfg clock window (record s { wal = w }) h
with_window-Ends fuel cfg clock fd s (failed w) h =
    go_back_n-Ends fuel cfg clock (fd ∷ []) (record s { wal = w }) h
with_window-Ends fuel cfg clock fd s panicked h = tt
with_window-Ends fuel cfg clock fd s endless h = tt

-- The loop of runPipeline needs no more rounds than the network has calls in store and one: every
-- round that does not return uses a call up, and with none left the context has ended.
pub run_pipeline-Ends :
    (fuel : ℕ) (cfg : SenderConfig) (clock : ℕ → ℕ) (fd : FrameData) (s : Sending)
    → length s.client.net < fuel
    → Ends (run_pipeline fuel cfg clock fd s)
unfolding run_pipeline
run_pipeline-Ends fuel cfg clock fd s h =
    with_window-Ends fuel cfg clock fd s (peek_batch cfg.pipeline s.wal) h
