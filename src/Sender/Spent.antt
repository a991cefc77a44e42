-- ===== src/Sender/Spent.antt =====
-- runPipeline of internal/sender/sender.go: sending a window and reading its answers use up calls of
-- the network.
use vm_sync.Base.{
  ℕ, ◌-◌, ◌≤◌, ◌≡◌, refl, Bool, true, false, List, [], ◌∷◌, Option, none, some, length, drop,
  if◌then◌else◌, arith, ◌==◌,
}
use vm_sync.Protocol.Frame.{ack_success, ack_fail}
use vm_sync.Wal.State.{Wal, FrameData, Step, done, failed, panicked, endless}
use vm_sync.Sender.Backoff.{SenderConfig}
use vm_sync.Transport.Client.{
  Connection, Client, write_loop, after_write, send_on, send_frame, read_byte, wait_on, wait_ack,
  close_client,
}
use vm_sync.Sender.Pipeline.{
  Sending, with_client, Sent, all_sent, send_failed, cancelled, after_send, pause, unless_done,
  send_window, Acked, all_acked, send_again, committed, took, after_wait, read_acks,
}

-- Nothing of the network is won back; a step that needs the network uses some of it up.
abbrev pub WithinNet : ℕ → Client → Type 0
WithinNet n c = length c.net ≤ n

write_loop-le :
    (frame_bytes : List ℕ) (net : List (Option ℕ))
    → length (write_loop frame_bytes net).1 ≤ length net
unfolding write_loop
write_loop-le [] net = omega arith
write_loop-le (b ∷ bs) [] = omega arith
write_loop-le (b ∷ bs) (none ∷ net) = omega arith
write_loop-le (b ∷ bs) (some n ∷ net) = omega (arith, write_loop-le (drop n (b ∷ bs)) net)

-- The connection that a call leaves.
abbrev pub IsUp : Option Connection → Type 0
IsUp none = ⊥
IsUp (some conn) = Unit

abbrev SentWithin : ℕ → Bool × Client → Type 0
SentWithin n (true, c) = IsUp c.conn × WithinNet n c
SentWithin n (false, c) = (c.conn ≡ none) × WithinNet n c

after_write-SentWithin :
    (n : ℕ) (frame_bytes : List ℕ) (conn : Connection) (r : Bool × List (Option ℕ))
    → length r.1 ≤ n
    → SentWithin n (after_write frame_bytes conn r)
after_write-SentWithin n frame_bytes conn (true, net) h = (tt, h)
after_write-SentWithin n frame_bytes conn (false, net) h = (refl, h)

send_on-SentWithin :
    (o : Option Connection) (frame_bytes : List ℕ) (c : Client)
    → c.conn ≡ o
    → SentWithin (length c.net) (send_on o frame_bytes c)
unfolding send_on
send_on-SentWithin none frame_bytes c e = (e, omega arith)
send_on-SentWithin (some conn) frame_bytes c e =
    after_write-SentWithin (length c.net) frame_bytes conn (write_loop frame_bytes c.net)
      (write_loop-le frame_bytes c.net)

abbrev pub WindowWithin : ℕ → Sent × Sending → Type 0
WindowWithin n (all_sent, s) = IsUp s.client.conn × WithinNet n s.client
WindowWithin n (send_failed [], s) = ⊥
WindowWithin n (send_failed (f ∷ fs), s) = (s.client.conn ≡ none) × WithinNet n s.client
WindowWithin n (cancelled, s) = Unit

after_send-WindowWithin :
    (cfg : SenderConfig) (go : Sending → Sent × Sending) (f : FrameData) (fs : List FrameData)
    (n : ℕ) (r : Bool × Client) (s : Sending)
    → SentWithin n r
    → ((t : Sending) → IsUp t.client.conn → WithinNet n t.client → WindowWithin n (go t))
    → WindowWithin n (after_send cfg go (f ∷ fs) r s)
after_send-WindowWithin cfg go f fs n (true, c) s h k = k (with_client c s) h.0 h.1
after_send-WindowWithin cfg go f fs n (false, c) s h k = h

unless_done-WindowWithin :
    (net : List (Option ℕ)) (n : ℕ) (s : Sending) (r : Sent × Sending)
    → WindowWithin n r
    → WindowWithin n (unless_done net s r)
unless_done-WindowWithin [] n s r h = tt
unless_done-WindowWithin (e ∷ net) n s r h = h

SentWithin-le : (n m : ℕ) (r : Bool × Client) → n ≤ m → SentWithin n r → SentWithin m r
SentWithin-le n m (true, c) h k = (k.0, omega (arith, h, k.1))
SentWithin-le n m (false, c) h k = (k.0, omega (arith, h, k.1))

send_rest-WindowWithin :
    (cfg : SenderConfig) (first : Bool) (n : ℕ) (fs : List FrameData) (s : Sending)
    → IsUp s.client.conn
    → WithinNet n s.client
    → WindowWithin n (send_window cfg first fs s)
unfolding send_window send_frame
send_rest-WindowWithin cfg first n [] s up h = (up, h)
send_rest-WindowWithin cfg first n (f ∷ fs) s up h = unless_done-WindowWithin s.client.net n s _ (
    after_send-WindowWithin cfg (send_window cfg false fs) f fs n _ (pause cfg first s)
      (SentWithin-le _ n _ h (send_on-SentWithin s.client.conn f.bytes s.client refl))
      (send_rest-WindowWithin cfg false n fs))

pub send_window-WindowWithin :
    (cfg : SenderConfig) (f : FrameData) (fs : List FrameData) (s : Sending)
    → WindowWithin (length s.client.net) (send_window cfg true (f ∷ fs) s)
unfolding send_window send_frame
send_window-WindowWithin cfg f fs s =
    unless_done-WindowWithin s.client.net (length s.client.net) s _ (
      after_send-WindowWithin cfg (send_window cfg false fs) f fs (length s.client.net) _
        (pause cfg true s) (send_on-SentWithin s.client.conn f.bytes s.client refl)
        (send_rest-WindowWithin cfg false (length s.client.net) fs))

abbrev pub AckedWithin : ℕ → Step Sending Acked → Type 0
AckedWithin n (done all_acked s) = Unit
AckedWithin n (done (send_again []) s) = ⊥
AckedWithin n (done (send_again (f ∷ fs)) s) = WithinNet n s.client
AckedWithin n (failed s) = Unit
AckedWithin n panicked = Unit
AckedWithin n endless = Unit

committed-AckedWithin :
    (go : Sending → Step Sending Acked) (n : ℕ) (s : Sending) (r : Step Wal (Unit {0}))
    → WithinNet n s.client
    → ((t : Sending) → WithinNet n t.client → AckedWithin n (go t))
    → AckedWithin n (committed go s r)
committed-AckedWithin go n s (done a w) h k = k _ h
committed-AckedWithin go n s (failed w) h k = k _ h
committed-AckedWithin go n s panicked h k = tt
committed-AckedWithin go n s endless h k = tt

AckedWithin-if :
    (n : ℕ) (b : Bool) (r r' : Step Sending Acked)
    → AckedWithin n r
    → AckedWithin n r'
    → AckedWithin n (if b then r else r')
AckedWithin-if n true r r' h k = h
AckedWithin-if n false r r' h k = k

after_wait-AckedWithin :
    (cfg : SenderConfig) (clock : ℕ → ℕ) (go : Sending → Step Sending Acked) (f : FrameData)
    (fs : List FrameData) (n : ℕ) (r : Option ℕ × Client) (s : Sending)
    → WithinNet n r.1
    → ((t : Sending) → WithinNet n t.client → AckedWithin n (go t))
    → AckedWithin n (after_wait cfg clock go (f ∷ fs) f r s)
unfolding close_client
after_wait-AckedWithin cfg clock go f fs n (none, c) s h k = h
after_wait-AckedWithin cfg clock go f fs n (some ack, c) s h k =
    AckedWithin-if n (ack == ack_success) _ _ (committed-AckedWithin go n (took c f ack s) _ h k)
      (AckedWithin-if n (ack == ack_fail) _ _ h h)

read_byte-less :
    (conn : Connection) (net : List (Option ℕ)) → WithinNet (length net - 1) (read_byte conn net).1
read_byte-less conn [] = omega arith
read_byte-less conn (none ∷ net) = omega arith
read_byte-less conn (some ack ∷ net) = omega arith

wait_on-less :
    (o : Option Connection) (c : Client) → IsUp o → WithinNet (length c.net - 1) (wait_on o c).1
wait_on-less none c up = absurd up
wait_on-less (some conn) c up = read_byte-less conn c.net

wait_on-le : (o : Option Connection) (c : Client) → WithinNet (length c.net) (wait_on o c).1
wait_on-le none c = omega arith
wait_on-le (some conn) c = omega (arith, read_byte-less conn c.net)

read_acks-le :
    (cfg : SenderConfig) (clock : ℕ → ℕ) (n : ℕ) (fs : List FrameData) (s : Sending)
    → WithinNet n s.client
    → AckedWithin n (read_acks cfg clock fs s)
unfolding read_acks wait_ack
read_acks-le cfg clock n [] s h = tt
read_acks-le cfg clock n (f ∷ fs) s h =
    after_wait-AckedWithin cfg clock (read_acks cfg clock fs) f fs n (wait_ack s.client) s
      (omega (arith, h, wait_on-le s.client.conn s.client)) (read_acks-le cfg clock n fs)

pub read_acks-less :
    (cfg : SenderConfig) (clock : ℕ → ℕ) (n : ℕ) (f : FrameData) (fs : List FrameData) (s : Sending)
    → IsUp s.client.conn
    → WithinNet n s.client
    → AckedWithin (n - 1) (read_acks cfg clock (f ∷ fs) s)
unfolding read_acks wait_ack
read_acks-less cfg clock n f fs s up h =
    after_wait-AckedWithin cfg clock (read_acks cfg clock fs) f fs (n - 1) (wait_ack s.client) s
      (omega (arith, h, wait_on-less s.client.conn s.client up)) (read_acks-le cfg clock (n - 1) fs)
