-- ===== src/Transport/Settled.antt =====
-- tcp_client.go: which frame the next byte of the connection answers.
use vm_sync.Base.{
  ℕ, zero, suc, ◌≤◌, ◌≡◌, refl, ap, ◌∙◌, Bool, true, false, List, [], ◌∷◌, ◌++◌, Option, none, some,
  length, drop, first_of_drop, drop-append_le, length-append, arith,
}
use vm_sync.Transport.Client.{
  place_of, Connection, Client, dialled, ensure_with, ensure_connected, write_loop, after_write,
  send_on, send_frame, read_byte, wait_on, wait_ack,
}

-- The frames that went out on the connection and whose answers were not read.
abbrev pub Awaits : Option Connection → List (List ℕ) → Type 0
Awaits none frames = frames ≡ []
Awaits (some conn) frames = (drop conn.read conn.sent ≡ frames) × (conn.read ≤ length conn.sent)

abbrev pub IsSettled : Client → Type 0
IsSettled c = Awaits c.conn []

-- What a call of the client leaves.
abbrev pub SentOn : List (List ℕ) → List ℕ → Bool × Client → Type 0
SentOn frames frame_bytes (true, c) = Awaits c.conn (frames ++ frame_bytes ∷ [])
SentOn frames frame_bytes (false, c) = c.conn ≡ none

after_write-SentOn :
    (frames : List (List ℕ)) (frame_bytes : List ℕ) (conn : Connection) (r : Bool × List (Option ℕ))
    → Awaits (some conn) frames
    → SentOn frames frame_bytes (after_write frame_bytes conn r)
after_write-SentOn frames frame_bytes conn (true, net) h = (
  drop-append_le conn.read conn.sent (frame_bytes ∷ []) h.1
      ∙ ap (λ (l : List (List ℕ)). l ++ frame_bytes ∷ []) h.0,
  omega (arith, h.1, length-append conn.sent (frame_bytes ∷ [])),
)
after_write-SentOn frames frame_bytes conn (false, net) h = refl

send_on-SentOn :
    (frames : List (List ℕ)) (frame_bytes : List ℕ) (o : Option Connection) (c : Client)
    → c.conn ≡ o
    → Awaits o frames
    → SentOn frames frame_bytes (send_on o frame_bytes c)
unfolding send_on
send_on-SentOn frames frame_bytes none c e h = e
send_on-SentOn frames frame_bytes (some conn) c e h =
    after_write-SentOn frames frame_bytes conn (write_loop frame_bytes c.net) h

abbrev pub Answered : Option Connection → List ℕ → List (List ℕ) → Option ℕ × Client → Type 0
Answered o frame_bytes frames (none, c) = c.conn ≡ none
Answered o frame_bytes frames (some ack, c) = (place_of o ≡ some frame_bytes) × Awaits c.conn frames

read_byte-Answered :
    (conn : Connection) (frame_bytes : List ℕ) (frames : List (List ℕ)) (net : List (Option ℕ))
    → Awaits (some conn) (frame_bytes ∷ frames)
    → Answered (some conn) frame_bytes frames (read_byte conn net)
read_byte-Answered conn frame_bytes frames [] h = refl
read_byte-Answered conn frame_bytes frames (none ∷ net) h = refl
read_byte-Answered conn frame_bytes frames (some ack ∷ net) h =
    let first = first_of_drop conn.read conn.sent frame_bytes frames h.0 in
    (first.0, (first.1, shorter conn.read conn.sent h.0))
  where
    shorter : (n : ℕ) (xs : List (List ℕ)) → drop n xs ≡ frame_bytes ∷ frames → suc n ≤ length xs
    shorter zero [] e = absurd (ground (arith, e))
    shorter zero (x ∷ xs) e = omega arith
    shorter (suc n) [] e = absurd (ground (arith, e))
    shorter (suc n) (x ∷ xs) e = omega (arith, shorter n xs e)

wait_on-Answered :
    (o : Option Connection) (frame_bytes : List ℕ) (frames : List (List ℕ)) (c : Client)
    → c.conn ≡ o
    → Awaits o (frame_bytes ∷ frames)
    → Answered o frame_bytes frames (wait_on o c)
wait_on-Answered none frame_bytes frames c e h = absurd (ground (arith, h))
wait_on-Answered (some conn) frame_bytes frames c e h =
    read_byte-Answered conn frame_bytes frames c.net h

dialled-IsSettled :
    (net : List (Option ℕ)) (c : Client) → c.conn ≡ none → IsSettled (dialled net c).1
dialled-IsSettled [] c e = rw e refl
dialled-IsSettled (none ∷ net) c e = rw e refl
dialled-IsSettled (some n ∷ net) c e = (refl, omega arith)

ensure_with-IsSettled :
    (o : Option Connection) (c : Client) → c.conn ≡ o → IsSettled c → IsSettled (ensure_with o c).1
ensure_with-IsSettled none c e h = dialled-IsSettled c.net c e
ensure_with-IsSettled (some conn) c e h = h

pub send_frame-SentOn :
    (frames : List (List ℕ)) (frame_bytes : List ℕ) (c : Client)
    → Awaits c.conn frames
    → SentOn frames frame_bytes (send_frame frame_bytes c)
unfolding send_frame
send_frame-SentOn frames frame_bytes c h = send_on-SentOn frames frame_bytes c.conn c refl h

pub wait_ack-Answered :
    (frame_bytes : List ℕ) (frames : List (List ℕ)) (c : Client)
    → Awaits c.conn (frame_bytes ∷ frames)
    → Answered c.conn frame_bytes frames (wait_ack c)
unfolding wait_ack
wait_ack-Answered frame_bytes frames c h = wait_on-Answered c.conn frame_bytes frames c refl h

pub ensure_connected-IsSettled : (c : Client) → IsSettled c → IsSettled (ensure_connected c).1
unfolding ensure_connected
ensure_connected-IsSettled c h = ensure_with-IsSettled c.conn c refl h
