-- ===== src/Transport/Client.antt =====
-- internal/transport/tcp_client.go: the sender's side of a connection.
use vm_sync.Base.{
  or_default, ℕ, suc, ◌*◌, ◌^◌, Bool, true, false, List, [], ◌∷◌, ◌++◌, Option, none, some, drop,
  get_elem?,
}

-- 0 stands for all that is not positive. Durations are nanoseconds.
pub record ClientConfig : Type 0 where
  pub addr : List ℕ
  pub timeout : ℕ
  pub dial_timeout : ℕ

unfoldable pub new_client_config : ClientConfig → ClientConfig
new_client_config c =
    let timeout = or_default c.timeout (10 * 10 ^ 9) in
    record c { timeout = timeout; dial_timeout = or_default c.dial_timeout timeout }

-- An open connection: the frames that went out whole on it, oldest first, and how many bytes were
-- read from it.
pub record Connection : Type 0 where
  pub sent : List (List ℕ)
  pub read : ℕ

-- The frame of the connection that the next byte answers.
abbrev pub place_of : Option Connection → Option (List ℕ)
place_of none = none
place_of (some conn) = get_elem? conn.sent conn.read

-- `net` tells what the coming calls of the network give: `none` is an error. A dial gives anything,
-- Write the number of bytes that it took, and the read the byte. With nothing left a call fails.
pub record Client : Type 0 where
  pub conn : Option Connection
  pub net : List (Option ℕ)

abbrev pub dialled : List (Option ℕ) → Client → Bool × Client
dialled [] c = (false, c)
dialled (none ∷ net) c = (false, record c { net = net })
dialled (some n ∷ net) c =
    (true, record { conn = some (record { sent = []; read = 0 }); net = net })

abbrev pub ensure_with : Option Connection → Client → Bool × Client
ensure_with (some conn) c = (true, c)
ensure_with none c = dialled c.net c

unfoldable pub ensure_connected : Client → Bool × Client
ensure_connected c = ensure_with c.conn c

-- The loop around Write, which may take a part of the bytes; Write gives an error if it takes none.
unfoldable pub write_loop : List ℕ → List (Option ℕ) → Bool × List (Option ℕ)
write_loop [] net = (true, net)
write_loop (b ∷ bs) [] = (false, [])
write_loop (b ∷ bs) (none ∷ net) = (false, net)
write_loop (b ∷ bs) (some n ∷ net) = write_loop (drop n (b ∷ bs)) net

abbrev pub after_write : List ℕ → Connection → Bool × List (Option ℕ) → Bool × Client
after_write frame_bytes conn (true, net) =
    (true, record { conn = some (record conn { sent = conn.sent ++ frame_bytes ∷ [] }); net = net })
after_write frame_bytes conn (false, net) = (false, record { conn = none; net = net })

unfoldable pub send_on : Option Connection → List ℕ → Client → Bool × Client
send_on none frame_bytes c = (false, c)
send_on (some conn) frame_bytes c = after_write frame_bytes conn (write_loop frame_bytes c.net)

unfoldable pub send_frame : List ℕ → Client → Bool × Client
send_frame frame_bytes c = send_on c.conn frame_bytes c

abbrev pub read_byte : Connection → List (Option ℕ) → Option ℕ × Client
read_byte conn [] = (none, record { conn = none; net = [] })
read_byte conn (none ∷ net) = (none, record { conn = none; net = net })
read_byte conn (some ack ∷ net) =
    (some ack, record { conn = some (record conn { read = suc conn.read }); net = net })

abbrev pub wait_on : Option Connection → Client → Option ℕ × Client
wait_on none c = (none, c)
wait_on (some conn) c = read_byte conn c.net

unfoldable pub wait_ack : Client → Option ℕ × Client
wait_ack c = wait_on c.conn c

unfoldable pub close_client : Client → Client
close_client c = record c { conn = none }
