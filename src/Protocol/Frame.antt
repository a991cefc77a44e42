-- ===== src/Protocol/Frame.antt =====
-- internal/protocol/frame.go: the constants, the errors, and the two records.
use vm_sync.Base.{ℕ, ◌^◌, ◌≡◌, refl, ◌⊎◌, inl, inr, List, ◌==◌, Bool}

abbrev pub magic : ℕ
magic = 0x5057

abbrev pub version : ℕ
version = 0x01

abbrev pub header_size : ℕ
header_size = 20

-- 1 << 20
abbrev pub max_frame_len : ℕ
max_frame_len = 2 ^ 20

-- 16 << 20
abbrev pub max_decompressed_len : ℕ
max_decompressed_len = 2 ^ 24

abbrev pub type_data : ℕ
type_data = 0x01

abbrev pub type_heartbeat : ℕ
type_heartbeat = 0x02

abbrev pub type_data_zstd : ℕ
type_data_zstd = 0x04

abbrev pub ack_success : ℕ
ack_success = 0xff

abbrev pub ack_fail : ℕ
ack_fail = 0x00

-- What the functions of the package return as an error, one constructor for each message.
-- `payload_too_large` and `frame_too_large` are the two that wrap ErrTooLarge when encoding.
pub data ProtocolError : Type 0 where
  bad_magic bad_version bad_crc length_too_large : ProtocolError
  header_too_short frame_too_short length_mismatch : ProtocolError
  heartbeat_payload payload_too_large frame_too_large unsupported_type : ProtocolError
  compress_failed decompress_failed decompressed_too_large : ProtocolError

pub data Result {ℓ} (A : Type ℓ) : Type ℓ where
  ok : A → Result A
  err : ProtocolError → Result A

-- `if err != nil { return err }`: an error ends the function.
abbrev pub ◌>>=◌ {ℓ κ} :
    {S : Type ℓ} {T : Type κ} (first : Result S) (rest : S → Result T) → Result T
err failure >>= rest = err failure
ok value >>= rest = rest value

abbrev pub ◌>>◌ {ℓ} : {T : Type ℓ} (first : Result (Unit {0})) (rest : Result T) → Result T
first >> rest = first >>= λ _. rest

infixl 5 ◌>>=◌ ◌>>◌
-- `if cond { return err }`
abbrev pub reject_if : Bool → ProtocolError → Result (Unit {0})
reject_if Bool.true e = err e
reject_if Bool.false e = ok tt

pub record Frame : Type 0 where
  pub version : ℕ
  pub type : ℕ
  pub seq : ℕ
  pub crc : ℕ
  pub payload : List ℕ

pub record Header : Type 0 where
  pub magic : ℕ
  pub version : ℕ
  pub type : ℕ
  pub seq : ℕ
  pub length : ℕ
  pub crc : ℕ

unfoldable pub is_heartbeat : Frame → Bool
is_heartbeat f = f.type == type_heartbeat

unfoldable pub is_data : Frame → Bool
is_data f = f.type == type_data

unfoldable pub is_data_zstd : Frame → Bool
is_data_zstd f = f.type == type_data_zstd

pub Result-cases {ℓ} :
    {A : Type ℓ} (r : Result A) → ((a : A) × (r ≡ ok a)) ⊎ ((e : ProtocolError) × (r ≡ err e))
Result-cases (ok a) = inl (a, refl)
Result-cases (err e) = inr (e, refl)
