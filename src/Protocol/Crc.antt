-- ===== src/Protocol/Crc.antt =====
-- hash/crc32's ChecksumIEEE: the reflected CRC-32 with polynomial 0xedb88320, bit by bit.
use vm_sync.Base.{ℕ, zero, suc, ◌/◌, ◌%◌, ◌^◌, ◌<◌, ◌≡◌, refl, arith, bit_xor, List, [], ◌∷◌}
use vm_sync.Base.{◌==◌, if◌then◌else◌}

crc_bits : ℕ → ℕ → ℕ
crc_bits zero c = c
crc_bits (suc k) c = crc_bits k (if c % 2 == 1 then bit_xor (c / 2) 0xedb88320 else c / 2)

crc_loop : ℕ → List ℕ → ℕ
unfolding crc_bits
crc_loop c [] = c
crc_loop c (b ∷ bs) = crc_loop (crc_bits 8 (bit_xor c b)) bs

-- A uint32: the result is cut to 32 bits.
unfoldable pub checksum_ieee : List ℕ → ℕ
unfolding crc_loop
checksum_ieee bs = bit_xor (crc_loop 0xffffffff bs) 0xffffffff % 2 ^ 32

pub checksum_ieee-lt : (bs : List ℕ) → checksum_ieee bs < 2 ^ 32
unfolding checksum_ieee
checksum_ieee-lt bs = omega arith

pub checksum_ieee-nil : checksum_ieee [] ≡ 0
unfolding checksum_ieee
checksum_ieee-nil = refl

-- The standard check value: the CRC of "123456789".
check_value : checksum_ieee (49 ∷ 50 ∷ 51 ∷ 52 ∷ 53 ∷ 54 ∷ 55 ∷ 56 ∷ 57 ∷ []) ≡ 0xcbf43926
unfolding checksum_ieee
check_value = refl
