-- ===== src/Thp/Crc.antt =====
-- `crc32_ieee` of trezor-core/src/thp/framing.rs, bit by bit as the source computes it.
pub mod Corruption
use maknoon_trezor_core_rs.Prelude.{
  ℕ, zero, suc, ◌+◌, ◌-◌, ◌/◌, ◌%◌, ◌^◌, ◌≡◌, refl, List, [], ◌∷◌, bit_and, bit_xor, Bytes,
}

abbrev pub polynomial : ℕ
polynomial = 0xedb8_8320

abbrev pub all_ones : ℕ
all_ones = 0xffff_ffff

-- `u32::wrapping_neg`
abbrev pub wrapping_neg : ℕ → ℕ
wrapping_neg x = (2 ^ 32 - x) % 2 ^ 32

-- One round of the inner loop.
crc_round : ℕ → ℕ
crc_round crc =
    let mask = wrapping_neg (bit_and crc 1) in bit_xor (crc / 2) (bit_and polynomial mask)

-- `for _ in 0..n`
crc_rounds : ℕ → ℕ → ℕ
crc_rounds zero crc = crc
crc_rounds (suc n) crc = crc_rounds n (crc_round crc)

-- `for &byte in data`
crc_bytes : ℕ → Bytes → ℕ
crc_bytes crc [] = crc
crc_bytes crc (byte ∷ rest) = crc_bytes (crc_rounds 8 (bit_xor crc byte)) rest

unfoldable pub crc32_ieee : Bytes → ℕ
unfolding crc_bytes crc_rounds crc_round
crc32_ieee message = all_ones - crc_bytes all_ones message

-- The check value of CRC-32.
check_value :
    crc32_ieee (b'1' ∷ b'2' ∷ b'3' ∷ b'4' ∷ b'5' ∷ b'6' ∷ b'7' ∷ b'8' ∷ b'9' ∷ []) ≡ 0xcbf4_3926
unfolding crc32_ieee
check_value = refl
