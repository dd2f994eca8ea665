-- ===== src/Thp/Elligator2/LittleEndian.antt =====
-- Bytes as a number, little end first, by which trezor-core/src/thp/elligator2.rs is read.
use maknoon_trezor_core_rs.Prelude.{
  ℕ, zero, suc, ◌+◌, ◌*◌, ◌/◌, ◌%◌, ◌^◌, ◌<◌, ◌≡◌, refl, ap, [], ◌∷◌, Bytes, IsByte, All, length,
  arith,
}

-- The number that bytes stand for, little end first, and the bytes of a number.
unfoldable pub from_le : Bytes → ℕ
from_le [] = 0
from_le (b ∷ bs) = b + 2 ^ 8 * from_le bs

unfoldable pub to_le : ℕ → ℕ → Bytes
to_le zero v = []
to_le (suc n) v = (v % 2 ^ 8) ∷ to_le n (v / 2 ^ 8)

pub to_le-from_le : (xs : Bytes) → All IsByte xs → to_le (length xs) (from_le xs) ≡ xs
unfolding to_le from_le
to_le-from_le [] h = refl
to_le-from_le (x ∷ xs) h =
    let low : (x + 2 ^ 8 * from_le xs) % 2 ^ 8 ≡ x = omega arith in
    let high : (x + 2 ^ 8 * from_le xs) / 2 ^ 8 ≡ from_le xs = omega arith in
    rw low (rw high (ap (λ t. x ∷ t) (to_le-from_le xs h.1)))

pub to_le-IsByte : (n v : ℕ) → All IsByte (to_le n v)
unfolding to_le
to_le-IsByte zero v = tt
to_le-IsByte (suc n) v = (omega arith, to_le-IsByte n (v / 2 ^ 8))

-- The number of bits of n bytes.
abbrev pub byte_power : ℕ → ℕ
byte_power zero = 1
byte_power (suc n) = 2 ^ 8 * byte_power n

pub from_le-to_le : (n v : ℕ) → v < byte_power n → from_le (to_le n v) ≡ v
unfolding to_le from_le
from_le-to_le zero v h = omega arith
from_le-to_le (suc n) v h =
    let rest : from_le (to_le n (v / 2 ^ 8)) ≡ v / 2 ^ 8 =
      from_le-to_le n (v / 2 ^ 8) (quotient (byte_power n) v h) in
    rw rest (omega arith)
  where
    quotient : (m v : ℕ) → v < 2 ^ 8 * m → v / 2 ^ 8 < m
    quotient m v h = omega arith
