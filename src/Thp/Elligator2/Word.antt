-- ===== src/Thp/Elligator2/Word.antt =====
-- The machine words of trezor-core/src/thp/elligator2.rs: `u64` and `u128`, whose operations wrap.
use maknoon_trezor_core_rs.Prelude.{ℕ, ◌+◌, ◌-◌, ◌*◌, ◌/◌, ◌%◌, ◌^◌, ◌≤◌, ◌<◌, ◌≡◌, arith}
use native.Mathlib.Nat.{mod-eq_of_lt}

unfoldable pub add64 : ℕ → ℕ → ℕ
add64 x y = (x + y) % 2 ^ 64

unfoldable pub sub64 : ℕ → ℕ → ℕ
sub64 x y = (x + 2 ^ 64 - y) % 2 ^ 64

unfoldable pub mul64 : ℕ → ℕ → ℕ
mul64 x y = (x * y) % 2 ^ 64

unfoldable pub shl64 : ℕ → ℕ → ℕ
shl64 x k = (x * 2 ^ k) % 2 ^ 64

-- `>>`
abbrev pub shr : ℕ → ℕ → ℕ
shr x k = x / 2 ^ k

unfoldable pub add128 : ℕ → ℕ → ℕ
add128 x y = (x + y) % 2 ^ 128

-- `(x as u128) * (y as u128)`
unfoldable pub mul128 : ℕ → ℕ → ℕ
mul128 x y = (x * y) % 2 ^ 128

abbrev pub as_u64 : ℕ → ℕ
as_u64 x = x % 2 ^ 64

abbrev pub as_u8 : ℕ → ℕ
as_u8 x = x % 2 ^ 8

-- `x & LOW_51_BIT_MASK`
abbrev pub low51 : ℕ → ℕ
low51 x = x % 2 ^ 51

pub add64_lem : (x y : ℕ) → x + y < 2 ^ 64 → add64 x y ≡ x + y
unfolding add64
add64_lem x y h = omega arith

pub sub64_lem : (x y : ℕ) → y ≤ x → x < 2 ^ 64 → sub64 x y ≡ x - y
unfolding sub64
sub64_lem x y h k = omega arith

pub mul64_lem : (x y : ℕ) → x * y < 2 ^ 64 → mul64 x y ≡ x * y
unfolding mul64
mul64_lem x y h = mod-eq_of_lt h

pub add128_lem : (x y : ℕ) → x + y < 2 ^ 128 → add128 x y ≡ x + y
unfolding add128
add128_lem x y h = omega arith

pub mul128_lem : (x y : ℕ) → x * y < 2 ^ 128 → mul128 x y ≡ x * y
unfolding mul128
mul128_lem x y h = mod-eq_of_lt h
