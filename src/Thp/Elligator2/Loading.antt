-- ===== src/Thp/Elligator2/Loading.antt =====
-- The field element that is read from 32 bytes.
use maknoon_trezor_core_rs.Prelude.{
  ℕ, zero, suc, ◌+◌, ◌*◌, ◌/◌, ◌%◌, ◌^◌, ◌<◌, ◌≡◌, refl, [], ◌∷◌, Bytes, IsByte, All, drop, get_or,
  arith,
}
use maknoon_trezor_core_rs.Thp.Elligator2.Word.{shr, low51}
use maknoon_trezor_core_rs.Thp.Elligator2.Field.{load8, from_bytes}
use maknoon_trezor_core_rs.Thp.Elligator2.Carries.{value, Below}
use maknoon_trezor_core_rs.Thp.Elligator2.LittleEndian.{from_le}

-- The number from a byte on, and the byte.
abbrev behind : Bytes → ℕ → ℕ
behind bs i = from_le (drop i bs)

behind_next : (bs : Bytes) (i : ℕ) → behind bs i ≡ get_or bs i 0 + 2 ^ 8 * behind bs (suc i)
unfolding from_le
behind_next [] zero = refl
behind_next [] (suc i) = refl
behind_next (x ∷ xs) zero = refl
behind_next (x ∷ xs) (suc i) = behind_next xs i

behind_step : (bs : Bytes) (i j : ℕ) → j ≡ suc i → behind bs i ≡ get_or bs i 0 + 2 ^ 8 * behind bs j
behind_step bs i j e = rw e (behind_next bs i)

get_or-IsByte : (bs : Bytes) (i : ℕ) → All IsByte bs → get_or bs i 0 < 2 ^ 8
get_or-IsByte [] i h = omega arith
get_or-IsByte (x ∷ xs) zero h = h.0
get_or-IsByte (x ∷ xs) (suc i) h = get_or-IsByte xs i h.1

behind_div : (bs : Bytes) (i j : ℕ) → All IsByte bs → j ≡ suc i → behind bs j ≡ behind bs i / 2 ^ 8
behind_div bs i j h e = omega (arith, behind_step bs i j e, get_or-IsByte bs i h)

load8_lem : (bs : Bytes) (i : ℕ) → All IsByte bs → load8 bs i ≡ behind bs i % 2 ^ 64
unfolding load8
load8_lem bs i h = omega (
  arith,
  behind_step bs i (i + 1) (omega arith),
  get_or-IsByte bs i h,
  behind_step bs (i + 1) (i + 2) (omega arith),
  get_or-IsByte bs (i + 1) h,
  behind_step bs (i + 2) (i + 3) (omega arith),
  get_or-IsByte bs (i + 2) h,
  behind_step bs (i + 3) (i + 4) (omega arith),
  get_or-IsByte bs (i + 3) h,
  behind_step bs (i + 4) (i + 5) (omega arith),
  get_or-IsByte bs (i + 4) h,
  behind_step bs (i + 5) (i + 6) (omega arith),
  get_or-IsByte bs (i + 5) h,
  behind_step bs (i + 6) (i + 7) (omega arith),
  get_or-IsByte bs (i + 6) h,
  behind_step bs (i + 7) (i + 8) (omega arith),
  get_or-IsByte bs (i + 7) h,
)

behind-6 : (bs : Bytes) → All IsByte bs → behind bs 6 ≡ behind bs 0 / 2 ^ 48
behind-6 bs h = omega (
  arith,
  behind_div bs 0 1 h refl,
  behind_div bs 1 2 h refl,
  behind_div bs 2 3 h refl,
  behind_div bs 3 4 h refl,
  behind_div bs 4 5 h refl,
  behind_div bs 5 6 h refl,
)

behind-12 : (bs : Bytes) → All IsByte bs → behind bs 12 ≡ behind bs 6 / 2 ^ 48
behind-12 bs h = omega (
  arith,
  behind_div bs 6 7 h refl,
  behind_div bs 7 8 h refl,
  behind_div bs 8 9 h refl,
  behind_div bs 9 10 h refl,
  behind_div bs 10 11 h refl,
  behind_div bs 11 12 h refl,
)

behind-19 : (bs : Bytes) → All IsByte bs → behind bs 19 ≡ behind bs 12 / 2 ^ 56
behind-19 bs h = omega (
  arith,
  behind_div bs 12 13 h refl,
  behind_div bs 13 14 h refl,
  behind_div bs 14 15 h refl,
  behind_div bs 15 16 h refl,
  behind_div bs 16 17 h refl,
  behind_div bs 17 18 h refl,
  behind_div bs 18 19 h refl,
)

behind-24 : (bs : Bytes) → All IsByte bs → behind bs 24 ≡ behind bs 19 / 2 ^ 40
behind-24 bs h = omega (
  arith,
  behind_div bs 19 20 h refl,
  behind_div bs 20 21 h refl,
  behind_div bs 21 22 h refl,
  behind_div bs 22 23 h refl,
  behind_div bs 23 24 h refl,
)

-- The field element that is read from 32 bytes has the value of their first 255 bits.
pub from_bytes_lem :
    (bs : Bytes)
    → All IsByte bs
    → Below (2 ^ 51) (from_bytes bs) × (value (from_bytes bs) ≡ from_le bs % 2 ^ 255)
unfolding from_bytes
from_bytes_lem bs h = (
  omega arith,
  limbs (load8 bs 0) (load8 bs 6) (load8 bs 12) (load8 bs 19) (load8 bs 24) (behind bs 0)
      (behind bs 6) (behind bs 12) (behind bs 19) (behind bs 24) (load8_lem bs 0 h)
      (load8_lem bs 6 h) (load8_lem bs 12 h) (load8_lem bs 19 h) (load8_lem bs 24 h) (behind-6 bs h)
      (behind-12 bs h) (behind-19 bs h) (behind-24 bs h),
)
  where
    limbs :
        (w0 w6 w12 w19 w24 v0 v6 v12 v19 v24 : ℕ)
        → w0 ≡ v0 % 2 ^ 64
        → w6 ≡ v6 % 2 ^ 64
        → w12 ≡ v12 % 2 ^ 64
        → w19 ≡ v19 % 2 ^ 64
        → w24 ≡ v24 % 2 ^ 64
        → v6 ≡ v0 / 2 ^ 48
        → v12 ≡ v6 / 2 ^ 48
        → v19 ≡ v12 / 2 ^ 56
        → v24 ≡ v19 / 2 ^ 40
        → low51 w0
            + 2 ^ 51 * low51 (shr w6 3)
            + 2 ^ 102 * low51 (shr w12 6)
            + 2 ^ 153 * low51 (shr w19 1)
            + 2 ^ 204 * low51 (shr w24 12)
          ≡ v0 % 2 ^ 255
    limbs w0 w6 w12 w19 w24 v0 v6 v12 v19 v24 e0 e6 e12 e19 e24 f6 f12 f19 f24 = omega arith
