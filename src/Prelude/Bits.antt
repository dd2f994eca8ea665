-- ===== src/Prelude/Bits.antt =====
-- Exclusive or and masks at variables, from one equation for the lowest binary digit.
use Prim.Native.Nat.{
  ℕ, zero, suc, ◌+◌, ◌*◌, ◌/◌, ◌%◌, ◌^◌, ◌≤◌, ◌<◌, min, max, digits, differ, bit_and, bit_or,
  bit_xor, bit_and-bitwise, bit_or-bitwise, bit_xor-bitwise,
}
use mathlib.Core.Path.{◌≡◌, refl, ap, ◌∙◌}
use mathlib.Core.Logic.{◌⊎◌, inl, inr}
use mathlib.Core.Bool.{Bool, true, ◌&&◌}
use native.Mathlib.Nat.{pow-suc, mul_assoc}
use native.Mathlib.Omega.{arith}
use maknoon_trezor_core_rs.Prelude.Tests.{◌==◌, ==_iff}

-- The count of rounds does not matter once it covers the first number.
module _ (z : ℕ → ℕ) (f : ℕ → ℕ → ℕ) where
  digits_rounds : (n m a b : ℕ) → a ≤ n → a ≤ m → digits z f n a b ≡ digits z f m a b
  digits_rounds (suc n) (suc m) zero b p q = refl
  digits_rounds (suc n) zero zero b p q = refl
  digits_rounds (suc n) zero (suc a) b p q = absurd (omega arith)
  digits_rounds zero (suc m) (suc a) b p q = absurd (omega arith)
  digits_rounds zero (suc m) zero b p q = refl
  digits_rounds zero zero a b p q = refl
  digits_rounds (suc n) (suc m) (suc a) b p q =
      rw (digits_rounds n m (suc a / 2) (b / 2) (omega arith) (omega arith))

pub bit_xor_step : (a b : ℕ) → bit_xor a b ≡ bit_xor (a / 2) (b / 2) * 2 + differ (a % 2) (b % 2)
bit_xor_step zero b = omega (arith, bit_xor-bitwise 0 b, bit_xor-bitwise 0 (b / 2))
bit_xor_step (suc a) b = omega (
  arith,
  bit_xor-bitwise (suc a) b,
  bit_xor-bitwise (suc a / 2) (b / 2),
  digits_rounds (λ y. y) differ a (suc a / 2) (suc a / 2) (b / 2) (omega arith) (omega arith),
)

pub bit_and_step : (a b : ℕ) → bit_and a b ≡ bit_and (a / 2) (b / 2) * 2 + min (a % 2) (b % 2)
bit_and_step zero b = omega (arith, bit_and-bitwise 0 b, bit_and-bitwise 0 (b / 2))
bit_and_step (suc a) b = omega (
  arith,
  bit_and-bitwise (suc a) b,
  bit_and-bitwise (suc a / 2) (b / 2),
  digits_rounds (λ y. 0) min a (suc a / 2) (suc a / 2) (b / 2) (omega arith) (omega arith),
)

pub bit_or_step : (a b : ℕ) → bit_or a b ≡ bit_or (a / 2) (b / 2) * 2 + max (a % 2) (b % 2)
bit_or_step zero b = omega (arith, bit_or-bitwise 0 b, bit_or-bitwise 0 (b / 2))
bit_or_step (suc a) b = omega (
  arith,
  bit_or-bitwise (suc a) b,
  bit_or-bitwise (suc a / 2) (b / 2),
  digits_rounds (λ y. y) max a (suc a / 2) (suc a / 2) (b / 2) (omega arith) (omega arith),
)

-- Facts about two digits, in the form in which the steps above meet them.
differ_digits :
    (a b : ℕ) → (differ (a % 2) (b % 2) < 2) × (differ (differ (a % 2) (b % 2)) (b % 2) ≡ a % 2)
differ_digits a b = go (a % 2) (b % 2) (omega arith) (omega arith)
  where
    go : (x y : ℕ) → x < 2 → y < 2 → (differ x y < 2) × (differ (differ x y) y ≡ x)
    go zero zero p q = (omega arith, refl)
    go zero (suc zero) p q = (omega arith, refl)
    go (suc zero) zero p q = (omega arith, refl)
    go (suc zero) (suc zero) p q = (omega arith, refl)
    go (suc (suc x)) y p q = absurd (omega arith)
    go zero (suc (suc y)) p q = absurd (omega arith)
    go (suc zero) (suc (suc y)) p q = absurd (omega arith)

double_pow : (w : ℕ) → 2 ^ suc w ≡ 2 * 2 ^ w
double_pow w = omega (arith, pow-suc 2 w)

pub bit_xor-lt : (w a b : ℕ) → a < 2 ^ w → b < 2 ^ w → bit_xor a b < 2 ^ w
bit_xor-lt zero zero zero p q = p
bit_xor-lt zero zero (suc b) p q = absurd (omega arith)
bit_xor-lt zero (suc a) b p q = absurd (omega arith)
bit_xor-lt (suc w) a b p q = omega (
  arith,
  bit_xor_step a b,
  differ_digits a b,
  double_pow w,
  bit_xor-lt w (a / 2) (b / 2) (omega (arith, double_pow w)) (omega (arith, double_pow w)),
)

pub bit_xor_cancel : (w a b : ℕ) → a < 2 ^ w → b < 2 ^ w → bit_xor (bit_xor a b) b ≡ a
bit_xor_cancel zero zero zero p q = refl
bit_xor_cancel zero zero (suc b) p q = absurd (omega arith)
bit_xor_cancel zero (suc a) b p q = absurd (omega arith)
bit_xor_cancel (suc w) a b p q =
    let x : ℕ = bit_xor a b in
    let half : x / 2 ≡ bit_xor (a / 2) (b / 2) =
      omega (arith, bit_xor_step a b, differ_digits a b) in
    let low : x % 2 ≡ differ (a % 2) (b % 2) = omega (arith, bit_xor_step a b, differ_digits a b) in
    bit_xor_step x b
    ∙ rw (half, low)
        (omega (
          arith,
          differ_digits a b,
          bit_xor_cancel w (a / 2) (b / 2) (omega (arith, double_pow w))
              (omega (arith, double_pow w)),
        ))

-- Exclusive or with a number whose top digit is one sets that digit.
pub bit_xor_top : (w a b : ℕ) → a < 2 ^ w → b < 2 ^ w → bit_xor a (2 ^ w + b) ≡ 2 ^ w + bit_xor a b
bit_xor_top zero zero zero p q = refl
bit_xor_top zero zero (suc b) p q = absurd (omega arith)
bit_xor_top zero (suc a) b p q = absurd (omega arith)
bit_xor_top (suc w) a b p q =
    let half : (2 ^ suc w + b) / 2 ≡ 2 ^ w + b / 2 = omega (arith, double_pow w) in
    let low : (2 ^ suc w + b) % 2 ≡ b % 2 = omega (arith, double_pow w) in
    bit_xor_step a (2 ^ suc w + b)
    ∙ rw (half, low)
        (omega (
          arith,
          bit_xor_step a b,
          double_pow w,
          bit_xor_top w (a / 2) (b / 2) (omega (arith, double_pow w)) (omega (arith, double_pow w)),
        ))

-- A top digit joined to the digits below it is a sum.
pub bit_or_top : (w a : ℕ) → a < 2 ^ w → bit_or (2 ^ w) a ≡ 2 ^ w + a
bit_or_top zero zero p = refl
bit_or_top zero (suc a) p = absurd (omega arith)
bit_or_top (suc w) a p =
    let half : (2 ^ suc w) / 2 ≡ 2 ^ w = omega (arith, double_pow w) in
    let low : (2 ^ suc w) % 2 ≡ 0 = omega (arith, double_pow w) in
    bit_or_step (2 ^ suc w) a
    ∙ rw (half, low)
        (omega (arith, double_pow w, bit_or_top w (a / 2) (omega (arith, double_pow w))))

pub bit_or_top' : (w a : ℕ) → a < 2 ^ w → bit_or a (2 ^ w) ≡ 2 ^ w + a
bit_or_top' zero zero p = refl
bit_or_top' zero (suc a) p = absurd (omega arith)
bit_or_top' (suc w) a p =
    let half : (2 ^ suc w) / 2 ≡ 2 ^ w = omega (arith, double_pow w) in
    let low : (2 ^ suc w) % 2 ≡ 0 = omega (arith, double_pow w) in
    bit_or_step a (2 ^ suc w)
    ∙ rw (half, low)
        (omega (arith, double_pow w, bit_or_top' w (a / 2) (omega (arith, double_pow w))))

bit_and-zero_rounds : (n a : ℕ) → a ≤ n → bit_and a 0 ≡ 0
bit_and-zero_rounds n zero h = refl
bit_and-zero_rounds zero (suc a) h = absurd (omega arith)
bit_and-zero_rounds (suc n) (suc a) h =
    omega (arith, bit_and_step (suc a) 0, bit_and-zero_rounds n (suc a / 2) (omega arith))

pub bit_and-one : (a : ℕ) → bit_and a 1 ≡ a % 2
bit_and-one a = omega (arith, bit_and_step a 1, bit_and-zero_rounds (a / 2) (a / 2) (omega arith))

-- Over a small range a test is checked at every value by evaluation.
unfoldable pub all_below : ℕ → (ℕ → Bool) → Bool
all_below zero p = true
all_below (suc n) p = p n && all_below n p

pub all_below-at : (n : ℕ) (p : ℕ → Bool) (x : ℕ) → all_below n p ≡ true → x < n → p x ≡ true
unfolding all_below
all_below-at zero p x h lt = absurd (omega arith)
all_below-at (suc n) p x h lt = ground (arith, all_below-at n p x)

pub eq_below :
    (n : ℕ) (f g : ℕ → ℕ) (x : ℕ) → all_below n (λ y. f y == g y) ≡ true → x < n → f x ≡ g x
eq_below n f g x h lt = (==_iff _ _).0 (all_below-at n (λ y. f y == g y) x h lt)

bit_xor-zero_rounds : (n a : ℕ) → a ≤ n → bit_xor a 0 ≡ a
bit_xor-zero_rounds n zero h = refl
bit_xor-zero_rounds zero (suc a) h = absurd (omega arith)
bit_xor-zero_rounds (suc n) (suc a) h = omega (
  arith,
  bit_xor_step (suc a) 0,
  differ-zero (suc a),
  bit_xor-zero_rounds n (suc a / 2) (omega arith),
)
  where
    differ-zero : (x : ℕ) → differ (x % 2) 0 ≡ x % 2
    differ-zero x = go (x % 2)
      where
        go : (y : ℕ) → differ y 0 ≡ y
        go zero = refl
        go (suc y) = refl

pub bit_xor-zero : (a : ℕ) → bit_xor a 0 ≡ a
bit_xor-zero a = bit_xor-zero_rounds a a (omega arith)

pub parity : (a : ℕ) → (a % 2 ≡ 0) ⊎ (a % 2 ≡ 1)
parity a = go (a % 2) (omega arith)
  where
    go : (r : ℕ) → r < 2 → (r ≡ 0) ⊎ (r ≡ 1)
    go zero h = inl refl
    go (suc zero) h = inr refl
    go (suc (suc r)) h = absurd (omega arith)

differ_left_digit : (s a b : ℕ) → differ (s % 2) (a % 2) ≡ differ (s % 2) (b % 2) → a % 2 ≡ b % 2
differ_left_digit s a b = go (s % 2) (a % 2) (b % 2) (omega arith) (omega arith) (omega arith)
  where
    go : (x y z : ℕ) → x < 2 → y < 2 → z < 2 → differ x y ≡ differ x z → y ≡ z
    go zero y z p q r e = e
    go (suc zero) zero zero p q r e = refl
    go (suc zero) zero (suc zero) p q r e = absurd (omega arith)
    go (suc zero) (suc zero) zero p q r e = absurd (omega arith)
    go (suc zero) (suc zero) (suc zero) p q r e = refl
    go (suc zero) zero (suc (suc z)) p q r e = absurd (omega arith)
    go (suc zero) (suc zero) (suc (suc z)) p q r e = absurd (omega arith)
    go (suc zero) (suc (suc y)) z p q r e = absurd (omega arith)
    go (suc (suc x)) y z p q r e = absurd (omega arith)

pub bit_xor_left_inj : (w s a b : ℕ) → a < 2 ^ w → b < 2 ^ w → bit_xor s a ≡ bit_xor s b → a ≡ b
bit_xor_left_inj zero s a b p q e = omega arith
bit_xor_left_inj (suc w) s a b p q e =
    let low : a % 2 ≡ b % 2 =
      differ_left_digit s a b
        (omega (arith, bit_xor_step s a, bit_xor_step s b, differ_digits s a, differ_digits s b)) in
    let high : a / 2 ≡ b / 2 =
      bit_xor_left_inj w (s / 2) (a / 2) (b / 2) (omega (arith, double_pow w))
        (omega (arith, double_pow w))
        (omega (arith, bit_xor_step s a, bit_xor_step s b, differ_digits s a, differ_digits s b)) in
    omega arith

bit_or-zero_rounds : (n a : ℕ) → a ≤ n → bit_or a 0 ≡ a
bit_or-zero_rounds n zero h = refl
bit_or-zero_rounds zero (suc a) h = absurd (omega arith)
bit_or-zero_rounds (suc n) (suc a) h =
    omega (arith, bit_or_step (suc a) 0, bit_or-zero_rounds n (suc a / 2) (omega arith))

pub bit_or-zero : (a : ℕ) → bit_or a 0 ≡ a
bit_or-zero a = bit_or-zero_rounds a a (omega arith)

-- Digits below a multiple of a power of two.
pub bit_or_low : (w a b : ℕ) → b < 2 ^ w → bit_or (2 ^ w * a) b ≡ 2 ^ w * a + b
bit_or_low zero a zero h = omega (arith, bit_or-zero (2 ^ zero * a))
bit_or_low zero a (suc b) h = absurd (omega arith)
bit_or_low (suc w) a b h =
    let t : ℕ = 2 ^ w * a in
    let e : 2 ^ suc w * a ≡ 2 * t = ap (λ k. k * a) (double_pow w) ∙ mul_assoc 2 (2 ^ w) a in
    let half : 2 * t / 2 ≡ t = omega arith in
    let low : 2 * t % 2 ≡ 0 = omega arith in
    let digit : max 0 (b % 2) ≡ b % 2 = omega arith in
    rw e (
      bit_or_step (2 * t) b
      ∙ rw (half, low, digit) (omega (arith, bit_or_low w a (b / 2) (omega (arith, double_pow w)))))

bit_or_comm_rounds : (n a b : ℕ) → a + b ≤ n → bit_or a b ≡ bit_or b a
bit_or_comm_rounds zero zero zero h = refl
bit_or_comm_rounds zero (suc a) b h = absurd (omega arith)
bit_or_comm_rounds zero zero (suc b) h = absurd (omega arith)
bit_or_comm_rounds (suc n) a b h =
    omega
      (arith, bit_or_step a b, bit_or_step b a, bit_or_comm_rounds n (a / 2) (b / 2) (omega arith))

-- Digits below those of a shifted word.
pub bit_or_high : (w a b : ℕ) → a < 2 ^ w → bit_or a (2 ^ w * b) ≡ a + 2 ^ w * b
bit_or_high w a b h =
    omega
      (arith, bit_or_comm_rounds (a + 2 ^ w * b) a (2 ^ w * b) (omega arith), bit_or_low w b a h)
