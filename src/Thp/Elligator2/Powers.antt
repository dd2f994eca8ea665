-- ===== src/Thp/Elligator2/Powers.antt =====
-- The addition chain computes the powers that it is meant to.
use maknoon_trezor_core_rs.Prelude.{ℕ, zero, suc, ◌+◌, ◌-◌, ◌*◌, ◌%◌, ◌^◌, ◌≡◌, sym, ap, ◌∙◌, arith}
use native.Mathlib.Nat.{mul_assoc, one-mul, mul-one, pow-suc, zero-add}
use maknoon_trezor_core_rs.Thp.Elligator2.Field.{Fe, mul, square, pow2k}
use maknoon_trezor_core_rs.Thp.Elligator2.Pow.{pow22501, invert, pow_p58}
use maknoon_trezor_core_rs.Thp.Elligator2.Modular.{p}
use maknoon_trezor_core_rs.Thp.Elligator2.Spec.{power}
use maknoon_trezor_core_rs.Thp.Elligator2.Represents.{Represents, widen, mul-Represents}

pub power-add : (a m n : ℕ) → power a (m + n) ≡ power a m * power a n
unfolding power
power-add a zero n = ap (power a) (zero-add n) ∙ sym (one-mul (power a n))
power-add a (suc m) n =
    ap (power a) (suc-add m n)
    ∙ ap (λ t. a * t) (power-add a m n)
    ∙ sym (mul_assoc a (power a m) (power a n))
  where
    suc-add : (m n : ℕ) → suc m + n ≡ suc (m + n)
    suc-add m n = omega arith

pub power-one : (a : ℕ) → power a 1 ≡ a
unfolding power
power-one a = mul-one a

-- An element that stands for a power of n.
abbrev pub IsPower : ℕ → Fe → ℕ → Type 0
IsPower n a k = Represents 52 a (power n k)

pub mul_wide-IsPower :
    (n : ℕ) (a b : Fe) (j k : ℕ)
    → Represents 54 a (power n j)
    → Represents 54 b (power n k)
    → IsPower n (mul a b) (j + k)
mul_wide-IsPower n a b j k r s =
    let (small, e) = mul-Represents a b (power n j) (power n k) r s in
    (small, e ∙ ap (λ t. t % p) (sym (power-add n j k)))

pub mul-IsPower :
    (n : ℕ) (a b : Fe) (j k : ℕ) → IsPower n a j → IsPower n b k → IsPower n (mul a b) (j + k)
mul-IsPower n a b j k r s =
    mul_wide-IsPower n a b j k (widen a (power n j) r) (widen b (power n k) s)

pub pow2k-IsPower : (n : ℕ) (a : Fe) (j k : ℕ) → IsPower n a j → IsPower n (pow2k a k) (j * 2 ^ k)
unfolding pow2k
pow2k-IsPower n a j zero r =
    let e : j ≡ j * 2 ^ zero = omega arith in (r.0, r.1 ∙ ap (λ t. power n t % p) e)
pow2k-IsPower n a j (suc k) r =
    let (small, e) = pow2k-IsPower n (square a) (j + j) k (mul-IsPower n a a j j r r) in
    let f : (j + j) * 2 ^ k ≡ j * 2 ^ suc k =
      doubled j (2 ^ k) ∙ ap (λ t. j * t) (sym (pow-suc 2 k)) in
    (small, e ∙ ap (λ t. power n t % p) f)
  where
    doubled : (j w : ℕ) → (j + j) * w ≡ j * (w * 2)
    doubled j w = omega arith

pub square-IsPower : (n : ℕ) (a : Fe) (k : ℕ) → IsPower n a k → IsPower n (square a) (k + k)
unfolding square
square-IsPower n a k r = mul-IsPower n a a k k r r

-- The two powers of the chain that inversion and square roots share.
pub pow22501-IsPower :
    (n : ℕ) (a : Fe)
    → Represents 54 a (power n 1)
    → IsPower n (pow22501 a).0 (2 ^ 250 - 1) × IsPower n (pow22501 a).1 11
unfolding pow22501 square
pow22501-IsPower n a r =
    let t0 : Fe = square a in
    let r0 : IsPower n t0 2 = mul_wide-IsPower n a a 1 1 r r in
    let t1 : Fe = square (square t0) in
    let r1 = square-IsPower n (square t0) 4 (square-IsPower n t0 2 r0) in
    let t2 : Fe = mul a t1 in
    let r2 = mul_wide-IsPower n a t1 1 8 r (widen t1 (power n 8) r1) in
    let t3 : Fe = mul t0 t2 in
    let r3 = mul-IsPower n t0 t2 2 9 r0 r2 in
    let t4 : Fe = square t3 in
    let r4 = square-IsPower n t3 11 r3 in
    let t5 : Fe = mul t2 t4 in
    let r5 = mul-IsPower n t2 t4 9 22 r2 r4 in
    let t6 : Fe = pow2k t5 5 in
    let r6 = pow2k-IsPower n t5 31 5 r5 in
    let t7 : Fe = mul t6 t5 in
    let r7 = mul-IsPower n t6 t5 (31 * 2 ^ 5) 31 r6 r5 in
    let t8 : Fe = pow2k t7 10 in
    let r8 = pow2k-IsPower n t7 (2 ^ 10 - 1) 10 r7 in
    let t9 : Fe = mul t8 t7 in
    let r9 = mul-IsPower n t8 t7 ((2 ^ 10 - 1) * 2 ^ 10) (2 ^ 10 - 1) r8 r7 in
    let t10 : Fe = pow2k t9 20 in
    let r10 = pow2k-IsPower n t9 (2 ^ 20 - 1) 20 r9 in
    let t11 : Fe = mul t10 t9 in
    let r11 = mul-IsPower n t10 t9 ((2 ^ 20 - 1) * 2 ^ 20) (2 ^ 20 - 1) r10 r9 in
    let t12 : Fe = pow2k t11 10 in
    let r12 = pow2k-IsPower n t11 (2 ^ 40 - 1) 10 r11 in
    let t13 : Fe = mul t12 t7 in
    let r13 = mul-IsPower n t12 t7 ((2 ^ 40 - 1) * 2 ^ 10) (2 ^ 10 - 1) r12 r7 in
    let t14 : Fe = pow2k t13 50 in
    let r14 = pow2k-IsPower n t13 (2 ^ 50 - 1) 50 r13 in
    let t15 : Fe = mul t14 t13 in
    let r15 = mul-IsPower n t14 t13 ((2 ^ 50 - 1) * 2 ^ 50) (2 ^ 50 - 1) r14 r13 in
    let t16 : Fe = pow2k t15 100 in
    let r16 = pow2k-IsPower n t15 (2 ^ 100 - 1) 100 r15 in
    let t17 : Fe = mul t16 t15 in
    let r17 = mul-IsPower n t16 t15 ((2 ^ 100 - 1) * 2 ^ 100) (2 ^ 100 - 1) r16 r15 in
    let t18 : Fe = pow2k t17 50 in
    let r18 = pow2k-IsPower n t17 (2 ^ 200 - 1) 50 r17 in
    (mul-IsPower n t18 t13 ((2 ^ 200 - 1) * 2 ^ 50) (2 ^ 50 - 1) r18 r13, r3)

pub invert-IsPower :
    (n : ℕ) (a : Fe) → Represents 54 a (power n 1) → IsPower n (invert a) (2 ^ 255 - 21)
unfolding invert
invert-IsPower n a r =
    let (r19, r3) = pow22501-IsPower n a r in
    mul-IsPower n (pow2k (pow22501 a).0 5) (pow22501 a).1 ((2 ^ 250 - 1) * 2 ^ 5) 11
      (pow2k-IsPower n (pow22501 a).0 (2 ^ 250 - 1) 5 r19) r3

pub pow_p58-IsPower :
    (n : ℕ) (a : Fe) → Represents 54 a (power n 1) → IsPower n (pow_p58 a) (2 ^ 252 - 3)
unfolding pow_p58
pow_p58-IsPower n a r =
    let (r19, r3) = pow22501-IsPower n a r in
    mul_wide-IsPower n a (pow2k (pow22501 a).0 2) 1 ((2 ^ 250 - 1) * 2 ^ 2) r (
      widen (pow2k (pow22501 a).0 2) (power n ((2 ^ 250 - 1) * 2 ^ 2))
        (pow2k-IsPower n (pow22501 a).0 (2 ^ 250 - 1) 2 r19))
