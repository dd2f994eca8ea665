-- ===== src/Thp/Elligator2/Represents.antt =====
-- A field element stands for a number modulo p, and the operations keep this.
use maknoon_trezor_core_rs.Prelude.{
  ℕ, zero, suc, ◌+◌, ◌-◌, ◌*◌, ◌/◌, ◌%◌, ◌^◌, ◌<◌, ◌≡◌, refl, sym, ap, ◌∙◌, Bool-cases, inl, inr,
  ◌==◌, ==_iff, bytes_eq, bytes_eq→eq, bytes_eq_refl, arith,
}
use native.Mathlib.Nat.{pow-suc, zero-add}
use maknoon_trezor_core_rs.Thp.Elligator2.Field.{Fe, zero_fe, add, neg, mul, to_bytes, ct_eq}
use maknoon_trezor_core_rs.Thp.Elligator2.Modular.{p, Cong, add-multiple-Cong, mul-Cong, add-Cong}
use maknoon_trezor_core_rs.Thp.Elligator2.Product.{mul-Below, mul-value}
use maknoon_trezor_core_rs.Thp.Elligator2.Carries.{value, Below}
use maknoon_trezor_core_rs.Thp.Elligator2.Sums.{add-value, add-Below, sub-Below, sub-value}
use maknoon_trezor_core_rs.Thp.Elligator2.LittleEndian.{to_le, from_le}
use maknoon_trezor_core_rs.Thp.Elligator2.Packing.{to_bytes_lem}

abbrev pub Represents : ℕ → Fe → ℕ → Type 0
Represents w a n = Below (2 ^ w) a × Cong (value a) n

pub widen : (a : Fe) (n : ℕ) → Represents 52 a n → Represents 54 a n
widen a n r = (omega arith, r.1)

pub widen53 : (a : Fe) (n : ℕ) → Represents 53 a n → Represents 54 a n
widen53 a n r = (omega arith, r.1)

pub mul-Represents :
    (a b : Fe) (m n : ℕ) → Represents 54 a m → Represents 54 b n → Represents 52 (mul a b) (m * n)
mul-Represents a b m n r s =
    (mul-Below a b r.0 s.0, sym (mul-value a b r.0 s.0) ∙ mul-Cong (value a) m (value b) n r.1 s.1)

pub add-Represents :
    (a b : Fe) (m n : ℕ) → Represents 52 a m → Represents 52 b n → Represents 53 (add a b) (m + n)
add-Represents a b m n r s =
    let e : value (add a b) ≡ value a + value b = (add-value a b (omega arith) (omega arith)).1 in
    (add-Below a b r.0 s.0, ap (λ t. t % p) e ∙ add-Cong (value a) m (value b) n r.1 s.1)

pub add_wide-Represents :
    (a b : Fe) (m n : ℕ) → Represents 53 a m → Represents 52 b n → Represents 54 (add a b) (m + n)
add_wide-Represents a b m n r s =
    let (small, e) = add-value a b r.0 (omega arith) in
    (small, ap (λ t. t % p) e ∙ add-Cong (value a) m (value b) n r.1 s.1)

-- A canonical number is read back from its bytes.
from_le-to_le : (n v : ℕ) → v < 256 ^ n → from_le (to_le n v) ≡ v
unfolding from_le to_le
from_le-to_le zero v h = omega arith
from_le-to_le (suc n) v h =
    omega (arith, from_le-to_le n (v / 2 ^ 8) (omega (arith, pow-suc 256 n)))

bytes_eq-to_le :
    (x y : ℕ) → x < 256 ^ 32 → y < 256 ^ 32 → bytes_eq (to_le 32 x) (to_le 32 y) ≡ (x == y)
bytes_eq-to_le x y hx hy = elim (Bool-cases (x == y)) [
  | inl e ↦ rw e (rw ((==_iff x y).0 e) (bytes_eq_refl (to_le 32 y)))
  | inr ne ↦ rw ne (elim (Bool-cases (bytes_eq (to_le 32 x) (to_le 32 y))) [
    | inl e ↦
        let q : x ≡ y =
          sym (from_le-to_le 32 x hx)
          ∙ ap from_le (bytes_eq→eq (to_le 32 x) (to_le 32 y) e)
          ∙ from_le-to_le 32 y hy in
        cc ((==_iff x y).1 q)
    | inr ne' ↦ ne'
  ])
]

remainder-lt : (n : ℕ) → n % p < 256 ^ 32
unfolding p
remainder-lt n = omega arith

-- Field elements are compared as the numbers modulo p that they stand for.
pub ct_eq-Represents :
    (a b : Fe) (m n : ℕ) → Represents 54 a m → Represents 54 b n → ct_eq a b ≡ (m % p == n % p)
unfolding ct_eq
ct_eq-Represents a b m n r s =
    ap (λ t. bytes_eq t (to_bytes b)) (to_bytes_lem a (omega arith))
    ∙ ap (bytes_eq (to_le 32 (value a % p))) (to_bytes_lem b (omega arith))
    ∙ bytes_eq-to_le (value a % p) (value b % p) (remainder-lt (value a)) (remainder-lt (value b))
    ∙ ap (λ t. t == value b % p) r.1
    ∙ ap (λ t. m % p == t) s.1

-- What adds up to a multiple of p.
opposite : (v a n : ℕ) → n < p → Cong (v + a) 0 → Cong a n → Cong v (p - n)
opposite v a n h e f =
    let sum : Cong (v + n) 0 = sym (add-Cong v v a n refl f) ∙ e in
    let whole : v + p * 1 ≡ (v + n) + (p - n) = omega arith in
    sym (add-multiple-Cong v 1)
    ∙ ap (λ t. t % p) whole
    ∙ add-Cong (v + n) 0 (p - n) (p - n) sum refl
    ∙ ap (λ t. t % p) (zero-add (p - n))

-- Zero minus a small constant.
pub neg-Represents : (a : Fe) (n : ℕ) → n < p → Represents 52 a n → Represents 52 (neg a) (p - n)
unfolding neg
neg-Represents a n h r = (
  sub-Below zero_fe a (omega arith) (omega arith),
  opposite (value (neg a)) (value a) n h (sub-value zero_fe a (omega arith) (omega arith)) r.1,
)
