-- ===== src/Thp/Elligator2/Product.antt =====
-- The product of two field elements is that of their values, and nothing wraps on the way.
use maknoon_trezor_core_rs.Prelude.{ℕ, ◌+◌, ◌-◌, ◌*◌, ◌^◌, ◌<◌, ◌≤◌, ◌≡◌, refl, arith}
use native.Mathlib.Nat.{mul-le-mul}
use maknoon_trezor_core_rs.Thp.Elligator2.Word.{mul64_lem}
use maknoon_trezor_core_rs.Thp.Elligator2.Field.{Fe, carried, mul}
use maknoon_trezor_core_rs.Thp.Elligator2.Modular.{p, Cong, Cong-of_eq}
use maknoon_trezor_core_rs.Thp.Elligator2.Carries.{value, Below, column_lem, carried_lem}

-- The product of the values, by columns.
pub columns :
    (a b : Fe)
    → value a * value b
      ≡ (a.l0 * b.l0
          + a.l4 * (b.l1 * 19)
          + a.l3 * (b.l2 * 19)
          + a.l2 * (b.l3 * 19)
          + a.l1 * (b.l4 * 19))
        + 2 ^ 51
          * (a.l1 * b.l0
              + a.l0 * b.l1
              + a.l4 * (b.l2 * 19)
              + a.l3 * (b.l3 * 19)
              + a.l2 * (b.l4 * 19))
        + 2 ^ 102
          * (a.l2 * b.l0 + a.l1 * b.l1 + a.l0 * b.l2 + a.l4 * (b.l3 * 19) + a.l3 * (b.l4 * 19))
        + 2 ^ 153 * (a.l3 * b.l0 + a.l2 * b.l1 + a.l1 * b.l2 + a.l0 * b.l3 + a.l4 * (b.l4 * 19))
        + 2 ^ 204 * (a.l4 * b.l0 + a.l3 * b.l1 + a.l2 * b.l2 + a.l1 * b.l3 + a.l0 * b.l4)
        + (2 ^ 255 - 19)
          * (a.l4 * b.l1
              + a.l3 * b.l2
              + a.l2 * b.l3
              + a.l1 * b.l4
              + 2 ^ 51 * (a.l4 * b.l2 + a.l3 * b.l3 + a.l2 * b.l4)
              + 2 ^ 102 * (a.l4 * b.l3 + a.l3 * b.l4)
              + 2 ^ 153 * (a.l4 * b.l4))
columns a b = omega arith

-- Limbs of 54 bits, one of them times nineteen or not.
limbs_le : (x y : ℕ) → x < 2 ^ 54 → y < 2 ^ 54 → x * y ≤ 2 ^ 108
limbs_le x y h k =
    let h' : x ≤ 2 ^ 54 = omega arith in let k' : y ≤ 2 ^ 54 = omega arith in mul-le-mul h' k'

one-le : (x y : ℕ) → x < 2 ^ 54 → y < 2 ^ 54 → x * y ≤ 2 ^ 113
one-le x y h k = omega (arith, limbs_le x y h k)

nineteen-le : (x y : ℕ) → x < 2 ^ 54 → y < 2 ^ 54 → x * (y * 19) ≤ 2 ^ 113
nineteen-le x y h k = omega (arith, limbs_le x y h k)

-- The product of field elements whose limbs have 54 bits has the product of their values modulo p,
-- and limbs of 52 bits.
module _ (a b : Fe) (ha : Below (2 ^ 54) a) (hb : Below (2 ^ 54) b) where
  abbrev c0 : ℕ
  c0 =
      a.l0 * b.l0
      + a.l4 * (b.l1 * 19)
      + a.l3 * (b.l2 * 19)
      + a.l2 * (b.l3 * 19)
      + a.l1 * (b.l4 * 19)

  abbrev c1 : ℕ
  c1 = a.l1 * b.l0 + a.l0 * b.l1 + a.l4 * (b.l2 * 19) + a.l3 * (b.l3 * 19) + a.l2 * (b.l4 * 19)

  abbrev c2 : ℕ
  c2 = a.l2 * b.l0 + a.l1 * b.l1 + a.l0 * b.l2 + a.l4 * (b.l3 * 19) + a.l3 * (b.l4 * 19)

  abbrev c3 : ℕ
  c3 = a.l3 * b.l0 + a.l2 * b.l1 + a.l1 * b.l2 + a.l0 * b.l3 + a.l4 * (b.l4 * 19)

  abbrev c4 : ℕ
  c4 = a.l4 * b.l0 + a.l3 * b.l1 + a.l2 * b.l2 + a.l1 * b.l3 + a.l0 * b.l4

  mul-carried : mul a b ≡ carried c0 c1 c2 c3 c4
  unfolding mul
  mul-carried = rw (mul64_lem b.l1 19 (omega arith)) (
      rw (mul64_lem b.l2 19 (omega arith)) (
        rw (mul64_lem b.l3 19 (omega arith)) (
          rw (mul64_lem b.l4 19 (omega arith)) (
            rw
              (column_lem a.l0 b.l0 a.l4 (b.l1 * 19) a.l3 (b.l2 * 19) a.l2 (b.l3 * 19) a.l1
                (b.l4 * 19) (one-le a.l0 b.l0 ha.0 hb.0) (nineteen-le a.l4 b.l1 ha.4 hb.1)
                (nineteen-le a.l3 b.l2 ha.3 hb.2) (nineteen-le a.l2 b.l3 ha.2 hb.3)
                (nineteen-le a.l1 b.l4 ha.1 hb.4))
              (rw
                (column_lem a.l1 b.l0 a.l0 b.l1 a.l4 (b.l2 * 19) a.l3 (b.l3 * 19) a.l2 (b.l4 * 19)
                  (one-le a.l1 b.l0 ha.1 hb.0) (one-le a.l0 b.l1 ha.0 hb.1)
                  (nineteen-le a.l4 b.l2 ha.4 hb.2) (nineteen-le a.l3 b.l3 ha.3 hb.3)
                  (nineteen-le a.l2 b.l4 ha.2 hb.4))
                (rw
                  (column_lem a.l2 b.l0 a.l1 b.l1 a.l0 b.l2 a.l4 (b.l3 * 19) a.l3 (b.l4 * 19)
                    (one-le a.l2 b.l0 ha.2 hb.0) (one-le a.l1 b.l1 ha.1 hb.1)
                    (one-le a.l0 b.l2 ha.0 hb.2) (nineteen-le a.l4 b.l3 ha.4 hb.3)
                    (nineteen-le a.l3 b.l4 ha.3 hb.4))
                  (rw
                    (column_lem a.l3 b.l0 a.l2 b.l1 a.l1 b.l2 a.l0 b.l3 a.l4 (b.l4 * 19)
                      (one-le a.l3 b.l0 ha.3 hb.0) (one-le a.l2 b.l1 ha.2 hb.1)
                      (one-le a.l1 b.l2 ha.1 hb.2) (one-le a.l0 b.l3 ha.0 hb.3)
                      (nineteen-le a.l4 b.l4 ha.4 hb.4))
                    (rw
                      (column_lem a.l4 b.l0 a.l3 b.l1 a.l2 b.l2 a.l1 b.l3 a.l0 b.l4
                        (one-le a.l4 b.l0 ha.4 hb.0) (one-le a.l3 b.l1 ha.3 hb.1)
                        (one-le a.l2 b.l2 ha.2 hb.2) (one-le a.l1 b.l3 ha.1 hb.3)
                        (one-le a.l0 b.l4 ha.0 hb.4))
                      refl))))))))

  c0-lt : c0 < 2 ^ 117
  c0-lt = omega (
    arith,
    one-le a.l0 b.l0 ha.0 hb.0,
    nineteen-le a.l4 b.l1 ha.4 hb.1,
    nineteen-le a.l3 b.l2 ha.3 hb.2,
    nineteen-le a.l2 b.l3 ha.2 hb.3,
    nineteen-le a.l1 b.l4 ha.1 hb.4,
  )

  c1-lt : c1 < 2 ^ 117
  c1-lt = omega (
    arith,
    one-le a.l1 b.l0 ha.1 hb.0,
    one-le a.l0 b.l1 ha.0 hb.1,
    nineteen-le a.l4 b.l2 ha.4 hb.2,
    nineteen-le a.l3 b.l3 ha.3 hb.3,
    nineteen-le a.l2 b.l4 ha.2 hb.4,
  )

  c2-lt : c2 < 2 ^ 117
  c2-lt = omega (
    arith,
    one-le a.l2 b.l0 ha.2 hb.0,
    one-le a.l1 b.l1 ha.1 hb.1,
    one-le a.l0 b.l2 ha.0 hb.2,
    nineteen-le a.l4 b.l3 ha.4 hb.3,
    nineteen-le a.l3 b.l4 ha.3 hb.4,
  )

  c3-lt : c3 < 2 ^ 117
  c3-lt = omega (
    arith,
    one-le a.l3 b.l0 ha.3 hb.0,
    one-le a.l2 b.l1 ha.2 hb.1,
    one-le a.l1 b.l2 ha.1 hb.2,
    one-le a.l0 b.l3 ha.0 hb.3,
    nineteen-le a.l4 b.l4 ha.4 hb.4,
  )

  c4-le : c4 ≤ 5 * 2 ^ 108
  c4-le = omega (
    arith,
    limbs_le a.l4 b.l0 ha.4 hb.0,
    limbs_le a.l3 b.l1 ha.3 hb.1,
    limbs_le a.l2 b.l2 ha.2 hb.2,
    limbs_le a.l1 b.l3 ha.1 hb.3,
    limbs_le a.l0 b.l4 ha.0 hb.4,
  )

  pub mul-Below : Below (2 ^ 52) (mul a b)
  mul-Below = rw mul-carried (carried_lem c0 c1 c2 c3 c4 c0-lt c1-lt c2-lt c3-lt c4-le).0

  -- For two elements whose limbs have 54 bits at most, the element that the code's limbs, columns and
  -- carries give has, modulo p, the product of the two elements' values as its value.
  pub mul-value : Cong (value a * value b) (value (mul a b))
  unfolding p
  mul-value =
      let (small, (k, e)) = carried_lem c0 c1 c2 c3 c4 c0-lt c1-lt c2-lt c3-lt c4-le in
      let high : ℕ =
        a.l4 * b.l1
        + a.l3 * b.l2
        + a.l2 * b.l3
        + a.l1 * b.l4
        + 2 ^ 51 * (a.l4 * b.l2 + a.l3 * b.l3 + a.l2 * b.l4)
        + 2 ^ 102 * (a.l4 * b.l3 + a.l3 * b.l4)
        + 2 ^ 153 * (a.l4 * b.l4) in
      rw mul-carried (
        Cong-of_eq (value a * value b) (value (carried c0 c1 c2 c3 c4)) (k + high) (
          joined (value a * value b) (c0 + 2 ^ 51 * c1 + 2 ^ 102 * c2 + 2 ^ 153 * c3 + 2 ^ 204 * c4)
            (value (carried c0 c1 c2 c3 c4)) k high (columns a b) e))
    where
      joined :
          (v s w k high : ℕ)
          → v ≡ s + (2 ^ 255 - 19) * high
          → s ≡ w + (2 ^ 255 - 19) * k
          → v ≡ w + (2 ^ 255 - 19) * (k + high)
      joined v s w k high e f = omega arith
