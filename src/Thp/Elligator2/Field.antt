-- ===== src/Thp/Elligator2/Field.antt =====
-- The field element `Fe` of trezor-core/src/thp/elligator2.rs: five limbs of radix 2^51.
use maknoon_trezor_core_rs.Prelude.{
  ℕ, zero, suc, ◌+◌, ◌*◌, ◌^◌, Bool, [], ◌∷◌, Bytes, bytes_eq, bit_or, get_or, if◌then◌else◌,
}
use maknoon_trezor_core_rs.Thp.Elligator2.Word.{
  add64, sub64, mul64, shl64, shr, add128, mul128, as_u64, as_u8, low51,
}

pub record Fe : Type 0 where
  pub l0 : ℕ
  pub l1 : ℕ
  pub l2 : ℕ
  pub l3 : ℕ
  pub l4 : ℕ

abbrev pub fe : ℕ → ℕ → ℕ → ℕ → ℕ → Fe
fe l0 l1 l2 l3 l4 = record { l0 = l0; l1 = l1; l2 = l2; l3 = l3; l4 = l4 }

unfoldable pub reduce : Fe → Fe
reduce limbs =
    fe (add64 (low51 limbs.l0) (mul64 (shr limbs.l4 51) 19))
      (add64 (low51 limbs.l1) (shr limbs.l0 51)) (add64 (low51 limbs.l2) (shr limbs.l1 51))
      (add64 (low51 limbs.l3) (shr limbs.l2 51)) (add64 (low51 limbs.l4) (shr limbs.l3 51))

abbrev pub zero_fe : Fe
zero_fe = fe 0 0 0 0 0

abbrev pub one : Fe
one = fe 1 0 0 0 0

abbrev pub from_u64 : ℕ → Fe
from_u64 x = fe x 0 0 0 0

abbrev pub sqrt_m1 : Fe
sqrt_m1 = fe 1718705420411056 234908883556509 2233514472574048 2117202627021982 765476049583133

-- `u64::from_le_bytes` of the eight bytes from i on.
unfoldable pub load8 : Bytes → ℕ → ℕ
load8 bytes i =
    get_or bytes i 0
    + get_or bytes (i + 1) 0 * 2 ^ 8
    + get_or bytes (i + 2) 0 * 2 ^ 16
    + get_or bytes (i + 3) 0 * 2 ^ 24
    + get_or bytes (i + 4) 0 * 2 ^ 32
    + get_or bytes (i + 5) 0 * 2 ^ 40
    + get_or bytes (i + 6) 0 * 2 ^ 48
    + get_or bytes (i + 7) 0 * 2 ^ 56

unfoldable pub from_bytes : Bytes → Fe
from_bytes bytes =
    fe (low51 (load8 bytes 0)) (low51 (shr (load8 bytes 6) 3)) (low51 (shr (load8 bytes 12) 6))
      (low51 (shr (load8 bytes 19) 1)) (low51 (shr (load8 bytes 24) 12))

-- The carry of `self + 19` out of the fifth limb.
unfoldable pub excess : Fe → ℕ
excess limbs =
    shr
      (add64 limbs.l4 (
        shr
          (add64 limbs.l3
            (shr (add64 limbs.l2 (shr (add64 limbs.l1 (shr (add64 limbs.l0 19) 51)) 51)) 51))
          51))
      51

-- The carries of `to_bytes`, from the first limb to the last.
unfoldable pub propagate : ℕ → ℕ → ℕ → ℕ → ℕ → Fe
propagate l0 l1 l2 l3 l4 =
    let m1 = add64 l1 (shr l0 51) in
    let m2 = add64 l2 (shr m1 51) in
    let m3 = add64 l3 (shr m2 51) in
    let m4 = add64 l4 (shr m3 51) in fe (low51 l0) (low51 m1) (low51 m2) (low51 m3) (low51 m4)

unfoldable pub canonical : Fe → Fe
canonical self =
    let limbs = reduce self in
    let q = excess limbs in
    propagate (add64 limbs.l0 (mul64 19 q)) limbs.l1 limbs.l2 limbs.l3 limbs.l4

-- The limbs as 32 bytes.
unfoldable pub pack : Fe → Bytes
pack limbs =
    as_u8 limbs.l0
    ∷ as_u8 (shr limbs.l0 8)
    ∷ as_u8 (shr limbs.l0 16)
    ∷ as_u8 (shr limbs.l0 24)
    ∷ as_u8 (shr limbs.l0 32)
    ∷ as_u8 (shr limbs.l0 40)
    ∷ as_u8 (bit_or (shr limbs.l0 48) (shl64 limbs.l1 3))
    ∷ as_u8 (shr limbs.l1 5)
    ∷ as_u8 (shr limbs.l1 13)
    ∷ as_u8 (shr limbs.l1 21)
    ∷ as_u8 (shr limbs.l1 29)
    ∷ as_u8 (shr limbs.l1 37)
    ∷ as_u8 (bit_or (shr limbs.l1 45) (shl64 limbs.l2 6))
    ∷ as_u8 (shr limbs.l2 2)
    ∷ as_u8 (shr limbs.l2 10)
    ∷ as_u8 (shr limbs.l2 18)
    ∷ as_u8 (shr limbs.l2 26)
    ∷ as_u8 (shr limbs.l2 34)
    ∷ as_u8 (shr limbs.l2 42)
    ∷ as_u8 (bit_or (shr limbs.l2 50) (shl64 limbs.l3 1))
    ∷ as_u8 (shr limbs.l3 7)
    ∷ as_u8 (shr limbs.l3 15)
    ∷ as_u8 (shr limbs.l3 23)
    ∷ as_u8 (shr limbs.l3 31)
    ∷ as_u8 (shr limbs.l3 39)
    ∷ as_u8 (bit_or (shr limbs.l3 47) (shl64 limbs.l4 4))
    ∷ as_u8 (shr limbs.l4 4)
    ∷ as_u8 (shr limbs.l4 12)
    ∷ as_u8 (shr limbs.l4 20)
    ∷ as_u8 (shr limbs.l4 28)
    ∷ as_u8 (shr limbs.l4 36)
    ∷ as_u8 (shr limbs.l4 44)
    ∷ []

unfoldable pub to_bytes : Fe → Bytes
unfolding canonical pack
to_bytes self = pack (canonical self)

unfoldable pub add : Fe → Fe → Fe
add self rhs =
    fe (add64 self.l0 rhs.l0) (add64 self.l1 rhs.l1) (add64 self.l2 rhs.l2) (add64 self.l3 rhs.l3)
      (add64 self.l4 rhs.l4)

-- 16p is added to each limb first.
unfoldable pub sub : Fe → Fe → Fe
unfolding reduce
sub self rhs = reduce (
    fe (sub64 (add64 self.l0 36028797018963664) rhs.l0)
      (sub64 (add64 self.l1 36028797018963952) rhs.l1)
      (sub64 (add64 self.l2 36028797018963952) rhs.l2)
      (sub64 (add64 self.l3 36028797018963952) rhs.l3)
      (sub64 (add64 self.l4 36028797018963952) rhs.l4))

unfoldable pub neg : Fe → Fe
unfolding sub
neg self = sub zero_fe self

-- A column of the product: five products of two limbs.
unfoldable pub column : ℕ → ℕ → ℕ → ℕ → ℕ → ℕ → ℕ → ℕ → ℕ → ℕ → ℕ
column x0 y0 x1 y1 x2 y2 x3 y3 x4 y4 =
    add128 (add128 (add128 (add128 (mul128 x0 y0) (mul128 x1 y1)) (mul128 x2 y2)) (mul128 x3 y3))
      (mul128 x4 y4)

-- The carries of `mul` through its five columns.
unfoldable pub carried : ℕ → ℕ → ℕ → ℕ → ℕ → Fe
carried c0 c1 c2 c3 c4 =
    let d1 = add128 c1 (shr c0 51) in
    let d2 = add128 c2 (shr d1 51) in
    let d3 = add128 c3 (shr d2 51) in
    let d4 = add128 c4 (shr d3 51) in
    let carry = as_u64 (shr d4 51) in
    let out0 = add64 (low51 (as_u64 c0)) (mul64 carry 19) in
    fe (low51 out0) (add64 (low51 (as_u64 d1)) (shr out0 51)) (low51 (as_u64 d2))
      (low51 (as_u64 d3)) (low51 (as_u64 d4))

unfoldable pub mul : Fe → Fe → Fe
unfolding column carried
mul a b =
    let b1_19 = mul64 b.l1 19 in
    let b2_19 = mul64 b.l2 19 in
    let b3_19 = mul64 b.l3 19 in
    let b4_19 = mul64 b.l4 19 in
    carried (column a.l0 b.l0 a.l4 b1_19 a.l3 b2_19 a.l2 b3_19 a.l1 b4_19)
      (column a.l1 b.l0 a.l0 b.l1 a.l4 b2_19 a.l3 b3_19 a.l2 b4_19)
      (column a.l2 b.l0 a.l1 b.l1 a.l0 b.l2 a.l4 b3_19 a.l3 b4_19)
      (column a.l3 b.l0 a.l2 b.l1 a.l1 b.l2 a.l0 b.l3 a.l4 b4_19)
      (column a.l4 b.l0 a.l3 b.l1 a.l2 b.l2 a.l1 b.l3 a.l0 b.l4)

unfoldable pub square : Fe → Fe
unfolding mul
square self = mul self self

-- `for _ in 0..k`
unfoldable pub pow2k : Fe → ℕ → Fe
unfolding square
pow2k self zero = self
pow2k self (suc k) = pow2k (square self) k

unfoldable pub ct_eq : Fe → Fe → Bool
unfolding to_bytes
ct_eq self rhs = bytes_eq (to_bytes self) (to_bytes rhs)

abbrev pub cmov : Fe → Fe → Bool → Fe
cmov a b c = if c then b else a
