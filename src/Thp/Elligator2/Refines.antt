-- ===== src/Thp/Elligator2/Refines.antt =====
-- The code's map to the curve is the described one, on every input.
use maknoon_trezor_core_rs.Prelude.{
  ℕ, ◌+◌, ◌-◌, ◌*◌, ◌%◌, ◌^◌, ◌<◌, ◌≡◌, refl, sym, ap, ◌∙◌, Bool, true, false, if◌then◌else◌, Bytes,
  IsByte, All, arith,
}
use maknoon_trezor_core_rs.Thp.Elligator2.{map_fe, map_to_curve25519}
use maknoon_trezor_core_rs.Thp.Elligator2.Field.{
  Fe, one, from_u64, sqrt_m1, from_bytes, add, neg, mul, square, ct_eq, cmov,
}
use maknoon_trezor_core_rs.Thp.Elligator2.Pow.{invert, pow_p58}
use maknoon_trezor_core_rs.Thp.Elligator2.Modular.{p}
use maknoon_trezor_core_rs.Thp.Elligator2.Spec.{
  power, root_of_minus_one, curve_j, tv1, xd, x1n, gxd, gx1, y11, y12, solves, y1, xn, elligator2,
}
use maknoon_trezor_core_rs.Thp.Elligator2.LittleEndian.{from_le, to_le}
use maknoon_trezor_core_rs.Thp.Elligator2.Packing.{to_bytes_lem}
use maknoon_trezor_core_rs.Thp.Elligator2.Loading.{from_bytes_lem}
use maknoon_trezor_core_rs.Thp.Elligator2.Represents.{
  Represents, widen, widen53, mul-Represents, add-Represents, add_wide-Represents, neg-Represents,
  ct_eq-Represents,
}
use maknoon_trezor_core_rs.Thp.Elligator2.Powers.{power-one, invert-IsPower, pow_p58-IsPower}

-- The same number, written otherwise.
stands : (w : ℕ) (a : Fe) (m n : ℕ) → m ≡ n → Represents w a m → Represents w a n
stands w a m n e r = (r.0, r.1 ∙ ap (λ t. t % p) e)

product :
    (a b : Fe) (m n : ℕ) → Represents 52 a m → Represents 52 b n → Represents 52 (mul a b) (m * n)
product a b m n r s = mul-Represents a b m n (widen a m r) (widen b n s)

squared : (a : Fe) (m : ℕ) → Represents 52 a m → Represents 52 (square a) (m * m)
unfolding square
squared a m r = product a a m m r r

cube : (g x : ℕ) → (g * g) * g * x ≡ x * power g 3
unfolding power
cube g x = omega arith

seventh : (g x : ℕ) → (g * g) * (g * g) * (x * power g 3) ≡ x * power g 7
unfolding power
seventh g x = omega arith

as_power : (a : Fe) (m : ℕ) → Represents 54 a m → Represents 54 a (power m 1)
as_power a m r = stands 54 a m (power m 1) (sym (power-one m)) r

chosen :
    (a b : Fe) (m n : ℕ) (c : Bool)
    → Represents 52 a m
    → Represents 52 b n
    → Represents 52 (cmov a b c) (if c then n else m)
chosen a b m n true r s = s
chosen a b m n false r s = r

sqrt_m1-Represents : Represents 52 sqrt_m1 root_of_minus_one
sqrt_m1-Represents = (omega arith, refl)

j-Represents : Represents 52 (from_u64 curve_j) curve_j
j-Represents = (omega arith, refl)

one-Represents : Represents 52 one 1
one-Represents = (omega arith, refl)

j-lt-p : curve_j < p
unfolding p
j-lt-p = omega arith

squared_wide : (a : Fe) (m : ℕ) → Represents 54 a m → Represents 52 (square a) (m * m)
unfolding square
squared_wide a m r = mul-Represents a a m m r r

third : (x : ℕ) → x * x * x ≡ power x 3
unfolding power
third x = omega arith

-- The part of `map_fe` behind the fraction of the curve's right side.
module _ (u : ℕ) (t1 d n1 g x0 : Fe) (r1 : Represents 53 t1 (tv1 u)) (rd : Represents 54 d (xd u))
    (rn : Represents 52 n1 (x1n u)) (rg : Represents 52 g (gxd u))
    (rx : Represents 52 x0 (gx1 u)) where
  abbrev v3 : Fe
  v3 = mul (mul (square g) g) x0

  v3-Represents : Represents 52 v3 (gx1 u * power (gxd u) 3)
  v3-Represents =
      stands 52 v3 (gxd u * gxd u * gxd u * gx1 u) (gx1 u * power (gxd u) 3) (cube (gxd u) (gx1 u))
        (product (mul (square g) g) x0 (gxd u * gxd u * gxd u) (gx1 u)
          (product (square g) g (gxd u * gxd u) (gxd u) (squared g (gxd u) rg) rg) rx)

  abbrev v7 : Fe
  v7 = mul (square (square g)) v3

  v7-Represents : Represents 52 v7 (gx1 u * power (gxd u) 7)
  v7-Represents =
      stands 52 v7 (gxd u * gxd u * (gxd u * gxd u) * (gx1 u * power (gxd u) 3))
        (gx1 u * power (gxd u) 7) (seventh (gxd u) (gx1 u))
        (product (square (square g)) v3 (gxd u * gxd u * (gxd u * gxd u)) (gx1 u * power (gxd u) 3)
          (squared (square g) (gxd u * gxd u) (squared g (gxd u) rg)) v3-Represents)

  abbrev y11_fe : Fe
  y11_fe = mul (pow_p58 v7) v3

  y11-Represents : Represents 52 y11_fe (y11 u)
  y11-Represents =
      product (pow_p58 v7) v3 (power (gx1 u * power (gxd u) 7) (2 ^ 252 - 3))
        (gx1 u * power (gxd u) 3)
        (pow_p58-IsPower (gx1 u * power (gxd u) 7) v7 (
          as_power v7 (gx1 u * power (gxd u) 7) (widen v7 (gx1 u * power (gxd u) 7) v7-Represents)))
        v3-Represents

  -- Whether an element is the square root that is looked for.
  ct_eq-solves : (y : Fe) (n : ℕ) → Represents 52 y n → ct_eq (mul (square y) g) x0 ≡ solves u n
  ct_eq-solves y n r =
      ct_eq-Represents (mul (square y) g) x0 (n * n * gxd u) (gx1 u)
        (widen (mul (square y) g) (n * n * gxd u)
          (product (square y) g (n * n) (gxd u) (squared y n r) rg))
        (widen x0 (gx1 u) rx)

  abbrev y1_fe : Fe
  y1_fe = cmov (mul y11_fe sqrt_m1) y11_fe (ct_eq (mul (square y11_fe) g) x0)

  y1-Represents : Represents 52 y1_fe (y1 u)
  y1-Represents = rw (ct_eq-solves y11_fe (y11 u) y11-Represents) (
      chosen (mul y11_fe sqrt_m1) y11_fe (y12 u) (y11 u) (solves u (y11 u))
        (product y11_fe sqrt_m1 (y11 u) root_of_minus_one y11-Represents sqrt_m1-Represents)
        y11-Represents)

  abbrev xn_fe : Fe
  xn_fe = cmov (mul n1 t1) n1 (ct_eq (mul (square y1_fe) g) x0)

  xn-Represents : Represents 52 xn_fe (xn u)
  xn-Represents = rw (ct_eq-solves y1_fe (y1 u) y1-Represents) (
      chosen (mul n1 t1) n1 (x1n u * tv1 u) (x1n u) (solves u (y1 u))
        (mul-Represents n1 t1 (x1n u) (tv1 u) (widen n1 (x1n u) rn) (widen53 t1 (tv1 u) r1)) rn)

  pub coordinate-Represents : Represents 52 (mul xn_fe (invert d)) (xn u * power (xd u) (p - 2))
  unfolding p
  coordinate-Represents =
      product xn_fe (invert d) (xn u) (power (xd u) (p - 2)) xn-Represents
        (invert-IsPower (xd u) d (as_power d (xd u) rd))

-- The element that `map_fe` gives for one that stands for u stands for the described coordinate.
map_fe-Represents :
    (a : Fe) (u : ℕ) → Represents 52 a u → Represents 52 (map_fe a) (xn u * power (xd u) (p - 2))
unfolding map_fe
map_fe-Represents a u ru =
    let t1 : Fe = add (square a) (square a) in
    let uu = squared a u ru in
    let r1 : Represents 53 t1 (tv1 u) =
      stands 53 t1 (u * u + u * u) (tv1 u) (omega arith)
        (add-Represents (square a) (square a) (u * u) (u * u) uu uu) in
    let d : Fe = add t1 one in
    let rd : Represents 54 d (xd u) = add_wide-Represents t1 one (tv1 u) 1 r1 one-Represents in
    let j : Fe = from_u64 486662 in
    let n1 : Fe = neg j in
    let rn : Represents 52 n1 (x1n u) = neg-Represents j curve_j j-lt-p j-Represents in
    let dd : Fe = square d in
    let rdd : Represents 52 dd (xd u * xd u) = squared_wide d (xd u) rd in
    let g : Fe = mul dd d in
    let rg : Represents 52 g (gxd u) =
      stands 52 g (xd u * xd u * xd u) (gxd u) (third (xd u))
        (mul-Represents dd d (xd u * xd u) (xd u) (widen dd (xd u * xd u) rdd) rd) in
    let jt : Fe = mul j t1 in
    let rjt : Represents 52 jt (curve_j * tv1 u) =
      mul-Represents j t1 curve_j (tv1 u) (widen j curve_j j-Represents) (widen53 t1 (tv1 u) r1) in
    let s : Fe = add (mul jt n1) dd in
    let rs : Represents 53 s (curve_j * tv1 u * x1n u + xd u * xd u) =
      add-Represents (mul jt n1) dd (curve_j * tv1 u * x1n u) (xd u * xd u)
        (product jt n1 (curve_j * tv1 u) (x1n u) rjt rn) rdd in
    let rx : Represents 52 (mul s n1) (gx1 u) =
      mul-Represents s n1 (curve_j * tv1 u * x1n u + xd u * xd u) (x1n u)
        (widen53 s (curve_j * tv1 u * x1n u + xd u * xd u) rs) (widen n1 (x1n u) rn) in
    coordinate-Represents u t1 d n1 g (mul s n1) r1 rd rn rg rx

-- On every string of bytes, the map to the curve gives the 32 bytes, little end first, of the
-- coordinate that the description computes modulo p from the string's first 255 bits: the code's
-- limbs, carries, addition chain and comparisons of bytes do what the plain arithmetic does.
pub map_to_curve25519_refines :
    (input : Bytes)
    → All IsByte input
    → map_to_curve25519 input ≡ to_le 32 (elligator2 (from_le input % 2 ^ 255))
unfolding map_to_curve25519 elligator2
map_to_curve25519_refines input h =
    let u : ℕ = from_le input % 2 ^ 255 in
    let (small, e) = from_bytes_lem input h in
    let a : Fe = from_bytes input in
    let ra : Represents 52 a u = (omega arith, ap (λ t. t % p) e) in
    let (narrow, f) = map_fe-Represents a u ra in
    to_bytes_lem (map_fe a) (omega arith) ∙ ap (to_le 32) f
