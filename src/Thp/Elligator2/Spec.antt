-- ===== src/Thp/Elligator2/Spec.antt =====
-- An independent description of the map: RFC 9380's `map_to_curve_elligator2_curve25519`, in plain
-- arithmetic modulo p. A square root of -1 modulo p is 2^((p - 1) / 4), written out here.
use maknoon_trezor_core_rs.Prelude.{
  ℕ, zero, suc, ◌+◌, ◌-◌, ◌*◌, ◌%◌, ◌^◌, Bool, ◌==◌, if◌then◌else◌,
}
use maknoon_trezor_core_rs.Thp.Elligator2.Modular.{p}

unfoldable pub power : ℕ → ℕ → ℕ
power a zero = 1
power a (suc n) = a * power a n

abbrev pub root_of_minus_one : ℕ
root_of_minus_one = 19681161376707505956807079304988542015446066515923890162744021073123829784752

-- The coefficient of the curve v^2 = u^3 + 486662 u^2 + u.
abbrev pub curve_j : ℕ
curve_j = 486662

-- The first candidate is the fraction -J / (1 + 2 u^2). Where the curve's right side at it is a
-- square it is taken, and else it is multiplied by 2 u^2.
module _ (u : ℕ) where
  abbrev pub tv1 : ℕ
  tv1 = 2 * (u * u)

  abbrev pub xd : ℕ
  xd = tv1 + 1

  abbrev pub x1n : ℕ
  x1n = p - curve_j

  abbrev pub gxd : ℕ
  gxd = power xd 3

  abbrev pub gx1 : ℕ
  gx1 = (curve_j * tv1 * x1n + xd * xd) * x1n

  -- A square root of gx1 / gxd, if there is one, up to a square root of -1.
  abbrev pub y11 : ℕ
  y11 = power (gx1 * power gxd 7) (2 ^ 252 - 3) * (gx1 * power gxd 3)

  abbrev pub y12 : ℕ
  y12 = y11 * root_of_minus_one

  abbrev pub solves : ℕ → Bool
  solves y = (y * y * gxd) % p == gx1 % p

  abbrev pub y1 : ℕ
  y1 = if solves y11 then y11 else y12

  abbrev pub xn : ℕ
  xn = if solves y1 then x1n else x1n * tv1

  unfoldable pub elligator2 : ℕ
  elligator2 = (xn * power xd (p - 2)) % p
