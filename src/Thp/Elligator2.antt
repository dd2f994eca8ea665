-- ===== src/Thp/Elligator2.antt =====
-- trezor-core/src/thp/elligator2.rs: the map of a 32-byte string to a point of Curve25519.
pub mod Word
pub mod Field
pub mod Pow
pub mod Modular
pub mod Carries
pub mod Product
pub mod Sums
pub mod Canonical
pub mod LittleEndian
pub mod Packing
pub mod Loading
pub mod Spec
pub mod Represents
pub mod Powers
pub mod Refines
pub mod RoundTrip
mod Runs
use maknoon_trezor_core_rs.Prelude.{ℕ, Bytes}
use maknoon_trezor_core_rs.Thp.Elligator2.Field.{
  Fe, one, from_u64, sqrt_m1, from_bytes, to_bytes, add, neg, mul, square, ct_eq, cmov,
}
use maknoon_trezor_core_rs.Thp.Elligator2.Pow.{invert, pow_p58}

-- The u coordinate as a field element.
unfoldable pub map_fe : Fe → Fe
map_fe u =
    let c3 = sqrt_m1 in
    let j = from_u64 486662 in
    let tv1 = square u in
    let tv1 = add tv1 tv1 in
    let xd = add tv1 one in
    let x1n = neg j in
    let tv2 = square xd in
    let gxd = mul tv2 xd in
    let gx1 = mul j tv1 in
    let gx1 = mul gx1 x1n in
    let gx1 = add gx1 tv2 in
    let gx1 = mul gx1 x1n in
    let tv3 = square gxd in
    let tv2b = square tv3 in
    let tv3 = mul tv3 gxd in
    let tv3 = mul tv3 gx1 in
    let tv2b = mul tv2b tv3 in
    let y11 = pow_p58 tv2b in
    let y11 = mul y11 tv3 in
    let y12 = mul y11 c3 in
    let tv2c = square y11 in
    let tv2c = mul tv2c gxd in
    let e1 = ct_eq tv2c gx1 in
    let y1 = cmov y12 y11 e1 in
    let x2n = mul x1n tv1 in
    let tv2d = square y1 in
    let tv2d = mul tv2d gxd in
    let e3 = ct_eq tv2d gx1 in let xn = cmov x2n x1n e3 in mul xn (invert xd)

unfoldable pub map_to_curve25519 : Bytes → Bytes
unfolding map_fe
map_to_curve25519 input = to_bytes (map_fe (from_bytes input))
