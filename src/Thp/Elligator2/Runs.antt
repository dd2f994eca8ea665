-- ===== src/Thp/Elligator2/Runs.antt =====
-- Runs of the map to the curve: vectors of the source's tests, and the theorems at concrete inputs.
use maknoon_trezor_core_rs.Prelude.{◌*◌, ◌-◌, ◌%◌, ◌^◌, ◌≡◌, refl, [], ◌∷◌, Bytes, arith}
use maknoon_trezor_core_rs.Thp.Elligator2.Word.{add64, sub64, mul64, shl64, add128, mul128}
use maknoon_trezor_core_rs.Thp.Elligator2.Field.{
  Fe, fe, from_bytes, to_bytes, mul, reduce, load8, excess, propagate, canonical, pack, add, sub,
  neg, column, carried, square, pow2k, ct_eq,
}
use maknoon_trezor_core_rs.Thp.Elligator2.Pow.{pow22501, invert, pow_p58}
use maknoon_trezor_core_rs.Thp.Elligator2.Modular.{Cong}
use maknoon_trezor_core_rs.Thp.Elligator2.Product.{mul-value}
use maknoon_trezor_core_rs.Thp.Elligator2.Carries.{value}
use maknoon_trezor_core_rs.Thp.Elligator2.LittleEndian.{from_le, to_le}
use maknoon_trezor_core_rs.Thp.Elligator2.RoundTrip.{from_bytes-to_bytes}
use maknoon_trezor_core_rs.Thp.Elligator2.Spec.{elligator2}
use maknoon_trezor_core_rs.Thp.Elligator2.{map_fe, map_to_curve25519}
use maknoon_trezor_core_rs.Thp.Elligator2.Refines.{map_to_curve25519_refines}

abbrev input0 : Bytes
input0 =
    0x66 ∷ 0x66 ∷ 0x58 ∷ 0x95 ∷ 0xc5 ∷ 0xbc ∷ 0x6e ∷ 0x44 ∷ 0xba ∷ 0x8d ∷ 0x65 ∷ 0xfd ∷ 0x93 ∷ 0x07
    ∷ 0x09 ∷ 0x2e ∷ 0x32 ∷ 0x44 ∷ 0xbf ∷ 0x2c ∷ 0x18 ∷ 0x87 ∷ 0x78 ∷ 0x32 ∷ 0xbd ∷ 0x56 ∷ 0x8c
    ∷ 0xb3 ∷ 0xa2 ∷ 0xd3 ∷ 0x8a ∷ 0x12 ∷ []

abbrev expected0 : Bytes
expected0 =
    0x04 ∷ 0xd4 ∷ 0x42 ∷ 0x90 ∷ 0xd1 ∷ 0x31 ∷ 0x00 ∷ 0xb2 ∷ 0xc2 ∷ 0x52 ∷ 0x90 ∷ 0xc9 ∷ 0x34 ∷ 0x3d
    ∷ 0x70 ∷ 0xc1 ∷ 0x2e ∷ 0xd4 ∷ 0x81 ∷ 0x34 ∷ 0x87 ∷ 0xa0 ∷ 0x7a ∷ 0xc1 ∷ 0x17 ∷ 0x6d ∷ 0xaa
    ∷ 0x59 ∷ 0x25 ∷ 0xe7 ∷ 0x97 ∷ 0x5e ∷ []

vector0 : map_to_curve25519 input0 ≡ expected0
unfolding add64 sub64 mul64 shl64 add128 mul128 reduce load8 from_bytes excess propagate canonical
    pack to_bytes add sub neg column carried mul square pow2k ct_eq pow22501 invert pow_p58 map_fe
    map_to_curve25519
vector0 = refl

abbrev input1 : Bytes
input1 =
    0x67 ∷ 0x3a ∷ 0x50 ∷ 0x5e ∷ 0x10 ∷ 0x71 ∷ 0x89 ∷ 0xee ∷ 0x54 ∷ 0xca ∷ 0x93 ∷ 0x31 ∷ 0x0a ∷ 0xc4
    ∷ 0x2e ∷ 0x45 ∷ 0x45 ∷ 0xe9 ∷ 0xe5 ∷ 0x90 ∷ 0x50 ∷ 0xaa ∷ 0xac ∷ 0x6f ∷ 0x8b ∷ 0x5f ∷ 0x64
    ∷ 0x29 ∷ 0x5c ∷ 0x8e ∷ 0xc0 ∷ 0x2f ∷ []

abbrev expected1 : Bytes
expected1 =
    0x24 ∷ 0x2a ∷ 0xe3 ∷ 0x9e ∷ 0xf1 ∷ 0x58 ∷ 0xed ∷ 0x60 ∷ 0xf2 ∷ 0x0b ∷ 0x89 ∷ 0x39 ∷ 0x6d ∷ 0x7d
    ∷ 0x7e ∷ 0xef ∷ 0x53 ∷ 0x74 ∷ 0xab ∷ 0xa1 ∷ 0x5d ∷ 0xc3 ∷ 0x12 ∷ 0xa6 ∷ 0xae ∷ 0xa6 ∷ 0xd1
    ∷ 0xe5 ∷ 0x7c ∷ 0xac ∷ 0xf8 ∷ 0x5e ∷ []

vector1 : map_to_curve25519 input1 ≡ expected1
unfolding add64 sub64 mul64 shl64 add128 mul128 reduce load8 from_bytes excess propagate canonical
    pack to_bytes add sub neg column carried mul square pow2k ct_eq pow22501 invert pow_p58 map_fe
    map_to_curve25519
vector1 = refl

map_to_curve25519_refines_example :
    map_to_curve25519 input0 ≡ to_le 32 (elligator2 (from_le input0 % 2 ^ 255))
map_to_curve25519_refines_example = map_to_curve25519_refines input0 (omega arith)

-- Limbs of 54 bits, the largest that are multiplied.
abbrev wide : Fe
wide = fe (2 ^ 54 - 1) (2 ^ 54 - 1) (2 ^ 54 - 1) (2 ^ 54 - 1) (2 ^ 54 - 1)

mul-value_example : Cong (value wide * value wide) (value (mul wide wide))
mul-value_example = mul-value wide wide (omega arith) (omega arith)

from_bytes-to_bytes_example : value (from_bytes (to_bytes wide)) ≡ value wide % (2 ^ 255 - 19)
from_bytes-to_bytes_example = from_bytes-to_bytes wide (omega arith)
