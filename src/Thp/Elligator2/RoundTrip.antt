-- ===== src/Thp/Elligator2/RoundTrip.antt =====
-- The element that is read from the bytes of an element, trezor-core/src/thp/elligator2.rs.
use maknoon_trezor_core_rs.Prelude.{ℕ, ◌-◌, ◌%◌, ◌^◌, ◌≡◌, ap, ◌∙◌, arith}
use maknoon_trezor_core_rs.Thp.Elligator2.Field.{Fe, to_bytes, from_bytes}
use maknoon_trezor_core_rs.Thp.Elligator2.Modular.{p}
use maknoon_trezor_core_rs.Thp.Elligator2.Carries.{value, Below}
use maknoon_trezor_core_rs.Thp.Elligator2.LittleEndian.{from_le, to_le, to_le-IsByte, from_le-to_le}
use maknoon_trezor_core_rs.Thp.Elligator2.Packing.{to_bytes_lem}
use maknoon_trezor_core_rs.Thp.Elligator2.Loading.{from_bytes_lem}

-- Reading what is written for a field element gives an element of the same value modulo p, reduced
-- below p, whatever 64-bit limbs the written one has.
pub from_bytes-to_bytes :
    (a : Fe) → Below (2 ^ 64) a → value (from_bytes (to_bytes a)) ≡ value a % (2 ^ 255 - 19)
unfolding p
from_bytes-to_bytes a h =
    let v : ℕ = value a % (2 ^ 255 - 19) in
    let written : to_bytes a ≡ to_le 32 v = to_bytes_lem a h in
    let read : from_le (to_le 32 v) ≡ v = from_le-to_le 32 v (omega arith) in
    ap (λ t. value (from_bytes t)) written
    ∙ (from_bytes_lem (to_le 32 v) (to_le-IsByte 32 v)).1
    ∙ ap (λ t. t % 2 ^ 255) read
    ∙ omega arith
