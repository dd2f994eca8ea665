-- ===== src/Thp/Elligator2/Packing.antt =====
-- The 32 bytes of a canonical field element.
use maknoon_trezor_core_rs.Prelude.{
  ℕ, ◌+◌, ◌*◌, ◌/◌, ◌%◌, ◌^◌, ◌<◌, ◌≡◌, sym, ap, ◌∙◌, [], ◌∷◌, IsByte, All, bit_or, bit_or_high,
  arith,
}
use native.Mathlib.Nat.{mod-eq_of_lt, mul_comm}
use maknoon_trezor_core_rs.Thp.Elligator2.Word.{shl64, shr}
use maknoon_trezor_core_rs.Thp.Elligator2.Field.{Fe, canonical, pack, to_bytes}
use maknoon_trezor_core_rs.Thp.Elligator2.Modular.{p}
use maknoon_trezor_core_rs.Thp.Elligator2.Carries.{value, Below}
use maknoon_trezor_core_rs.Thp.Elligator2.Canonical.{canonical_lem}
use maknoon_trezor_core_rs.Thp.Elligator2.LittleEndian.{from_le, to_le, to_le-from_le}

-- Two limbs meet in one byte.
shl_or : (k x y : ℕ) → x < 2 ^ k → y * 2 ^ k < 2 ^ 64 → bit_or x (shl64 y k) ≡ x + 2 ^ k * y
unfolding shl64
shl_or k x y h small = ap (bit_or x) (mod-eq_of_lt small ∙ mul_comm y (2 ^ k)) ∙ bit_or_high k x y h

pack-IsByte : (l : Fe) → All IsByte (pack l)
unfolding pack
pack-IsByte l = omega arith

-- The digits of each limb, as the bytes cut them.
limb0_digits :
    (x : ℕ)
    → x < 2 ^ 51
    → x
      ≡ x % 2 ^ 8
        + 2 ^ 8 * (x / 2 ^ 8 % 2 ^ 8)
        + 2 ^ 16 * (x / 2 ^ 16 % 2 ^ 8)
        + 2 ^ 24 * (x / 2 ^ 24 % 2 ^ 8)
        + 2 ^ 32 * (x / 2 ^ 32 % 2 ^ 8)
        + 2 ^ 40 * (x / 2 ^ 40 % 2 ^ 8)
        + 2 ^ 48 * (x / 2 ^ 48)
limb0_digits x h = omega arith

limb1_digits :
    (x : ℕ)
    → x < 2 ^ 51
    → x
      ≡ x % 2 ^ 5
        + 2 ^ 5 * (x / 2 ^ 5 % 2 ^ 8)
        + 2 ^ 13 * (x / 2 ^ 13 % 2 ^ 8)
        + 2 ^ 21 * (x / 2 ^ 21 % 2 ^ 8)
        + 2 ^ 29 * (x / 2 ^ 29 % 2 ^ 8)
        + 2 ^ 37 * (x / 2 ^ 37 % 2 ^ 8)
        + 2 ^ 45 * (x / 2 ^ 45)
limb1_digits x h = omega arith

limb2_digits :
    (x : ℕ)
    → x < 2 ^ 51
    → x
      ≡ x % 2 ^ 2
        + 2 ^ 2 * (x / 2 ^ 2 % 2 ^ 8)
        + 2 ^ 10 * (x / 2 ^ 10 % 2 ^ 8)
        + 2 ^ 18 * (x / 2 ^ 18 % 2 ^ 8)
        + 2 ^ 26 * (x / 2 ^ 26 % 2 ^ 8)
        + 2 ^ 34 * (x / 2 ^ 34 % 2 ^ 8)
        + 2 ^ 42 * (x / 2 ^ 42 % 2 ^ 8)
        + 2 ^ 50 * (x / 2 ^ 50)
limb2_digits x h = omega arith

limb3_digits :
    (x : ℕ)
    → x < 2 ^ 51
    → x
      ≡ x % 2 ^ 7
        + 2 ^ 7 * (x / 2 ^ 7 % 2 ^ 8)
        + 2 ^ 15 * (x / 2 ^ 15 % 2 ^ 8)
        + 2 ^ 23 * (x / 2 ^ 23 % 2 ^ 8)
        + 2 ^ 31 * (x / 2 ^ 31 % 2 ^ 8)
        + 2 ^ 39 * (x / 2 ^ 39 % 2 ^ 8)
        + 2 ^ 47 * (x / 2 ^ 47)
limb3_digits x h = omega arith

limb4_digits :
    (x : ℕ)
    → x < 2 ^ 51
    → x
      ≡ x % 2 ^ 4
        + 2 ^ 4 * (x / 2 ^ 4 % 2 ^ 8)
        + 2 ^ 12 * (x / 2 ^ 12 % 2 ^ 8)
        + 2 ^ 20 * (x / 2 ^ 20 % 2 ^ 8)
        + 2 ^ 28 * (x / 2 ^ 28 % 2 ^ 8)
        + 2 ^ 36 * (x / 2 ^ 36 % 2 ^ 8)
        + 2 ^ 44 * (x / 2 ^ 44 % 2 ^ 8)
limb4_digits x h = omega arith

-- The digits, put together again.
joined_digits :
    (b0 b1 b2 b3 b4 b5 b6 b7 b8 b9 b10 b11 b12 b13 b14 b15 b16 b17 b18 b19 b20 b21 b22 b23 b24 b25
      b26 b27 b28 b29 b30 b31 l0 l1 l2 l3 l4 t0 t1 t2 t3 r1 r2 r3 r4 : ℕ)
    → l0 ≡ b0 + 2 ^ 8 * b1 + 2 ^ 16 * b2 + 2 ^ 24 * b3 + 2 ^ 32 * b4 + 2 ^ 40 * b5 + 2 ^ 48 * t0
    → b6 ≡ t0 + 2 ^ 3 * r1
    → l1 ≡ r1 + 2 ^ 5 * b7 + 2 ^ 13 * b8 + 2 ^ 21 * b9 + 2 ^ 29 * b10 + 2 ^ 37 * b11 + 2 ^ 45 * t1
    → b12 ≡ t1 + 2 ^ 6 * r2
    → l2
      ≡ r2
        + 2 ^ 2 * b13
        + 2 ^ 10 * b14
        + 2 ^ 18 * b15
        + 2 ^ 26 * b16
        + 2 ^ 34 * b17
        + 2 ^ 42 * b18
        + 2 ^ 50 * t2
    → b19 ≡ t2 + 2 ^ 1 * r3
    → l3
      ≡ r3 + 2 ^ 7 * b20 + 2 ^ 15 * b21 + 2 ^ 23 * b22 + 2 ^ 31 * b23 + 2 ^ 39 * b24 + 2 ^ 47 * t3
    → b25 ≡ t3 + 2 ^ 4 * r4
    → l4
      ≡ r4 + 2 ^ 4 * b26 + 2 ^ 12 * b27 + 2 ^ 20 * b28 + 2 ^ 28 * b29 + 2 ^ 36 * b30 + 2 ^ 44 * b31
    → from_le (
        b0 ∷ b1 ∷ b2 ∷ b3 ∷ b4 ∷ b5 ∷ b6 ∷ b7 ∷ b8 ∷ b9 ∷ b10 ∷ b11 ∷ b12 ∷ b13 ∷ b14 ∷ b15 ∷ b16
        ∷ b17 ∷ b18 ∷ b19 ∷ b20 ∷ b21 ∷ b22 ∷ b23 ∷ b24 ∷ b25 ∷ b26 ∷ b27 ∷ b28 ∷ b29 ∷ b30 ∷ b31
        ∷ [])
      ≡ l0 + 2 ^ 51 * l1 + 2 ^ 102 * l2 + 2 ^ 153 * l3 + 2 ^ 204 * l4
unfolding from_le
joined_digits b0 b1 b2 b3 b4 b5 b6 b7 b8 b9 b10 b11 b12 b13 b14 b15 b16 b17 b18 b19 b20 b21 b22 b23
      b24 b25 b26 b27 b28 b29 b30 b31 l0 l1 l2 l3 l4 t0 t1 t2 t3 r1 r2 r3 r4 e0 e1 e2 e3 e4 e5 e6 e7
      e8 =
    omega arith

from_le-pack : (l : Fe) → Below (2 ^ 51) l → from_le (pack l) ≡ value l
unfolding pack
from_le-pack l h =
    let e1 = shl_or 3 (shr l.l0 48) l.l1 (omega arith) (omega arith) in
    let e2 = shl_or 6 (shr l.l1 45) l.l2 (omega arith) (omega arith) in
    let e3 = shl_or 1 (shr l.l2 50) l.l3 (omega arith) (omega arith) in
    let e4 = shl_or 4 (shr l.l3 47) l.l4 (omega arith) (omega arith) in
    rw e1 (
      rw e2 (
        rw e3 (
          rw e4 (
            joined_digits _ _ _ _ _ _ _ _ _ _ _ _ _ _ _ _ _ _ _ _ _ _ _ _ _ _ _ _ _ _ _ _ l.l0 l.l1
              l.l2 l.l3 l.l4 (l.l0 / 2 ^ 48) (l.l1 / 2 ^ 45) (l.l2 / 2 ^ 50) (l.l3 / 2 ^ 47)
              (l.l1 % 2 ^ 5) (l.l2 % 2 ^ 2) (l.l3 % 2 ^ 7) (l.l4 % 2 ^ 4) (limb0_digits l.l0 h.0)
              (omega arith) (limb1_digits l.l1 h.1) (omega arith) (limb2_digits l.l2 h.2)
              (omega arith) (limb3_digits l.l3 h.3) (omega arith) (limb4_digits l.l4 h.4)))))

-- A field element is written as the 32 bytes, little end first, of its value modulo p.
pub to_bytes_lem : (a : Fe) → Below (2 ^ 64) a → to_bytes a ≡ to_le 32 (value a % p)
unfolding to_bytes
to_bytes_lem a h =
    let (small, e) = canonical_lem a h in
    sym (to_le-from_le (pack (canonical a)) (pack-IsByte (canonical a)))
    ∙ ap (to_le 32) (from_le-pack (canonical a) small ∙ e)
