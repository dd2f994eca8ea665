-- ===== src/Thp/Elligator2/Sums.antt =====
-- Sums and differences of field elements are those of their values.
use maknoon_trezor_core_rs.Prelude.{
  ℕ, ◌+◌, ◌-◌, ◌*◌, ◌/◌, ◌^◌, ◌<◌, ◌≤◌, ◌≡◌, refl, sym, ap, ◌∙◌, arith,
}
use maknoon_trezor_core_rs.Thp.Elligator2.Word.{
  add64, sub64, mul64, shr, low51, add64_lem, sub64_lem, mul64_lem,
}
use maknoon_trezor_core_rs.Thp.Elligator2.Field.{Fe, fe, reduce, add, sub}
use maknoon_trezor_core_rs.Thp.Elligator2.Modular.{p, Cong, Cong-of_eq}
use maknoon_trezor_core_rs.Thp.Elligator2.Carries.{value, Below}

-- Limbs of 64 bits are reduced to limbs that are hardly above 51 bits, and the value changes by a multiple of p.
pub reduce_lem :
    (l : Fe)
    → Below (2 ^ 64) l
    → Below (2 ^ 51 + 2 ^ 18) (reduce l)
      × ((k : ℕ) × (value l ≡ value (reduce l) + (2 ^ 255 - 19) * k))
unfolding reduce
reduce_lem l h =
    let m : mul64 (shr l.l4 51) 19 ≡ shr l.l4 51 * 19 = mul64_lem (shr l.l4 51) 19 (omega arith) in
    let e0 : add64 (low51 l.l0) (mul64 (shr l.l4 51) 19) ≡ low51 l.l0 + shr l.l4 51 * 19 =
      ap (add64 (low51 l.l0)) m ∙ add64_lem (low51 l.l0) (shr l.l4 51 * 19) (omega arith) in
    let e1 = add64_lem (low51 l.l1) (shr l.l0 51) (omega arith) in
    let e2 = add64_lem (low51 l.l2) (shr l.l1 51) (omega arith) in
    let e3 = add64_lem (low51 l.l3) (shr l.l2 51) (omega arith) in
    let e4 = add64_lem (low51 l.l4) (shr l.l3 51) (omega arith) in
    (omega arith, (l.l4 / 2 ^ 51, omega arith))

pub add-value :
    (a b : Fe)
    → Below (2 ^ 53) a
    → Below (2 ^ 53) b
    → Below (2 ^ 54) (add a b) × (value (add a b) ≡ value a + value b)
unfolding add
add-value a b ha hb =
    let e0 = add64_lem a.l0 b.l0 (omega arith) in
    let e1 = add64_lem a.l1 b.l1 (omega arith) in
    let e2 = add64_lem a.l2 b.l2 (omega arith) in
    let e3 = add64_lem a.l3 b.l3 (omega arith) in
    let e4 = add64_lem a.l4 b.l4 (omega arith) in (omega arith, omega arith)

-- The same with one bit less.
pub add-Below : (a b : Fe) → Below (2 ^ 52) a → Below (2 ^ 52) b → Below (2 ^ 53) (add a b)
unfolding add
add-Below a b ha hb =
    let e0 = add64_lem a.l0 b.l0 (omega arith) in
    let e1 = add64_lem a.l1 b.l1 (omega arith) in
    let e2 = add64_lem a.l2 b.l2 (omega arith) in
    let e3 = add64_lem a.l3 b.l3 (omega arith) in
    let e4 = add64_lem a.l4 b.l4 (omega arith) in omega arith

limb_sub :
    (x y n : ℕ)
    → x < 2 ^ 54
    → y < 2 ^ 54
    → 2 ^ 54 ≤ n
    → n < 2 ^ 56
    → sub64 (add64 x n) y ≡ x + n - y
limb_sub x y n hx hy hn hn' =
    ap (λ t. sub64 t y) (add64_lem x n (omega arith))
    ∙ sub64_lem (x + n) y (omega arith) (omega arith)

-- The difference behind 16p, before it is reduced.
abbrev raised : Fe → Fe → Fe
raised a b =
    fe (sub64 (add64 a.l0 36028797018963664) b.l0) (sub64 (add64 a.l1 36028797018963952) b.l1)
      (sub64 (add64 a.l2 36028797018963952) b.l2) (sub64 (add64 a.l3 36028797018963952) b.l3)
      (sub64 (add64 a.l4 36028797018963952) b.l4)

raised_lem :
    (a b : Fe)
    → Below (2 ^ 54) a
    → Below (2 ^ 54) b
    → Below (2 ^ 64) (raised a b) × (value (raised a b) + value b ≡ value a + (2 ^ 255 - 19) * 16)
raised_lem a b ha hb =
    let e0 = limb_sub a.l0 b.l0 36028797018963664 ha.0 hb.0 (omega arith) (omega arith) in
    let e1 = limb_sub a.l1 b.l1 36028797018963952 ha.1 hb.1 (omega arith) (omega arith) in
    let e2 = limb_sub a.l2 b.l2 36028797018963952 ha.2 hb.2 (omega arith) (omega arith) in
    let e3 = limb_sub a.l3 b.l3 36028797018963952 ha.3 hb.3 (omega arith) (omega arith) in
    let e4 = limb_sub a.l4 b.l4 36028797018963952 ha.4 hb.4 (omega arith) (omega arith) in
    (omega arith, omega arith)

pub sub-Below : (a b : Fe) → Below (2 ^ 54) a → Below (2 ^ 54) b → Below (2 ^ 52) (sub a b)
unfolding sub
sub-Below a b ha hb = let h = (reduce_lem (raised a b) (raised_lem a b ha hb).0).0 in omega arith

pub sub-value :
    (a b : Fe) → Below (2 ^ 54) a → Below (2 ^ 54) b → Cong (value (sub a b) + value b) (value a)
unfolding sub p
sub-value a b ha hb =
    let (small, e) = raised_lem a b ha hb in
    let (k, f) = (reduce_lem (raised a b) small).1 in
    sym (
      Cong-of_eq (value a + (2 ^ 255 - 19) * 16) (value (sub a b) + value b) k
        (joined (value a) (value b) (value (raised a b)) (value (sub a b)) k e f))
    ∙ Cong-of_eq (value a + (2 ^ 255 - 19) * 16) (value a) 16 refl
  where
    joined :
        (x y r s k : ℕ)
        → r + y ≡ x + (2 ^ 255 - 19) * 16
        → r ≡ s + (2 ^ 255 - 19) * k
        → x + (2 ^ 255 - 19) * 16 ≡ (s + y) + (2 ^ 255 - 19) * k
    joined x y r s k e f = omega arith
