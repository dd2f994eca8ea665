-- ===== src/Thp/Elligator2/Canonical.antt =====
-- The bytes of a field element: the canonical form is the remainder modulo p, and packing it gives
-- its 32 bytes, little end first.
use maknoon_trezor_core_rs.Prelude.{ℕ, ◌+◌, ◌-◌, ◌*◌, ◌/◌, ◌%◌, ◌^◌, ◌<◌, ◌≡◌, ap, ◌∙◌, arith}
use maknoon_trezor_core_rs.Thp.Elligator2.Word.{add64, mul64, shr, add64_lem, mul64_lem}
use maknoon_trezor_core_rs.Thp.Elligator2.Field.{Fe, fe, reduce, excess, propagate, canonical}
use maknoon_trezor_core_rs.Thp.Elligator2.Modular.{p}
use maknoon_trezor_core_rs.Thp.Elligator2.Carries.{value, Below}
use maknoon_trezor_core_rs.Thp.Elligator2.Sums.{reduce_lem}

-- The excess is the quotient of the value by p.
excess_lem :
    (l : Fe) → Below (2 ^ 52) l → value l < 2 * (2 ^ 255 - 19) → excess l ≡ (value l + 19) / 2 ^ 255
unfolding excess
excess_lem l h small =
    let e0 = add64_lem l.l0 19 (omega arith) in
    let s0 : ℕ = add64 l.l0 19 in
    let e1 = add64_lem l.l1 (shr s0 51) (omega arith) in
    let s1 : ℕ = add64 l.l1 (shr s0 51) in
    let e2 = add64_lem l.l2 (shr s1 51) (omega arith) in
    let s2 : ℕ = add64 l.l2 (shr s1 51) in
    let e3 = add64_lem l.l3 (shr s2 51) (omega arith) in
    let s3 : ℕ = add64 l.l3 (shr s2 51) in
    let e4 = add64_lem l.l4 (shr s3 51) (omega arith) in omega arith

-- The carries cut the value off at 255 bits.
propagate_lem :
    (l0 l1 l2 l3 l4 : ℕ)
    → l0 < 2 ^ 53
    → l1 < 2 ^ 53
    → l2 < 2 ^ 53
    → l3 < 2 ^ 53
    → l4 < 2 ^ 53
    → Below (2 ^ 51) (propagate l0 l1 l2 l3 l4)
      × (value (propagate l0 l1 l2 l3 l4) ≡ value (fe l0 l1 l2 l3 l4) % 2 ^ 255)
unfolding propagate
propagate_lem l0 l1 l2 l3 l4 h0 h1 h2 h3 h4 =
    let m1 : ℕ = add64 l1 (shr l0 51) in
    let m2 : ℕ = add64 l2 (shr m1 51) in
    let m3 : ℕ = add64 l3 (shr m2 51) in
    let m4 : ℕ = add64 l4 (shr m3 51) in
    let e1 : m1 ≡ l1 + l0 / 2 ^ 51 = add64_lem l1 (shr l0 51) (omega arith) in
    let e2 : m2 ≡ l2 + m1 / 2 ^ 51 = add64_lem l2 (shr m1 51) (omega arith) in
    let e3 : m3 ≡ l3 + m2 / 2 ^ 51 = add64_lem l3 (shr m2 51) (omega arith) in
    let e4 : m4 ≡ l4 + m3 / 2 ^ 51 = add64_lem l4 (shr m3 51) (omega arith) in
    (omega arith, omega arith)

-- The canonical form has the remainder of the value modulo p.
pub canonical_lem :
    (a : Fe) → Below (2 ^ 64) a → Below (2 ^ 51) (canonical a) × (value (canonical a) ≡ value a % p)
unfolding canonical p
canonical_lem a h =
    let (tight, (k, e)) = reduce_lem a h in
    let r : Fe = reduce a in
    let q : ℕ = excess r in
    let eq : q ≡ (value r + 19) / 2 ^ 255 = excess_lem r (omega arith) (omega arith) in
    let em : mul64 19 q ≡ 19 * q = mul64_lem 19 q (omega arith) in
    let e0 : add64 r.l0 (mul64 19 q) ≡ r.l0 + 19 * q =
      ap (add64 r.l0) em ∙ add64_lem r.l0 (19 * q) (omega arith) in
    let (small, f) =
      propagate_lem (add64 r.l0 (mul64 19 q)) r.l1 r.l2 r.l3 r.l4 (omega arith) (omega arith)
        (omega arith) (omega arith) (omega arith) in
    (
      small,
      remainder (value a) (value r) (value (canonical a)) q k (omega arith) eq (f ∙ omega arith) e,
    )
  where
    remainder :
        (w v c q k : ℕ)
        → v < 2 * (2 ^ 255 - 19)
        → q ≡ (v + 19) / 2 ^ 255
        → c ≡ (v + 19 * q) % 2 ^ 255
        → w ≡ v + (2 ^ 255 - 19) * k
        → c ≡ w % (2 ^ 255 - 19)
    remainder w v c q k h e f g = omega arith
