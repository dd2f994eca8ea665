-- ===== src/Thp/Elligator2/Carries.antt =====
-- The columns and carries of the product, and that nothing wraps on the way: `mul` of
-- trezor-core/src/thp/elligator2.rs.
use maknoon_trezor_core_rs.Prelude.{ℕ, ◌+◌, ◌-◌, ◌*◌, ◌/◌, ◌%◌, ◌^◌, ◌<◌, ◌≤◌, ◌≡◌, ap, ◌∙◌, arith}
use maknoon_trezor_core_rs.Thp.Elligator2.Word.{
  add64, mul64, add128, mul128, shr, low51, as_u64, add64_lem, mul64_lem, add128_lem, mul128_lem,
}
use maknoon_trezor_core_rs.Thp.Elligator2.Field.{Fe, fe, column, carried}

-- The value of five limbs.
abbrev pub value : Fe → ℕ
value a = a.l0 + 2 ^ 51 * a.l1 + 2 ^ 102 * a.l2 + 2 ^ 153 * a.l3 + 2 ^ 204 * a.l4

-- Every limb is below a bound.
abbrev pub Below : ℕ → Fe → Type 0
Below n a = (a.l0 < n) × (a.l1 < n) × (a.l2 < n) × (a.l3 < n) × (a.l4 < n)

-- Products of a limb with a limb, or with nineteen times a limb, have 113 bits.
pub column_lem :
    (x0 y0 x1 y1 x2 y2 x3 y3 x4 y4 : ℕ)
    → x0 * y0 ≤ 2 ^ 113
    → x1 * y1 ≤ 2 ^ 113
    → x2 * y2 ≤ 2 ^ 113
    → x3 * y3 ≤ 2 ^ 113
    → x4 * y4 ≤ 2 ^ 113
    → column x0 y0 x1 y1 x2 y2 x3 y3 x4 y4 ≡ x0 * y0 + x1 * y1 + x2 * y2 + x3 * y3 + x4 * y4
unfolding column
column_lem x0 y0 x1 y1 x2 y2 x3 y3 x4 y4 h0 h1 h2 h3 h4 =
    sums (x0 * y0) (x1 * y1) (x2 * y2) (x3 * y3) (x4 * y4) (mul128 x0 y0) (mul128 x1 y1)
      (mul128 x2 y2) (mul128 x3 y3) (mul128 x4 y4) h0 h1 h2 h3 h4 (mul128_lem x0 y0 (omega arith))
      (mul128_lem x1 y1 (omega arith)) (mul128_lem x2 y2 (omega arith))
      (mul128_lem x3 y3 (omega arith)) (mul128_lem x4 y4 (omega arith))
  where
    sums :
        (p0 p1 p2 p3 p4 q0 q1 q2 q3 q4 : ℕ)
        → p0 ≤ 2 ^ 113
        → p1 ≤ 2 ^ 113
        → p2 ≤ 2 ^ 113
        → p3 ≤ 2 ^ 113
        → p4 ≤ 2 ^ 113
        → q0 ≡ p0
        → q1 ≡ p1
        → q2 ≡ p2
        → q3 ≡ p3
        → q4 ≡ p4
        → add128 (add128 (add128 (add128 q0 q1) q2) q3) q4 ≡ p0 + p1 + p2 + p3 + p4
    sums p0 p1 p2 p3 p4 q0 q1 q2 q3 q4 h0 h1 h2 h3 h4 e0 e1 e2 e3 e4 =
        let a1 : add128 q0 q1 ≡ p0 + p1 =
          ap (λ t. add128 t q1) e0 ∙ ap (add128 p0) e1 ∙ add128_lem p0 p1 (omega arith) in
        let a2 : add128 (add128 q0 q1) q2 ≡ p0 + p1 + p2 =
          ap (λ t. add128 t q2) a1
          ∙ ap (add128 (p0 + p1)) e2
          ∙ add128_lem (p0 + p1) p2 (omega arith) in
        let a3 : add128 (add128 (add128 q0 q1) q2) q3 ≡ p0 + p1 + p2 + p3 =
          ap (λ t. add128 t q3) a2
          ∙ ap (add128 (p0 + p1 + p2)) e3
          ∙ add128_lem (p0 + p1 + p2) p3 (omega arith) in
        ap (λ t. add128 t q4) a3
        ∙ ap (add128 (p0 + p1 + p2 + p3)) e4
        ∙ add128_lem (p0 + p1 + p2 + p3) p4 (omega arith)

-- The carries, read without wrapping.
module _ (c0 c1 c2 c3 c4 d1 d2 d3 d4 carry out0 : ℕ) (h4 : c4 ≤ 5 * 2 ^ 108) (h0 : c0 < 2 ^ 117)
    (h1 : c1 < 2 ^ 117) (h2 : c2 < 2 ^ 117) (h3 : c3 < 2 ^ 117) (e1 : d1 ≡ c1 + c0 / 2 ^ 51)
    (e2 : d2 ≡ c2 + d1 / 2 ^ 51) (e3 : d3 ≡ c3 + d2 / 2 ^ 51) (e4 : d4 ≡ c4 + d3 / 2 ^ 51)
    (ec : carry ≡ d4 / 2 ^ 51) (e0 : out0 ≡ c0 % 2 ^ 64 % 2 ^ 51 + carry * 19) where
  abbrev out : Fe
  out =
      fe (out0 % 2 ^ 51) (d1 % 2 ^ 64 % 2 ^ 51 + out0 / 2 ^ 51) (d2 % 2 ^ 64 % 2 ^ 51)
        (d3 % 2 ^ 64 % 2 ^ 51) (d4 % 2 ^ 64 % 2 ^ 51)

  out-Below : Below (2 ^ 52) out
  out-Below = omega arith

  out-value :
      c0 + 2 ^ 51 * c1 + 2 ^ 102 * c2 + 2 ^ 153 * c3 + 2 ^ 204 * c4
      ≡ value out + (2 ^ 255 - 19) * carry
  out-value = omega arith

-- The carries keep the value up to a multiple of p, and leave limbs of 52 bits.
pub carried_lem :
    (c0 c1 c2 c3 c4 : ℕ)
    → c0 < 2 ^ 117
    → c1 < 2 ^ 117
    → c2 < 2 ^ 117
    → c3 < 2 ^ 117
    → c4 ≤ 5 * 2 ^ 108
    → Below (2 ^ 52) (carried c0 c1 c2 c3 c4)
      × ((k : ℕ) × (c0 + 2 ^ 51 * c1 + 2 ^ 102 * c2 + 2 ^ 153 * c3 + 2 ^ 204 * c4
            ≡ value (carried c0 c1 c2 c3 c4) + (2 ^ 255 - 19) * k))
unfolding carried
carried_lem c0 c1 c2 c3 c4 h0 h1 h2 h3 h4 =
    let d1 : ℕ = add128 c1 (shr c0 51) in
    let d2 : ℕ = add128 c2 (shr d1 51) in
    let d3 : ℕ = add128 c3 (shr d2 51) in
    let d4 : ℕ = add128 c4 (shr d3 51) in
    let carry : ℕ = as_u64 (shr d4 51) in
    let out0 : ℕ = add64 (low51 (as_u64 c0)) (mul64 carry 19) in
    let e1 : d1 ≡ c1 + c0 / 2 ^ 51 = add128_lem c1 (shr c0 51) (omega arith) in
    let e2 : d2 ≡ c2 + d1 / 2 ^ 51 = add128_lem c2 (shr d1 51) (omega arith) in
    let e3 : d3 ≡ c3 + d2 / 2 ^ 51 = add128_lem c3 (shr d2 51) (omega arith) in
    let e4 : d4 ≡ c4 + d3 / 2 ^ 51 = add128_lem c4 (shr d3 51) (omega arith) in
    let ec : carry ≡ d4 / 2 ^ 51 = omega arith in
    let em : mul64 carry 19 ≡ carry * 19 = mul64_lem carry 19 (omega arith) in
    let e0 : out0 ≡ c0 % 2 ^ 64 % 2 ^ 51 + carry * 19 =
      ap (add64 (low51 (as_u64 c0))) em
      ∙ add64_lem (low51 (as_u64 c0)) (carry * 19) (omega arith) in
    let eo : add64 (low51 (as_u64 d1)) (shr out0 51) ≡ d1 % 2 ^ 64 % 2 ^ 51 + out0 / 2 ^ 51 =
      add64_lem (low51 (as_u64 d1)) (shr out0 51) (omega arith) in
    rw eo (
      out-Below c0 c1 c2 c3 c4 d1 d2 d3 d4 carry out0 h4 h0 h1 h2 h3 e1 e2 e3 e4 ec e0,
      (carry, out-value c0 c1 c2 c3 c4 d1 d2 d3 d4 carry out0 h4 h0 h1 h2 h3 e1 e2 e3 e4 ec e0),
    )
