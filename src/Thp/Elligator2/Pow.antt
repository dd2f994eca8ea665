-- ===== src/Thp/Elligator2/Pow.antt =====
-- The powers of `Fe` in trezor-core/src/thp/elligator2.rs: the addition chain and its two ends.
use maknoon_trezor_core_rs.Thp.Elligator2.Field.{Fe, mul, square, pow2k}

-- self^(2^250 - 1) and self^11
unfoldable pub pow22501 : Fe → Fe × Fe
unfolding mul square pow2k
pow22501 self =
    let t0 = square self in
    let t1 = square (square t0) in
    let t2 = mul self t1 in
    let t3 = mul t0 t2 in
    let t4 = square t3 in
    let t5 = mul t2 t4 in
    let t6 = pow2k t5 5 in
    let t7 = mul t6 t5 in
    let t8 = pow2k t7 10 in
    let t9 = mul t8 t7 in
    let t10 = pow2k t9 20 in
    let t11 = mul t10 t9 in
    let t12 = pow2k t11 10 in
    let t13 = mul t12 t7 in
    let t14 = pow2k t13 50 in
    let t15 = mul t14 t13 in
    let t16 = pow2k t15 100 in
    let t17 = mul t16 t15 in let t18 = pow2k t17 50 in let t19 = mul t18 t13 in (t19, t3)

unfoldable pub invert : Fe → Fe
unfolding pow22501
invert self = let (t19, t3) = pow22501 self in let t20 = pow2k t19 5 in mul t20 t3

unfoldable pub pow_p58 : Fe → Fe
unfolding pow22501
pow_p58 self = let (t19, t3) = pow22501 self in let t20 = pow2k t19 2 in mul self t20
