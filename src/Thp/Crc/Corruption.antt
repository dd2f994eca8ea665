-- ===== src/Thp/Crc/Corruption.antt =====
-- The checksum is a 32-bit number, and a change of one byte always changes it.
use maknoon_trezor_core_rs.Prelude.{
  ℕ, zero, suc, ◌+◌, ◌/◌, ◌%◌, ◌^◌, ◌<◌, ◌≡◌, ◌≢◌, refl, sym, ap, ◌∙◌, [], ◌∷◌, ◌++◌, bit_xor,
  Bytes, IsByte, All, arith, bit_and-one, bit_xor-lt, bit_xor_cancel, bit_xor_top, bit_xor-zero,
  bit_xor_left_inj, parity, inl, inr,
}
use maknoon_trezor_core_rs.Thp.Crc.{
  crc_round, crc_rounds, crc_bytes, crc32_ieee, polynomial, all_ones,
}

crc_round_even : (crc : ℕ) → crc % 2 ≡ 0 → crc_round crc ≡ crc / 2
unfolding crc_round
crc_round_even crc e = rw (bit_and-one crc, e) (bit_xor-zero (crc / 2))

crc_round_odd : (crc : ℕ) → crc % 2 ≡ 1 → crc_round crc ≡ bit_xor (crc / 2) polynomial
unfolding crc_round
crc_round_odd crc e = rw (bit_and-one crc, e) refl

-- The polynomial has the top bit, which tells the two cases apart.
crc_round_high :
    (crc : ℕ) → crc < 2 ^ 32 → crc % 2 ≡ 1 → crc_round crc ≡ 2 ^ 31 + bit_xor (crc / 2) 0x6db8_8320
crc_round_high crc h e =
    crc_round_odd crc e ∙ bit_xor_top 31 (crc / 2) 0x6db8_8320 (omega arith) (omega arith)

crc_round-lt : (crc : ℕ) → crc < 2 ^ 32 → crc_round crc < 2 ^ 32
crc_round-lt crc h = elim (parity crc) [
  | inl e ↦ omega (arith, crc_round_even crc e)
  | inr e ↦
      rw (crc_round_odd crc e) (bit_xor-lt 32 (crc / 2) polynomial (omega arith) (omega arith))
]

bit_xor_inj : (w a b k : ℕ) → a < 2 ^ w → b < 2 ^ w → k < 2 ^ w → bit_xor a k ≡ bit_xor b k → a ≡ b
bit_xor_inj w a b k ha hb hk e =
    sym (bit_xor_cancel w a k ha hk) ∙ ap (λ t. bit_xor t k) e ∙ bit_xor_cancel w b k hb hk

crc_round_inj : (a b : ℕ) → a < 2 ^ 32 → b < 2 ^ 32 → crc_round a ≡ crc_round b → a ≡ b
crc_round_inj a b ha hb e = elim (parity a) [
  | inl p ↦ elim (parity b) [
    | inl q ↦ omega (arith, crc_round_even a p, crc_round_even b q)
    | inr q ↦ absurd (omega (arith, crc_round_even a p, crc_round_high b hb q))
  ]
  | inr p ↦ elim (parity b) [
    | inl q ↦ absurd (omega (arith, crc_round_high a ha p, crc_round_even b q))
    | inr q ↦ omega (
      arith,
      bit_xor_inj 32 (a / 2) (b / 2) polynomial (omega arith) (omega arith) (omega arith)
          (sym (crc_round_odd a p) ∙ e ∙ crc_round_odd b q),
    )
  ]
]

crc_rounds-lt : (n crc : ℕ) → crc < 2 ^ 32 → crc_rounds n crc < 2 ^ 32
unfolding crc_rounds
crc_rounds-lt zero crc h = h
crc_rounds-lt (suc n) crc h = crc_rounds-lt n (crc_round crc) (crc_round-lt crc h)

crc_rounds_inj : (n a b : ℕ) → a < 2 ^ 32 → b < 2 ^ 32 → crc_rounds n a ≡ crc_rounds n b → a ≡ b
unfolding crc_rounds
crc_rounds_inj zero a b ha hb e = e
crc_rounds_inj (suc n) a b ha hb e =
    crc_round_inj a b ha hb
      (crc_rounds_inj n (crc_round a) (crc_round b) (crc_round-lt a ha) (crc_round-lt b hb) e)

crc_bytes-lt : (crc : ℕ) (m : Bytes) → crc < 2 ^ 32 → All IsByte m → crc_bytes crc m < 2 ^ 32
unfolding crc_bytes
crc_bytes-lt crc [] h bs = h
crc_bytes-lt crc (b ∷ m) h bs =
    crc_bytes-lt (crc_rounds 8 (bit_xor crc b)) m
      (crc_rounds-lt 8 (bit_xor crc b) (bit_xor-lt 32 crc b h (omega arith))) bs.1

-- With the same bytes to come, different states stay different.
crc_bytes_inj :
    (a b : ℕ) (m : Bytes)
    → a < 2 ^ 32
    → b < 2 ^ 32
    → All IsByte m
    → crc_bytes a m ≡ crc_bytes b m
    → a ≡ b
unfolding crc_bytes
crc_bytes_inj a b [] ha hb bs e = e
crc_bytes_inj a b (x ∷ m) ha hb bs e =
    let hx : x < 2 ^ 32 = omega arith in
    let la : bit_xor a x < 2 ^ 32 = bit_xor-lt 32 a x ha hx in
    let lb : bit_xor b x < 2 ^ 32 = bit_xor-lt 32 b x hb hx in
    bit_xor_inj 32 a b x ha hb hx (
      crc_rounds_inj 8 (bit_xor a x) (bit_xor b x) la lb (
        crc_bytes_inj (crc_rounds 8 (bit_xor a x)) (crc_rounds 8 (bit_xor b x)) m
          (crc_rounds-lt 8 _ la) (crc_rounds-lt 8 _ lb) bs.1 e))

crc_bytes-append : (crc : ℕ) (m n : Bytes) → crc_bytes crc (m ++ n) ≡ crc_bytes (crc_bytes crc m) n
unfolding crc_bytes
crc_bytes-append crc [] n = refl
crc_bytes-append crc (b ∷ m) n = crc_bytes-append (crc_rounds 8 (bit_xor crc b)) m n

-- The checksum is a `u32`.
pub crc32_ieee-lt : (m : Bytes) → crc32_ieee m < 2 ^ 32
unfolding crc32_ieee
crc32_ieee-lt m = omega arith

-- Two messages of bytes that differ in exactly one place have different checksums.
pub crc32_ieee-ne_of_byte :
    (front back : Bytes) (a b : ℕ)
    → All IsByte front
    → All IsByte back
    → a < 256
    → b < 256
    → a ≢ b
    → crc32_ieee (front ++ (a ∷ back)) ≢ crc32_ieee (front ++ (b ∷ back))
unfolding crc32_ieee crc_bytes
crc32_ieee-ne_of_byte front back a b hf hb ha hb' ne e =
    let s : ℕ = crc_bytes all_ones front in
    let hs : s < 2 ^ 32 = crc_bytes-lt all_ones front (omega arith) hf in
    let la : bit_xor s a < 2 ^ 32 = bit_xor-lt 32 s a hs (omega arith) in
    let lb : bit_xor s b < 2 ^ 32 = bit_xor-lt 32 s b hs (omega arith) in
    let sa : ℕ = crc_rounds 8 (bit_xor s a) in
    let sb : ℕ = crc_rounds 8 (bit_xor s b) in
    let ea : crc_bytes all_ones (front ++ (a ∷ back)) ≡ crc_bytes sa back =
      crc_bytes-append all_ones front (a ∷ back) in
    let eb : crc_bytes all_ones (front ++ (b ∷ back)) ≡ crc_bytes sb back =
      crc_bytes-append all_ones front (b ∷ back) in
    let fa : crc_bytes sa back < 2 ^ 32 = crc_bytes-lt sa back (crc_rounds-lt 8 _ la) hb in
    let fb : crc_bytes sb back < 2 ^ 32 = crc_bytes-lt sb back (crc_rounds-lt 8 _ lb) hb in
    ne (
      bit_xor_left_inj 8 s a b ha hb' (
        crc_rounds_inj 8 _ _ la lb (
          crc_bytes_inj sa sb back (crc_rounds-lt 8 _ la) (crc_rounds-lt 8 _ lb) hb (omega arith))))
