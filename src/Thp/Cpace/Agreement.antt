-- ===== src/Thp/Cpace/Agreement.antt =====
-- CPace: both sides come to the same tag, and what is hashed determines the code.
use maknoon_trezor_core_rs.Prelude.{
  ℕ, ◌+◌, ◌*◌, ◌/◌, ◌%◌, ◌^◌, ◌<◌, ◌≡◌, refl, sym, ap, ◌∙◌, some, [], ◌∷◌, Bytes, take, drop,
  le→leb, lt→ltb, ne→==, ◌-◌, arith,
}
use mathlib.Core.List.{append_cancel_right}
use mathlib.Core.Option.{some-injective}
use maknoon_trezor_core_rs.Bip32.{Text, parse_digits, parse_u32}
use maknoon_trezor_core_rs.Thp.Noise.{Crypto}
use maknoon_trezor_core_rs.Thp.Cpace.{sid, format_code, pregenerator_input, generator, host_cpace}

parse_digits-digit :
    (acc d : ℕ) (cs : Text)
    → d < 10
    → acc * 10 + d < 2 ^ 32
    → parse_digits acc ((0x30 + d) ∷ cs) ≡ parse_digits (acc * 10 + d) cs
unfolding parse_digits
parse_digits-digit acc d cs h k =
    let low : 0x30 + d - 0x30 ≡ d = omega arith in
    rw
      (
        low,
        le→leb 0x30 (0x30 + d) (omega arith),
        le→leb (0x30 + d) 0x39 (omega arith),
        lt→ltb (acc * 10 + d) (2 ^ 32) k,
      )
      refl

-- Six digits are read as their number.
parse_u32-digits :
    (a b c d e f : ℕ)
    → a < 10
    → b < 10
    → c < 10
    → d < 10
    → e < 10
    → f < 10
    → parse_u32 ((0x30 + a) ∷ (0x30 + b) ∷ (0x30 + c) ∷ (0x30 + d) ∷ (0x30 + e) ∷ (0x30 + f) ∷ [])
      ≡ parse_digits (((((a * 10 + b) * 10 + c) * 10 + d) * 10 + e) * 10 + f) []
unfolding parse_u32
parse_u32-digits a b c d e f ha hb hc hd he hf =
    let x1 : ℕ = a * 10 + b in
    let x2 : ℕ = x1 * 10 + c in
    let x3 : ℕ = x2 * 10 + d in
    let x4 : ℕ = x3 * 10 + e in
    let first : 0 * 10 + a ≡ a = omega arith in
    rw (ne→== (0x30 + a) 0x2b (λ q. absurd (omega arith))) (
      parse_digits-digit 0 a ((0x30 + b) ∷ (0x30 + c) ∷ (0x30 + d) ∷ (0x30 + e) ∷ (0x30 + f) ∷ [])
        ha (omega arith)
      ∙ ap
          (λ t.
            parse_digits t ((0x30 + b) ∷ (0x30 + c) ∷ (0x30 + d) ∷ (0x30 + e) ∷ (0x30 + f) ∷ []))
          first
      ∙ parse_digits-digit a b ((0x30 + c) ∷ (0x30 + d) ∷ (0x30 + e) ∷ (0x30 + f) ∷ []) hb
          (omega arith)
      ∙ parse_digits-digit x1 c ((0x30 + d) ∷ (0x30 + e) ∷ (0x30 + f) ∷ []) hc (omega arith)
      ∙ parse_digits-digit x2 d ((0x30 + e) ∷ (0x30 + f) ∷ []) hd (omega arith)
      ∙ parse_digits-digit x3 e ((0x30 + f) ∷ []) he (omega arith)
      ∙ parse_digits-digit x4 f [] hf (omega arith))

-- A code is printed as six digits, from which its last six decimal digits are read back.
pub parse_u32-format_code : (code : ℕ) → parse_u32 (format_code code) ≡ some (code % 1000000)
unfolding format_code parse_digits
parse_u32-format_code code =
    let n : ℕ = code % 1000000 in
    parse_u32-digits (n / 100000 % 10) (n / 10000 % 10) (n / 1000 % 10) (n / 100 % 10) (n / 10 % 10)
      (n % 10) (omega arith) (omega arith) (omega arith) (omega arith) (omega arith) (omega arith)
    ∙ ap some (omega arith)

-- When two codes of six digits, with two handshake hashes, are hashed from the same bytes, the codes
-- are the same and the hashes are.
pub pregenerator_input-inj :
    (code code' : ℕ) (hash hash' : Bytes)
    → code < 1000000
    → code' < 1000000
    → pregenerator_input (format_code code) hash ≡ pregenerator_input (format_code code') hash'
    → (code ≡ code') × (hash ≡ hash')
unfolding pregenerator_input format_code
pregenerator_input-inj code code' hash hash' h h' e =
    let codes : format_code code ≡ format_code code' = ap (λ t. take 6 (drop 10 t)) e in
    let read : some (code % 1000000) ≡ some (code' % 1000000) =
      sym (parse_u32-format_code code) ∙ ap parse_u32 codes ∙ parse_u32-format_code code' in
    let same : code % 1000000 ≡ code' % 1000000 = some-injective _ _ read in
    (omega arith, append_cancel_right hash hash' sid (ap (drop 129) e))

module _ (c : Crypto) (sha512 : Bytes → Bytes) where
  -- The device, which multiplies the generator for the same code and handshake hash by its own scalar,
  -- computes from the host's public key the tag that the host has sent.
  pub host_cpace_agrees :
      (code handshake_hash trezor_private host_private : Bytes)
      → let host =
          host_cpace c sha512 code handshake_hash
            (c.x25519 trezor_private (generator c sha512 code handshake_hash))
            host_private in
        c.sha256 (c.x25519 trezor_private host.host_public) ≡ host.tag
  unfolding host_cpace
  host_cpace_agrees code handshake_hash trezor_private host_private =
      ap c.sha256
        (c.x25519_comm trezor_private host_private (generator c sha512 code handshake_hash))
