-- ===== src/Thp/Cpace.antt =====
-- trezor-core/src/thp/cpace.rs: the host's side of CPace. SHA-512 is a parameter, as the
-- cryptography of the handshake is.
pub mod Agreement
mod Runs
use maknoon_trezor_core_rs.Prelude.{ℕ, ◌+◌, ◌/◌, ◌%◌, [], ◌∷◌, ◌++◌, Bytes, replicate, take}
use maknoon_trezor_core_rs.Thp.Noise.{Crypto}
use maknoon_trezor_core_rs.Thp.Elligator2.{map_to_curve25519}

abbrev pub dsi_prefix : Bytes
dsi_prefix = 0x08 ∷ 0x43 ∷ 0x50 ∷ 0x61 ∷ 0x63 ∷ 0x65 ∷ 0x32 ∷ 0x35 ∷ 0x35 ∷ 0x06 ∷ []

abbrev pub padding : Bytes
padding = 0x6f ∷ (replicate 111 0 ++ (0x20 ∷ []))

abbrev pub sid : Bytes
sid = 0x00 ∷ []

abbrev digit : ℕ → ℕ
digit n = 0x30 + n % 10

-- `format!("{:06}", code % 1_000_000)`, whose number has six digits at most.
unfoldable pub format_code : ℕ → Bytes
format_code code =
    let n = code % 1000000 in
    digit (n / 100000)
    ∷ digit (n / 10000)
    ∷ digit (n / 1000)
    ∷ digit (n / 100)
    ∷ digit (n / 10)
    ∷ digit n
    ∷ []

-- What is hashed to the generator.
unfoldable pub pregenerator_input : Bytes → Bytes → Bytes
pregenerator_input code handshake_hash =
    dsi_prefix ++ (code ++ (padding ++ (handshake_hash ++ sid)))

-- The host's public key and tag.
pub record HostCpace : Type 0 where
  pub host_public : Bytes
  pub tag : Bytes

module _ (c : Crypto) (sha512 : Bytes → Bytes) where
  unfoldable pub generator : Bytes → Bytes → Bytes
  unfolding map_to_curve25519
  generator code handshake_hash =
      map_to_curve25519 (take 32 (sha512 (pregenerator_input code handshake_hash)))

  unfoldable pub host_cpace : Bytes → Bytes → Bytes → Bytes → HostCpace
  unfolding generator
  host_cpace code handshake_hash trezor_public host_private =
      let g = generator code handshake_hash in
      let shared = c.x25519 host_private trezor_public in
      record { host_public = c.x25519 host_private g; tag = c.sha256 shared }
