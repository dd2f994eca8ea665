-- ===== src/Thp/Keys.antt =====
-- `SessionKeys` of trezor-core/src/thp/noise.rs: what a completed handshake hands to the session.
use maknoon_trezor_core_rs.Prelude.{ℕ, Bytes}

pub record SessionKeys : Type 0 where
  pub key_request : Bytes
  pub key_response : Bytes
  pub nonce_request : ℕ
  pub nonce_response : ℕ
  pub trezor_state : Bytes
  pub trezor_masked_static_pubkey : Bytes
  pub handshake_hash : Bytes
  pub host_static_pubkey : Bytes
