-- ===== src/Thp/Session.antt =====
-- trezor-core/src/thp/session.rs: the encrypted transport session. The nonces are `u64`; their
-- increment is written with the wrap-around of a release build.
pub mod Nonces
pub mod Transport
use maknoon_trezor_core_rs.Prelude.{
  ℕ, ◌+◌, ◌%◌, ◌^◌, List, [], ◌∷◌, ◌++◌, Bytes, be16, be64, from_be16, length, drop, get_or, ltb,
  replicate, if◌then◌else◌,
}
use maknoon_trezor_core_rs.Error.{Result, ok, err, thp_error}
use maknoon_trezor_core_rs.Thp.Aead.{Aes256Gcm, seal, open_sealed}
use maknoon_trezor_core_rs.Thp.Keys.{SessionKeys}

abbrev pub app_header_len : ℕ
app_header_len = 3

unfoldable pub iv_from_nonce : ℕ → Bytes
iv_from_nonce nonce = replicate 4 0 ++ be64 nonce

pub record Session : Type 0 where
  pub key_send : Bytes
  pub key_recv : Bytes
  pub nonce_send : ℕ
  pub nonce_recv : ℕ

abbrev pub new : Bytes → Bytes → ℕ → ℕ → Session
new key_send key_recv nonce_send nonce_recv = record {
  key_send = key_send;
  key_recv = key_recv;
  nonce_send = nonce_send;
  nonce_recv = nonce_recv;
}

unfoldable pub from_handshake : SessionKeys → Session
from_handshake keys = new keys.key_request keys.key_response keys.nonce_request keys.nonce_response

module _ (aes : Aes256Gcm) where
  unfoldable pub seal_message : Session → Bytes → Bytes × Session
  seal_message self app_payload = (
    seal aes self.key_send (iv_from_nonce self.nonce_send) [] app_payload,
    record self { nonce_send = (self.nonce_send + 1) % 2 ^ 64 },
  )

  -- The nonce advances on success only.
  unfoldable pub opened : Session → Result Bytes → Result Bytes × Session
  opened self (ok pt) = (ok pt, record self { nonce_recv = (self.nonce_recv + 1) % 2 ^ 64 })
  opened self (err e) = (err e, self)

  unfoldable pub open_message : Session → Bytes → Result Bytes × Session
  unfolding opened
  open_message self ciphertext =
      opened self (open_sealed aes self.key_recv (iv_from_nonce self.nonce_recv) [] ciphertext)

unfoldable pub encode_app_message : ℕ → ℕ → Bytes → Bytes
encode_app_message session_id message_type protobuf = session_id ∷ (be16 message_type ++ protobuf)

unfoldable pub decode_app_message : Bytes → Result (ℕ × ℕ × Bytes)
decode_app_message payload =
    if ltb (length payload) app_header_len
    then err (thp_error "application message shorter than its 3-byte header")
    else ok (
      get_or payload 0 0,
      from_be16 (get_or payload 1 0) (get_or payload 2 0),
      drop app_header_len payload,
    )
