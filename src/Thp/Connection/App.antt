-- ===== src/Thp/Connection/App.antt =====
-- Application messages over the session: `send_app`, `recv_app`, `transceive`,
-- `create_seeded_session` and `decode_failure` of trezor-core/src/thp/connection.rs.
use maknoon_trezor_core_rs.Prelude.{
  ℕ, zero, suc, Bool, false, Option, none, some, List, [], ◌∷◌, Bytes, length, ◌==◌, if◌then◌else◌,
}
use maknoon_trezor_core_rs.Error.{
  TrezorError, user_canceled, device_rejected, thp, lit, num, text, Result, ok, err, thp_error,
}
use maknoon_trezor_core_rs.Proto.{Decoded, decoded, undecodable}
use maknoon_trezor_core_rs.Outcome.{Op, done, out_of_fuel, ◌>>=◌, ◌>>◌, lift, get, modify}
use maknoon_trezor_core_rs.Thp.Aead.{Aes256Gcm}
use maknoon_trezor_core_rs.Thp.Control.{encrypted_transport}
use maknoon_trezor_core_rs.Thp.Session.{
  Session, seal_message, open_message, encode_app_message, decode_app_message,
}
use maknoon_trezor_core_rs.Thp.Connection.{Connection, set_session, seeded_session_id}
use maknoon_trezor_core_rs.Thp.Connection.Abp.{send_data, recv_data}

abbrev pub msg_success : ℕ
msg_success = 2

abbrev pub msg_failure : ℕ
msg_failure = 3

abbrev pub msg_button_request : ℕ
msg_button_request = 26

abbrev pub msg_button_ack : ℕ
msg_button_ack = 27

abbrev pub msg_create_new_session : ℕ
msg_create_new_session = 1000

-- The generated codecs that the driver uses. A `Failure` is its code, as the bits of an `i32`,
-- and its message; `create_new_session` takes the passphrase, `on_device` and `derive_cardano`.
pub record Messages : Type 0 where
  pub button_ack : Bytes
  pub failure : Bytes → Decoded (Option ℕ × Option (List ℕ))
  pub create_new_session : Option (List ℕ) → Bool → Bool → Bytes

abbrev pub or_zero : Option ℕ → ℕ
or_zero none = 0
or_zero (some n) = n

abbrev pub or_empty : Option (List ℕ) → List ℕ
or_empty none = []
or_empty (some xs) = xs

abbrev pub failure_error : Decoded (Option ℕ × Option (List ℕ)) → TrezorError
failure_error (undecodable e) = thp_error "device returned an undecodable Failure"
failure_error (decoded (code, message)) =
    if or_zero code == 4
    then user_canceled
    else device_rejected (or_zero code) (text (or_empty message) ∷ [])

unfoldable pub decode_failure : Messages → Bytes → TrezorError
decode_failure msgs proto = failure_error (msgs.failure proto)

abbrev pub no_session : {A : Type 0} → Result A
no_session = err (thp_error "no encrypted session established")

module _ (aes : Aes256Gcm) where
  -- The nonce moves on before the message is sent.
  abbrev pub seal_app : Option Session → Bytes → Op Connection Bytes
  seal_app none payload self = done no_session self
  seal_app (some session) payload self =
      let sealed = seal_message aes session payload in
      done (ok sealed.0) (set_session sealed.1 self)

  unfoldable pub send_app : ℕ → Bytes → Op Connection (Unit {0})
  send_app message_type protobuf = do
    self ← get
    ct ← seal_app self.session (encode_app_message self.active_session_id message_type protobuf)
    send_data encrypted_transport ct

  abbrev pub open_app : Option Session → Bytes → Op Connection Bytes
  open_app none ct self = done no_session self
  open_app (some session) ct self =
      let opened = open_message aes session ct in done opened.0 (set_session opened.1 self)

  unfoldable pub recv_app : Op Connection (ℕ × Bytes)
  recv_app = do
    (_, ct) ← recv_data
    self ← get
    pt ← open_app self.session ct
    (_, message_type, body) ← lift (decode_app_message pt)
    lift (ok (message_type, body))

  module _ (msgs : Messages) where
    -- The loop of `transceive`.
    unfoldable pub await_reply : ℕ → Op Connection (ℕ × Bytes)
    await_reply zero = out_of_fuel
    await_reply (suc fuel) = do
      (rt, rp) ← recv_app
      if rt == msg_button_request
          then (send_app msg_button_ack msgs.button_ack >> await_reply fuel)
          else if rt == msg_failure
          then lift (err (decode_failure msgs rp))
          else lift (ok (rt, rp))

    -- A round takes a read, or the frame that `send_data` kept.
    abbrev pub reply_rounds : Connection → ℕ
    reply_rounds self = suc (suc (length self.transport.incoming))

    unfoldable pub transceive : ℕ → Bytes → Op Connection (ℕ × Bytes)
    unfolding await_reply
    transceive message_type protobuf = do
      send_app message_type protobuf
      self ← get
      await_reply (reply_rounds self)

    unfoldable pub transceive_on : ℕ → ℕ → Bytes → Op Connection (ℕ × Bytes)
    unfolding transceive
    transceive_on session_id message_type protobuf = do
      modify (λ self. record self { active_session_id = session_id })
      transceive message_type protobuf

    unfoldable pub create_seeded_session : Option (List ℕ) → Bool → Op Connection (Unit {0})
    unfolding transceive
    create_seeded_session passphrase on_device = do
      modify (λ self. record self { active_session_id = seeded_session_id })
      (rt, _) ←
          transceive msg_create_new_session (msgs.create_new_session passphrase on_device false)
      if rt == msg_success
          then modify (λ self. record self { seeded_with = some (passphrase, on_device) })
          else lift (
              err (
                thp (
                  lit "expected Success after ThpCreateNewSession, got message type "
                  ∷ num rt
                  ∷ [])))
