-- ===== src/Thp/Pairing/CodeEntry.antt =====
-- `run_codeentry_pairing` of trezor-core/src/thp/pairing.rs, in its four phases. The random bytes and
-- the text that the code provider returns are arguments; the codecs are a parameter.
use maknoon_trezor_core_rs.Prelude.{
  ℕ, Option, none, some, [], ◌∷◌, Bytes, bytes_eq, length, ◌==◌, if◌then◌else◌,
}
use maknoon_trezor_core_rs.Error.{pairing, lit, Result, ok, err, thp_error, guard}
use maknoon_trezor_core_rs.Proto.{Decoded, or_thp}
use maknoon_trezor_core_rs.Outcome.{Op, ◌>>=◌, ◌>>◌, lift}
use maknoon_trezor_core_rs.Bip32.{Text, trim, parse_u32}
use maknoon_trezor_core_rs.Thp.Noise.{Crypto}
use maknoon_trezor_core_rs.Thp.Cpace.{HostCpace, format_code, host_cpace}
use maknoon_trezor_core_rs.Thp.Connection.{Connection}
use maknoon_trezor_core_rs.Thp.Connection.App.{Messages, transceive}
use maknoon_trezor_core_rs.Thp.Pairing.{expect_type}

abbrev pub t_pairing_request : ℕ
t_pairing_request = 1008

abbrev pub t_pairing_request_approved : ℕ
t_pairing_request_approved = 1009

abbrev pub t_select_method : ℕ
t_select_method = 1010

abbrev pub t_credential_request : ℕ
t_credential_request = 1016

abbrev pub t_credential_response : ℕ
t_credential_response = 1017

abbrev pub t_code_entry_commitment : ℕ
t_code_entry_commitment = 1024

abbrev pub t_code_entry_challenge : ℕ
t_code_entry_challenge = 1025

abbrev pub t_code_entry_cpace_trezor : ℕ
t_code_entry_cpace_trezor = 1026

abbrev pub t_code_entry_cpace_host_tag : ℕ
t_code_entry_cpace_host_tag = 1027

abbrev pub t_code_entry_secret : ℕ
t_code_entry_secret = 1028

abbrev pub pairing_method_code_entry : ℕ
pairing_method_code_entry = 2

-- The encoders and decoders of the pairing messages.
pub record CodeEntryCodec : Type 0 where
  pub pairing_request : Text → Text → Bytes
  pub select_method : ℕ → Bytes
  pub commitment : Bytes → Decoded Bytes
  pub challenge : Bytes → Bytes
  pub cpace_trezor : Bytes → Decoded Bytes
  pub cpace_host_tag : Bytes → Bytes → Bytes
  pub secret : Bytes → Decoded Bytes
  pub credential_request : Bytes → Bytes
  pub credential_response : Bytes → Decoded Bytes

unfoldable pub as32 : Bytes → Result Bytes
as32 v = if length v == 32 then ok v else err (thp_error "expected a 32-byte field from device")

abbrev pub code_of : Option ℕ → Result ℕ
code_of none = err (pairing (lit "no valid pairing code was entered" ∷ []))
code_of (some n) = ok n

-- `code_str.trim().parse()`
unfoldable pub entered_code : Text → Result ℕ
unfolding trim parse_u32
entered_code code_str = code_of (parse_u32 (trim code_str))

module _ (c : Crypto) (sha512 : Bytes → Bytes) (msgs : Messages) (codec : CodeEntryCodec) where
  -- HP0 to HP2: the user approves, and the device commits to a secret.
  unfoldable pub select_code_entry : Text → Text → Op Connection Bytes
  select_code_entry host_name app_name = do
    (rt, _) ← transceive c.aes msgs t_pairing_request (codec.pairing_request host_name app_name)
    lift (expect_type rt t_pairing_request_approved "ThpPairingRequestApproved")
    (rt, rp) ← transceive c.aes msgs t_select_method (codec.select_method pairing_method_code_entry)
    lift (expect_type rt t_code_entry_commitment "ThpCodeEntryCommitment")
    lift (or_thp "commitment decode: " (codec.commitment rp))

  -- HP2 to HP3a: a random challenge, answered by the device's CPace key.
  unfoldable pub send_challenge : Bytes → Op Connection Bytes
  send_challenge challenge = do
    (rt, rp) ← transceive c.aes msgs t_code_entry_challenge (codec.challenge challenge)
    lift (expect_type rt t_code_entry_cpace_trezor "ThpCodeEntryCpaceTrezor")
    key ← lift (or_thp "cpace-trezor decode: " (codec.cpace_trezor rp))
    lift (as32 key)

  -- HP4 to HP5: the host's key and tag, answered by the secret, which has to be the one that the
  -- device committed to.
  unfoldable pub confirm_secret : Bytes → HostCpace → Op Connection Bytes
  confirm_secret commitment host = do
    (rt, rp) ←
        transceive c.aes msgs t_code_entry_cpace_host_tag
          (codec.cpace_host_tag host.host_public host.tag)
    lift (expect_type rt t_code_entry_secret "ThpCodeEntrySecret")
    secret ← lift (or_thp "secret decode: " (codec.secret rp))
    lift (
        guard (bytes_eq (c.sha256 secret) commitment)
          (pairing (lit "device secret does not match its commitment" ∷ [])))
    lift (ok secret)

  -- The credential phase.
  unfoldable pub request_credential : Bytes → Op Connection Bytes
  request_credential host_static_pubkey = do
    (rt, rp) ←
        transceive c.aes msgs t_credential_request (codec.credential_request host_static_pubkey)
    lift (expect_type rt t_credential_response "ThpCredentialResponse")
    lift (or_thp "credential decode: " (codec.credential_response rp))

  unfoldable pub run_codeentry_pairing :
      Bytes → Bytes → Text → Text → Text → Bytes → Bytes → Op Connection Bytes
  unfolding select_code_entry send_challenge confirm_secret request_credential
  run_codeentry_pairing handshake_hash host_static_pubkey host_name app_name code_str challenge
        host_priv =
      do
        commitment ← select_code_entry host_name app_name
        cpace_trezor_pub ← send_challenge challenge
        code_num ← lift (entered_code code_str)
        confirm_secret commitment
            (host_cpace c sha512 (format_code code_num) handshake_hash cpace_trezor_pub host_priv)
        request_credential host_static_pubkey
