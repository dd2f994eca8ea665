-- ===== src/Thp/Pairing/Committed.antt =====
-- Pairing ends, and goes on only with the secret that the device committed to.
use maknoon_trezor_core_rs.Prelude.{◌≡◌, Bytes, bytes_eq, bytes_eq→eq, length, arith}
use maknoon_trezor_core_rs.Error.{ok}
use maknoon_trezor_core_rs.Proto.{or_thp}
use maknoon_trezor_core_rs.Outcome.{Yields, Yields-lift}
use maknoon_trezor_core_rs.Bip32.{Text}
use maknoon_trezor_core_rs.Thp.Noise.{Crypto}
use maknoon_trezor_core_rs.Thp.Cpace.{HostCpace, format_code, host_cpace}
use maknoon_trezor_core_rs.Thp.Connection.{Connection}
use maknoon_trezor_core_rs.Thp.Connection.App.{Messages}
use maknoon_trezor_core_rs.Thp.Pairing.{expect_type}
use maknoon_trezor_core_rs.Thp.Pairing.CodeEntry.{
  CodeEntryCodec, as32, entered_code, select_code_entry, send_challenge, confirm_secret,
  request_credential, run_codeentry_pairing, t_code_entry_cpace_host_tag, t_code_entry_secret,
  t_select_method, t_code_entry_challenge, t_credential_request, t_pairing_request_approved,
  t_code_entry_commitment, t_code_entry_cpace_trezor, t_credential_response,
  pairing_method_code_entry,
}
use maknoon_trezor_core_rs.Thp.Connection.Exchange.{
  Returns, next_exchange-Returns, guarded-Returns, result-Returns, after-Returns,
}

abbrev Anything : Bytes → Type 0
Anything b = Unit {0}

pub as32-length : (v w : Bytes) → as32 v ≡ ok w → length w ≡ 32
unfolding as32
as32-length v w e = ground arith

module _ (c : Crypto) (sha512 : Bytes → Bytes) (msgs : Messages) (codec : CodeEntryCodec) where
  select_code_entry-Returns :
      (host_name app_name : Text) (s : Connection)
      → Yields (Returns Anything s) (select_code_entry c sha512 msgs codec host_name app_name s)
  unfolding select_code_entry
  select_code_entry-Returns host_name app_name s =
      next_exchange-Returns c.aes msgs Anything _
        (λ m t.
          Yields-lift _ (expect_type m.0 t_pairing_request_approved "ThpPairingRequestApproved") _ t
            (λ u e.
              next_exchange-Returns c.aes msgs Anything _
                (λ m' t'.
                  Yields-lift _ (expect_type m'.0 t_code_entry_commitment "ThpCodeEntryCommitment")
                    _ t'
                    (λ u' e'.
                      result-Returns Anything (or_thp "commitment decode: " (codec.commitment m'.1))
                        t' (λ b q. tt)))
                t_select_method (codec.select_method pairing_method_code_entry) t))
        1008 (codec.pairing_request host_name app_name) s

  send_challenge-Returns :
      (challenge : Bytes) (s : Connection)
      → Yields (Returns (λ key. length key ≡ 32) s) (send_challenge c sha512 msgs codec challenge s)
  unfolding send_challenge
  send_challenge-Returns challenge s =
      next_exchange-Returns c.aes msgs (λ key. length key ≡ 32) _
        (λ m t.
          Yields-lift _ (expect_type m.0 t_code_entry_cpace_trezor "ThpCodeEntryCpaceTrezor") _ t
            (λ u e.
              Yields-lift _ (or_thp "cpace-trezor decode: " (codec.cpace_trezor m.1)) _ t
                (λ key e'. result-Returns _ (as32 key) t (λ b q. as32-length key b q))))
        t_code_entry_challenge (codec.challenge challenge) s

  -- The step that sends the host's tag ends, whatever arrives. It returns a secret only if the
  -- secret's SHA-256 is the commitment that the device sent before, and leaves the record of the wallet
  -- as it was.
  pub confirm_secret-Returns :
      (commitment : Bytes) (host : HostCpace) (s : Connection)
      → Yields
          (Returns (λ secret. c.sha256 secret ≡ commitment) s)
          (confirm_secret c sha512 msgs codec commitment host s)
  unfolding confirm_secret
  confirm_secret-Returns commitment host s =
      next_exchange-Returns c.aes msgs (λ secret. c.sha256 secret ≡ commitment) _
        (λ m t. Yields-lift _ (expect_type m.0 t_code_entry_secret "ThpCodeEntrySecret") _ t (λ u e.
          Yields-lift _ (or_thp "secret decode: " (codec.secret m.1)) _ t (λ secret e'.
            guarded-Returns (λ secret. c.sha256 secret ≡ commitment)
              (bytes_eq (c.sha256 secret) commitment) _ secret t
              (λ q. bytes_eq→eq (c.sha256 secret) commitment q))))
        t_code_entry_cpace_host_tag (codec.cpace_host_tag host.host_public host.tag) s

  request_credential-Returns :
      (host_static_pubkey : Bytes) (s : Connection)
      → Yields (Returns Anything s) (request_credential c sha512 msgs codec host_static_pubkey s)
  unfolding request_credential
  request_credential-Returns host_static_pubkey s =
      next_exchange-Returns c.aes msgs Anything _
        (λ m t.
          Yields-lift _ (expect_type m.0 t_credential_response "ThpCredentialResponse") _ t (λ u e.
            result-Returns Anything (or_thp "credential decode: " (codec.credential_response m.1)) t
              (λ b q. tt)))
        t_credential_request (codec.credential_request host_static_pubkey) s

  -- The whole of pairing ends, from any state, for whatever the device sends and the user enters, and
  -- leaves the record of the wallet as it was.
  pub run_codeentry_pairing-Returns :
      (handshake_hash host_static_pubkey : Bytes) (host_name app_name code_str : Text)
      (challenge host_priv : Bytes) (s : Connection)
      → Yields (Returns Anything s) (
          run_codeentry_pairing c sha512 msgs codec handshake_hash host_static_pubkey host_name
            app_name code_str challenge host_priv s)
  unfolding run_codeentry_pairing
  run_codeentry_pairing-Returns handshake_hash host_static_pubkey host_name app_name code_str
        challenge host_priv s =
      after-Returns Anything Anything s _ _ (select_code_entry-Returns host_name app_name s)
        (λ commitment t u.
          after-Returns (λ key. length key ≡ 32) Anything t _ _ (send_challenge-Returns challenge t)
            (λ key t' e. Yields-lift _ (entered_code code_str) _ t' (λ code q.
              after-Returns (λ secret. c.sha256 secret ≡ commitment) Anything t' _ _
                (confirm_secret-Returns commitment
                  (host_cpace c sha512 (format_code code) handshake_hash key host_priv) t')
                (λ secret t'' p. request_credential-Returns host_static_pubkey t''))))
