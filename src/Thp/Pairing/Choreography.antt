-- ===== src/Thp/Pairing/Choreography.antt =====
-- What pairing comes to, given how the device answers each of its messages.
use maknoon_trezor_core_rs.Prelude.{
  ℕ, ◌≡◌, ◌≢◌, refl, sym, ap, ◌∙◌, Bool-cases, true, false, inl, inr, [], ◌∷◌, Bytes, bytes_eq,
  bytes_eq→eq, bytes_eq_refl, length, ==_iff,
}
use maknoon_trezor_core_rs.Error.{pairing, lit, ok, err}
use maknoon_trezor_core_rs.Proto.{decoded}
use maknoon_trezor_core_rs.Outcome.{done}
use maknoon_trezor_core_rs.Bip32.{Text}
use maknoon_trezor_core_rs.Thp.Noise.{Crypto}
use maknoon_trezor_core_rs.Thp.Cpace.{HostCpace, format_code, host_cpace}
use maknoon_trezor_core_rs.Thp.Connection.{Connection}
use maknoon_trezor_core_rs.Thp.Connection.App.{Messages, transceive}
use maknoon_trezor_core_rs.Thp.Pairing.CodeEntry.{
  CodeEntryCodec, as32, entered_code, select_code_entry, send_challenge, confirm_secret,
  request_credential, run_codeentry_pairing,
}

-- A device's answers up to the secret, and the host's key and tag between them.
pub record Answers (c : Crypto) (sha512 : Bytes → Bytes) (msgs : Messages) (codec : CodeEntryCodec)
    (handshake_hash : Bytes) (host_name app_name code_str : Text) (challenge host_priv : Bytes)
    (s0 s4 : Connection) (commitment secret : Bytes) : Type 0 where
  pub s1 : Connection
  pub s2 : Connection
  pub s3 : Connection
  pub approval : Bytes
  pub commitment_body : Bytes
  pub key_body : Bytes
  pub secret_body : Bytes
  pub key : Bytes
  pub code : ℕ
  pub approved :
      transceive c.aes msgs 1008 (codec.pairing_request host_name app_name) s0
      ≡ done (ok (1009, approval)) s1
  pub committed :
      transceive c.aes msgs 1010 (codec.select_method 2) s1 ≡ done (ok (1024, commitment_body)) s2
  pub commitment_lem : codec.commitment commitment_body ≡ decoded commitment
  pub challenged :
      transceive c.aes msgs 1025 (codec.challenge challenge) s2 ≡ done (ok (1026, key_body)) s3
  pub key_lem : codec.cpace_trezor key_body ≡ decoded key
  pub key_length : length key ≡ 32
  pub entered : entered_code code_str ≡ ok code
  pub revealed :
      let host = host_cpace c sha512 (format_code code) handshake_hash key host_priv in
      transceive c.aes msgs 1027 (codec.cpace_host_tag host.host_public host.tag) s3
      ≡ done (ok (1028, secret_body)) s4
  pub secret_lem : codec.secret secret_body ≡ decoded secret

module _ (c : Crypto) (sha512 : Bytes → Bytes) (msgs : Messages) (codec : CodeEntryCodec)
    (handshake_hash host_static_pubkey : Bytes) (host_name app_name code_str : Text)
    (challenge host_priv : Bytes) (s0 s4 : Connection) (commitment secret : Bytes)
    (a : Answers c sha512 msgs codec handshake_hash host_name app_name code_str challenge host_priv
      s0 s4 commitment secret) where
  selected : select_code_entry c sha512 msgs codec host_name app_name s0 ≡ done (ok commitment) a.s2
  unfolding select_code_entry
  selected = rw a.approved (rw a.committed (rw a.commitment_lem refl))

  key_received : send_challenge c sha512 msgs codec challenge a.s2 ≡ done (ok a.key) a.s3
  unfolding send_challenge as32
  key_received =
      rw a.challenged (rw a.key_lem (rw ((==_iff (length a.key) 32).1 a.key_length) refl))

  abbrev host : HostCpace
  host = host_cpace c sha512 (format_code a.code) handshake_hash a.key host_priv

  mismatched :
      c.sha256 secret ≢ commitment
      → confirm_secret c sha512 msgs codec commitment host a.s3
        ≡ done (err (pairing (lit "device secret does not match its commitment" ∷ []))) s4
  unfolding confirm_secret
  mismatched ne =
      let differ : bytes_eq (c.sha256 secret) commitment ≡ false =
        elim (Bool-cases (bytes_eq (c.sha256 secret) commitment)) [
          | inl e ↦ absurd (ne (bytes_eq→eq (c.sha256 secret) commitment e))
          | inr e ↦ e
        ] in
      rw a.revealed (rw a.secret_lem (rw differ refl))

  matched :
      c.sha256 secret ≡ commitment
      → confirm_secret c sha512 msgs codec commitment host a.s3 ≡ done (ok secret) s4
  unfolding confirm_secret
  matched e =
      let same : bytes_eq (c.sha256 secret) commitment ≡ true =
        ap (bytes_eq (c.sha256 secret)) (sym e) ∙ bytes_eq_refl (c.sha256 secret) in
      rw a.revealed (rw a.secret_lem (rw same refl))

  -- When the device approves, commits and reveals, and the user enters the code, but the secret's
  -- SHA-256 is not the commitment, pairing is refused: no credential is asked for.
  pub pairing_refused :
      c.sha256 secret ≢ commitment
      → run_codeentry_pairing c sha512 msgs codec handshake_hash host_static_pubkey host_name
          app_name code_str challenge host_priv s0
        ≡ done (err (pairing (lit "device secret does not match its commitment" ∷ []))) s4
  unfolding run_codeentry_pairing
  pairing_refused ne = rw selected (rw key_received (rw a.entered (rw (mismatched ne) refl)))

  credential_received :
      (credential_body credential : Bytes) (s5 : Connection)
      → transceive c.aes msgs 1016 (codec.credential_request host_static_pubkey) s4
        ≡ done (ok (1017, credential_body)) s5
      → codec.credential_response credential_body ≡ decoded credential
      → request_credential c sha512 msgs codec host_static_pubkey s4 ≡ done (ok credential) s5
  unfolding request_credential
  credential_received credential_body credential s5 issued f = rw issued (rw f refl)

  -- When the device approves, commits and reveals a secret whose SHA-256 is the commitment, the user
  -- enters the code, and the device issues a credential for the host's key, pairing returns that
  -- credential.
  pub pairing_completes :
      (credential_body credential : Bytes) (s5 : Connection)
      → c.sha256 secret ≡ commitment
      → transceive c.aes msgs 1016 (codec.credential_request host_static_pubkey) s4
        ≡ done (ok (1017, credential_body)) s5
      → codec.credential_response credential_body ≡ decoded credential
      → run_codeentry_pairing c sha512 msgs codec handshake_hash host_static_pubkey host_name
          app_name code_str challenge host_priv s0
        ≡ done (ok credential) s5
  unfolding run_codeentry_pairing
  pairing_completes credential_body credential s5 e issued f = rw selected (
      rw key_received (
        rw a.entered (rw (matched e) (credential_received credential_body credential s5 issued f))))
