-- ===== src/Thp/Pairing/Transcript.antt =====
-- Pairing returns a credential exactly after one course of the messages, `run_codeentry_pairing` of
-- trezor-core/src/thp/pairing.rs.
use maknoon_trezor_core_rs.Prelude.{
  ℕ, String, ◌≡◌, ◌↔◌, refl, sym, ap, ◌∙◌, Bool, true, false, Bytes, bytes_eq, bytes_eq→eq, length,
  arith,
}
use maknoon_trezor_core_rs.Error.{TrezorError, Result, ok, err, guard}
use maknoon_trezor_core_rs.Proto.{decoded, or_thp, or_thp-eq-ok}
use maknoon_trezor_core_rs.Outcome.{Outcome, Op, done, waiting, out_of_fuel, after, lift}
use maknoon_trezor_core_rs.Bip32.{Text}
use maknoon_trezor_core_rs.Thp.Noise.{Crypto}
use maknoon_trezor_core_rs.Thp.Cpace.{HostCpace, format_code, host_cpace}
use maknoon_trezor_core_rs.Thp.Connection.{Connection}
use maknoon_trezor_core_rs.Thp.Connection.App.{Messages, transceive}
use maknoon_trezor_core_rs.Thp.Pairing.{expect_type}
use maknoon_trezor_core_rs.Thp.Pairing.CodeEntry.{
  CodeEntryCodec, as32, entered_code, select_code_entry, send_challenge, confirm_secret,
  request_credential, run_codeentry_pairing,
}
use maknoon_trezor_core_rs.Thp.Pairing.Committed.{as32-length}
use maknoon_trezor_core_rs.Thp.Pairing.Choreography.{Answers, pairing_completes}

-- The parts of a call that returned a value.
after-eq-ok :
    {S A B : Type 0} (o : Outcome S A) (next : A → Op S B) (b : B) (t : S)
    → after o next ≡ done (ok b) t
    → (a : A) × (s : S) × (o ≡ done (ok a) s) × (next a s ≡ done (ok b) t)
after-eq-ok (done (ok a) s) next b t h = (a, s, refl, h)
after-eq-ok (done (err e) s) next b t h = cc
after-eq-ok (waiting s) next b t h = cc
after-eq-ok (out_of_fuel s) next b t h = cc

lift-eq-ok :
    {S A B : Type 0} (r : Result A) (next : A → Op S B) (s : S) (b : B) (t : S)
    → after (lift r s) next ≡ done (ok b) t
    → (a : A) × (r ≡ ok a) × (next a s ≡ done (ok b) t)
lift-eq-ok (ok a) next s b t h = (a, refl, h)
lift-eq-ok (err e) next s b t h = cc

guard-true : (test : Bool) (e : TrezorError) (u : Unit {0}) → guard test e ≡ ok u → test ≡ true
guard-true true e u h = refl
guard-true false e u h = cc

last-eq-ok :
    {S A : Type 0} (r : Result A) (s : S) (a : A) (t : S)
    → lift r s ≡ done (ok a) t
    → (r ≡ ok a) × (s ≡ t)
last-eq-ok (ok x) s a t h = (cc, cc)
last-eq-ok (err e) s a t h = cc

expect_type-eq-ok :
    (actual expected : ℕ) (what : String) (u : Unit {0})
    → expect_type actual expected what ≡ ok u
    → actual ≡ expected
expect_type-eq-ok actual expected what u h = ground arith

as32-same : (v w : Bytes) → as32 v ≡ ok w → v ≡ w
unfolding as32
as32-same v w e = ground arith

module _ (c : Crypto) (sha512 : Bytes → Bytes) (msgs : Messages) (codec : CodeEntryCodec) where
  -- An exchange that returned a value: the reply had the type that is expected, and what follows it
  -- returned the value.
  received :
      {B : Type 0} (message_type expected : ℕ) (body : Bytes) (what : String)
      (rest : Bytes → Op Connection B) (s t : Connection) (b : B)
      → after
          (transceive c.aes msgs message_type body s)
          (λ m w. after (lift (expect_type m.0 expected what) w) (λ u. rest m.1))
        ≡ done (ok b) t
      → (rp : Bytes) × (w : Connection) × (transceive c.aes msgs message_type body s
          ≡ done (ok (expected, rp)) w)
        × (rest rp w ≡ done (ok b) t)
  received message_type expected body what rest s t b h =
      let (m, w, run, h1) = after-eq-ok (transceive c.aes msgs message_type body s) _ b t h in
      let (u, e, h2) = lift-eq-ok (expect_type m.0 expected what) _ w b t h1 in
      (m.1, w, run ∙ ap (λ k. done (ok (k, m.1)) w) (expect_type-eq-ok m.0 expected what u e), h2)

  select_code_entry-course :
      (host_name app_name : Text) (s0 s2 : Connection) (commitment : Bytes)
      → select_code_entry c sha512 msgs codec host_name app_name s0 ≡ done (ok commitment) s2
      → (approval : Bytes) × (s1 : Connection) × (body : Bytes) × (transceive c.aes msgs 1008
            (codec.pairing_request host_name app_name)
            s0
          ≡ done (ok (1009, approval)) s1)
        × (transceive c.aes msgs 1010 (codec.select_method 2) s1 ≡ done (ok (1024, body)) s2)
        × (codec.commitment body ≡ decoded commitment)
  unfolding select_code_entry
  select_code_entry-course host_name app_name s0 s2 commitment h =
      let (approval, s1, run, h1) =
        received 1008 1009 (codec.pairing_request host_name app_name) "ThpPairingRequestApproved" _
          s0 s2 commitment h in
      let (body, w, run1, h2) =
        received 1010 1024 (codec.select_method 2) "ThpCodeEntryCommitment" _ s1 s2 commitment h1 in
      let (e, same) =
        last-eq-ok (or_thp "commitment decode: " (codec.commitment body)) w commitment s2 h2 in
      (
        approval,
        s1,
        body,
        run,
        run1 ∙ ap (done (ok (1024, body))) same,
        or_thp-eq-ok "commitment decode: " (codec.commitment body) e,
      )

  send_challenge-course :
      (challenge key : Bytes) (s2 s3 : Connection)
      → send_challenge c sha512 msgs codec challenge s2 ≡ done (ok key) s3
      → (body : Bytes) × (transceive c.aes msgs 1025 (codec.challenge challenge) s2
          ≡ done (ok (1026, body)) s3)
        × (codec.cpace_trezor body ≡ decoded key)
        × (length key ≡ 32)
  unfolding send_challenge
  send_challenge-course challenge key s2 s3 h =
      let (body, w, run, h1) =
        received 1025 1026 (codec.challenge challenge) "ThpCodeEntryCpaceTrezor" _ s2 s3 key h in
      let (k, e, h2) =
        lift-eq-ok (or_thp "cpace-trezor decode: " (codec.cpace_trezor body)) _ w key s3 h1 in
      let (f, same) = last-eq-ok (as32 k) w key s3 h2 in
      let decodes : codec.cpace_trezor body ≡ decoded k =
        or_thp-eq-ok "cpace-trezor decode: " (codec.cpace_trezor body) e in
      (
        body,
        run ∙ ap (done (ok (1026, body))) same,
        decodes ∙ ap decoded (as32-same k key f),
        as32-length k key f,
      )

  confirm_secret-course :
      (commitment secret : Bytes) (host : HostCpace) (s3 s4 : Connection)
      → confirm_secret c sha512 msgs codec commitment host s3 ≡ done (ok secret) s4
      → (body : Bytes) × (transceive c.aes msgs 1027
            (codec.cpace_host_tag host.host_public host.tag)
            s3
          ≡ done (ok (1028, body)) s4)
        × (codec.secret body ≡ decoded secret)
        × (c.sha256 secret ≡ commitment)
  unfolding confirm_secret
  confirm_secret-course commitment secret host s3 s4 h =
      let (body, w, run, h1) =
        received 1027 1028 (codec.cpace_host_tag host.host_public host.tag) "ThpCodeEntrySecret" _
          s3 s4 secret h in
      let (x, e, h2) = lift-eq-ok (or_thp "secret decode: " (codec.secret body)) _ w secret s4 h1 in
      let (u, g, h3) = lift-eq-ok (guard (bytes_eq (c.sha256 x) commitment) _) _ w secret s4 h2 in
      let (f, same) = last-eq-ok (ok x) w secret s4 h3 in
      let is_secret : x ≡ secret = cc in
      (
        body,
        run ∙ ap (done (ok (1028, body))) same,
        or_thp-eq-ok "secret decode: " (codec.secret body) e ∙ ap decoded is_secret,
        ap c.sha256 (sym is_secret) ∙ bytes_eq→eq (c.sha256 x) commitment (guard-true _ _ u g),
      )

  request_credential-course :
      (host_static_pubkey credential : Bytes) (s4 s5 : Connection)
      → request_credential c sha512 msgs codec host_static_pubkey s4 ≡ done (ok credential) s5
      → (body : Bytes) × (transceive c.aes msgs 1016
            (codec.credential_request host_static_pubkey)
            s4
          ≡ done (ok (1017, body)) s5)
        × (codec.credential_response body ≡ decoded credential)
  unfolding request_credential
  request_credential-course host_static_pubkey credential s4 s5 h =
      let (body, w, run, h1) =
        received 1016 1017 (codec.credential_request host_static_pubkey) "ThpCredentialResponse" _
          s4 s5 credential h in
      let (e, same) =
        last-eq-ok (or_thp "credential decode: " (codec.credential_response body)) w credential s5
          h1 in
      (
        body,
        run ∙ ap (done (ok (1017, body))) same,
        or_thp-eq-ok "credential decode: " (codec.credential_response body) e,
      )

  module _ (handshake_hash host_static_pubkey : Bytes) (host_name app_name code_str : Text)
      (challenge host_priv : Bytes) where
    -- The course of the messages that ends with a credential.
    abbrev pub Course : Connection → Bytes → Connection → Type 0
    Course s0 credential s5 =
        (s4 : Connection) × (commitment : Bytes) × (secret : Bytes) × (body : Bytes) × Answers c
          sha512 msgs codec handshake_hash host_name app_name code_str challenge host_priv s0 s4
          commitment secret
        × (c.sha256 secret ≡ commitment)
        × (transceive c.aes msgs 1016 (codec.credential_request host_static_pubkey) s4
            ≡ done (ok (1017, body)) s5)
        × (codec.credential_response body ≡ decoded credential)

    course :
        (s0 s5 : Connection) (credential : Bytes)
        → run_codeentry_pairing c sha512 msgs codec handshake_hash host_static_pubkey host_name
            app_name code_str challenge host_priv s0
          ≡ done (ok credential) s5
        → Course s0 credential s5
    unfolding run_codeentry_pairing
    course s0 s5 credential h =
        let (commitment, s2, r1, h1) =
          after-eq-ok (select_code_entry c sha512 msgs codec host_name app_name s0) _ credential s5
            h in
        let (key, s3, r2, h2) =
          after-eq-ok (send_challenge c sha512 msgs codec challenge s2) _ credential s5 h1 in
        let (code, entered, h3) = lift-eq-ok (entered_code code_str) _ s3 credential s5 h2 in
        let host = host_cpace c sha512 (format_code code) handshake_hash key host_priv in
        let (secret, s4, r3, h4) =
          after-eq-ok (confirm_secret c sha512 msgs codec commitment host s3) _ credential s5 h3 in
        let (approval, s1, cbody, a1, a2, a3) =
          select_code_entry-course host_name app_name s0 s2 commitment r1 in
        let (kbody, b1, b2, b3) = send_challenge-course challenge key s2 s3 r2 in
        let (sbody, d1, d2, d3) = confirm_secret-course commitment secret host s3 s4 r3 in
        let (body, e1, e2) = request_credential-course host_static_pubkey credential s4 s5 h4 in
        (
          s4,
          commitment,
          secret,
          body,
          record {
            s1 = s1;
            s2 = s2;
            s3 = s3;
            approval = approval;
            commitment_body = cbody;
            key_body = kbody;
            secret_body = sbody;
            key = key;
            code = code;
            approved = a1;
            committed = a2;
            commitment_lem = a3;
            challenged = b1;
            key_lem = b2;
            key_length = b3;
            entered = entered;
            revealed = d1;
            secret_lem = d2;
          },
          d3,
          e1,
          e2,
        )

    -- Pairing returns a credential exactly when the messages went this way: the device approves,
    -- commits, sends a CPace key of 32 bytes, and reveals a secret upon the host's key and tag for the
    -- code that was entered; the secret's SHA-256 is what the device committed to; and only then the
    -- credential is asked for with the host's static key, and it is what the device's answer carries.
    pub run_codeentry_pairing_iff :
        (s0 s5 : Connection) (credential : Bytes)
        → (run_codeentry_pairing c sha512 msgs codec handshake_hash host_static_pubkey host_name
              app_name code_str challenge host_priv s0
            ≡ done (ok credential) s5)
          ↔ Course s0 credential s5
    run_codeentry_pairing_iff s0 s5 credential = (
      course s0 s5 credential,
      λ (s4, commitment, secret, body, a, e, issued, f).
          pairing_completes c sha512 msgs codec handshake_hash host_static_pubkey host_name app_name
            code_str challenge host_priv s0 s4 commitment secret a body credential s5 e issued f,
    )
