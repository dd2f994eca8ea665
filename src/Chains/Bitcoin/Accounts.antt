-- ===== src/Chains/Bitcoin/Accounts.antt =====
-- What the Bitcoin messages return.
use maknoon_trezor_core_rs.Prelude.{ℕ, ◌≡◌, ◌≢◌, not, List, Bytes, length, be32, arith, ◌==◌}
use maknoon_trezor_core_rs.Error.{ok}
use maknoon_trezor_core_rs.Proto.{or_thp}
use maknoon_trezor_core_rs.Outcome.{Yields, Yields-lift}
use maknoon_trezor_core_rs.Thp.Aead.{Aes256Gcm}
use maknoon_trezor_core_rs.Thp.Connection.{Connection}
use maknoon_trezor_core_rs.Thp.Connection.App.{Messages}
use maknoon_trezor_core_rs.Chains.Reply.{expect_type, required}
use maknoon_trezor_core_rs.Thp.Connection.Exchange.{
  Returns, exchange-Returns, guarded-Returns, result-Returns,
}
use maknoon_trezor_core_rs.Chains.Bitcoin.{
  BitcoinCodec, spendwitness, account_path, coin_name, script_type_for_path, sign_message,
  get_account_xpub, get_master_fingerprint,
}

module _ (aes : Aes256Gcm) (msgs : Messages) (codec : BitcoinCodec) (session_id : ℕ) where
  pub get_account_xpub-Returns :
      (address_n : List ℕ) (coin_type : ℕ) (s : Connection)
      → Yields
          (Returns (λ xpub. length xpub ≢ 0) s)
          (get_account_xpub aes msgs codec session_id address_n coin_type s)
  unfolding get_account_xpub
  get_account_xpub-Returns address_n coin_type s =
      exchange-Returns aes msgs _ _
        (λ m t. Yields-lift _ (expect_type "PublicKey" 12 m.0) _ t (λ u e.
          Yields-lift _ (or_thp "PublicKey decode: " (codec.public_key m.1)) _ t (λ pk e'.
            guarded-Returns _ (not (length pk.xpub == 0)) _ pk.xpub t (λ h. ground arith))))
        session_id 11
        (codec.get_public_key address_n (coin_name coin_type) (script_type_for_path address_n)) s

  pub get_master_fingerprint-Returns :
      (s : Connection)
      → Yields
          (Returns (λ fp. length fp ≡ 4) s)
          (get_master_fingerprint aes msgs codec session_id s)
  unfolding get_master_fingerprint
  get_master_fingerprint-Returns s =
      exchange-Returns aes msgs _ _
        (λ m t. Yields-lift _ (expect_type "PublicKey" 12 m.0) _ t (λ u e.
          Yields-lift _ (or_thp "PublicKey decode: " (codec.public_key m.1)) _ t (λ pk e'.
            Yields-lift _ (required "PublicKey missing root_fingerprint" pk.root_fingerprint) _ t
              (λ fp e''. result-Returns _ (ok (be32 fp)) t (λ a h. cc)))))
        session_id 11 (codec.get_public_key (account_path 0 0) "Bitcoin" spendwitness) s

  pub sign_message-Returns :
      (address_n : List ℕ) (message : Bytes) (coin_type : ℕ) (s : Connection)
      → Yields
          (Returns (λ sig. Unit {0}) s)
          (sign_message aes msgs codec session_id address_n message coin_type s)
  unfolding sign_message
  sign_message-Returns address_n message coin_type s =
      exchange-Returns aes msgs _ _
        (λ m t. Yields-lift _ (expect_type "MessageSignature" 40 m.0) _ t (λ u e.
          result-Returns _ (or_thp "MessageSignature decode: " (codec.message_signature m.1)) t
            (λ a h. tt)))
        session_id 38
        (codec.sign_message address_n message (coin_name coin_type)
          (script_type_for_path address_n))
        s
