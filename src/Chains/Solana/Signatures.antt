-- ===== src/Chains/Solana/Signatures.antt =====
-- What the Solana messages return.
use maknoon_trezor_core_rs.Prelude.{ℕ, ◌≡◌, ◌≢◌, not, List, Bytes, length, arith, ◌==◌}
use maknoon_trezor_core_rs.Proto.{or_thp}
use maknoon_trezor_core_rs.Outcome.{Yields, Yields-lift}
use maknoon_trezor_core_rs.Thp.Aead.{Aes256Gcm}
use maknoon_trezor_core_rs.Thp.Connection.{Connection}
use maknoon_trezor_core_rs.Thp.Connection.App.{Messages}
use maknoon_trezor_core_rs.Chains.Reply.{expect_type}
use maknoon_trezor_core_rs.Thp.Connection.Exchange.{Returns, exchange-Returns, guarded-Returns}
use maknoon_trezor_core_rs.Chains.Solana.{SolanaCodec, get_address, sign_tx, sign_message}

module _ (aes : Aes256Gcm) (msgs : Messages) (codec : SolanaCodec) (session_id : ℕ)
    (path : List ℕ) where
  -- What the three Solana operations return, from any state and for whatever arrives: an address is
  -- never empty, and each signature has 64 bytes exactly. Each operation ends, and leaves the record
  -- of the wallet as it was.
  pub solana-Returns :
      (message : Bytes) (s : Connection)
      → Yields (Returns (λ addr. length addr ≢ 0) s) (get_address aes msgs codec session_id path s)
        × Yields
            (Returns (λ sig. length sig ≡ 64) s)
            (sign_tx aes msgs codec session_id path message s)
        × Yields
            (Returns (λ sig. length sig ≡ 64) s)
            (sign_message aes msgs codec session_id path message s)
  unfolding get_address sign_tx sign_message
  solana-Returns message s = (
    exchange-Returns aes msgs _ _
        (λ m t. Yields-lift _ (expect_type "SolanaAddress" 903 m.0) _ t (λ u e.
          Yields-lift _ (or_thp "SolanaAddress decode: " (codec.address m.1)) _ t
            (λ addr e'. guarded-Returns _ (not (length addr == 0)) _ addr t (λ h. ground arith))))
        session_id 902 (codec.get_address path) s,
    exchange-Returns aes msgs _ _
        (λ m t. Yields-lift _ (expect_type "SolanaTxSignature" 905 m.0) _ t (λ u e.
          Yields-lift _ (or_thp "SolanaTxSignature decode: " (codec.tx_signature m.1)) _ t
            (λ sig e'. guarded-Returns _ (length sig == 64) _ sig t (λ h. ground arith))))
        session_id 904 (codec.sign_tx path message) s,
    exchange-Returns aes msgs _ _
        (λ m t. Yields-lift _ (expect_type "SolanaMessageSignature" 907 m.0) _ t (λ u e.
          Yields-lift _ (or_thp "SolanaMessageSignature decode: " (codec.message_signature m.1)) _ t
            (λ sig e'. guarded-Returns _ (length sig == 64) _ sig t (λ h. ground arith))))
        session_id 906 (codec.sign_message path message) s,
  )
