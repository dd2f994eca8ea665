-- ===== src/Client/Altcoins.antt =====
-- The Solana and Tron operations of trezor-core/src/client.rs, with the feature `tron`, which is on by
-- default.
use maknoon_trezor_core_rs.Prelude.{ℕ, Option, Bytes}
use maknoon_trezor_core_rs.Proto.{Decoded}
use maknoon_trezor_core_rs.Outcome.{Op, ◌>>=◌, lift}
use maknoon_trezor_core_rs.Bip32.{Text}
use maknoon_trezor_core_rs.Thp.Noise.{Crypto}
use maknoon_trezor_core_rs.Thp.Connection.{seeded_session_id}
use maknoon_trezor_core_rs.Thp.Connection.App.{Messages}
use maknoon_trezor_core_rs.Chains.Reply.{Secp256k1Signature}
use maknoon_trezor_core_rs.Chains.Solana
use maknoon_trezor_core_rs.Chains.Solana.{SolanaCodec}
use maknoon_trezor_core_rs.Chains.Tron
use maknoon_trezor_core_rs.Chains.Tron.{TronCodec}
use maknoon_trezor_core_rs.Chains.Tron.Messages
use maknoon_trezor_core_rs.Client.{Client, PassphraseSpec, Entropy, resolve_path, pinned_op}

module _ (c : Crypto) {Props : Type 0} (decode : Bytes → Decoded Props) (msgs : Messages)
    (host_static_priv credential : Bytes) (entropy : Entropy) where
  module _ (solana : SolanaCodec) where
    unfoldable pub get_solana_address : PassphraseSpec → ℕ → Option Text → Op Client Text
    get_solana_address passphrase account path = do
      address_n ← lift (resolve_path path (Solana.account_path account))
      pinned_op c decode msgs host_static_priv credential passphrase entropy
          (Solana.get_address c.aes msgs solana seeded_session_id address_n)

    unfoldable pub sign_solana_tx : PassphraseSpec → Bytes → ℕ → Option Text → Op Client Bytes
    sign_solana_tx passphrase unsigned_tx account path = do
      address_n ← lift (resolve_path path (Solana.account_path account))
      pinned_op c decode msgs host_static_priv credential passphrase entropy
          (Solana.sign_tx c.aes msgs solana seeded_session_id address_n unsigned_tx)

    unfoldable pub sign_solana_message : PassphraseSpec → Bytes → ℕ → Option Text → Op Client Bytes
    sign_solana_message passphrase envelope account path = do
      address_n ← lift (resolve_path path (Solana.account_path account))
      pinned_op c decode msgs host_static_priv credential passphrase entropy
          (Solana.sign_message c.aes msgs solana seeded_session_id address_n envelope)

  module _ (tron : TronCodec) where
    unfoldable pub get_tron_address : PassphraseSpec → ℕ → Option Text → Op Client Text
    get_tron_address passphrase account path = do
      address_n ← lift (resolve_path path (Tron.account_path account))
      pinned_op c decode msgs host_static_priv credential passphrase entropy
          (Tron.Messages.get_address c.aes msgs tron seeded_session_id address_n)

    unfoldable pub sign_tron_tx :
        PassphraseSpec → Bytes → ℕ → Option Text → Op Client Secp256k1Signature
    sign_tron_tx passphrase raw_tx_proto account path = do
      address_n ← lift (resolve_path path (Tron.account_path account))
      pinned_op c decode msgs host_static_priv credential passphrase entropy
          (Tron.Messages.sign_tx c.aes msgs tron seeded_session_id address_n raw_tx_proto)
