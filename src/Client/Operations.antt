-- ===== src/Client/Operations.antt =====
-- The operations of trezor-core/src/client.rs on the pinned connection.
use maknoon_trezor_core_rs.Prelude.{ℕ, Option, Bytes}
use maknoon_trezor_core_rs.Proto.{Decoded}
use maknoon_trezor_core_rs.Outcome.{Op, ◌>>=◌, lift}
use maknoon_trezor_core_rs.Bip32.{Text}
use maknoon_trezor_core_rs.Thp.Noise.{Crypto}
use maknoon_trezor_core_rs.Thp.Connection.{seeded_session_id}
use maknoon_trezor_core_rs.Thp.Connection.App.{Messages}
use maknoon_trezor_core_rs.Thp.Pairing.{PairingCodec, get_features}
use maknoon_trezor_core_rs.Chains.Reply.{required, Secp256k1Signature}
use maknoon_trezor_core_rs.Chains.Ethereum.Messages.{
  EthereumCodec, account_path, get_address, get_public_key, sign_message, sign_message_full,
  sign_eip1559,
}
use maknoon_trezor_core_rs.Client.{
  Client, PassphraseSpec, standard, Entropy, resolve_path, pinned_op,
}

module _ (c : Crypto) {Props : Type 0} (decode : Bytes → Decoded Props) (msgs : Messages)
    (features : PairingCodec) (eth : EthereumCodec) (host_static_priv credential : Bytes)
    (entropy : Entropy) where
  -- A device without an id is an error that keeps the slot.
  unfoldable pub identify_paired : Op Client Text
  identify_paired = do
    f ←
        pinned_op c decode msgs host_static_priv credential standard entropy
          (get_features c.aes msgs features)
    lift (required "device returned no device_id" f.device_id)

  unfoldable pub get_attestor_pubkey : Op Client Bytes
  get_attestor_pubkey =
      pinned_op c decode msgs host_static_priv credential standard entropy
        (get_public_key c.aes msgs eth seeded_session_id (account_path 0))

  unfoldable pub sign_message_eth : Bytes → Op Client Bytes
  sign_message_eth message =
      pinned_op c decode msgs host_static_priv credential standard entropy
        (sign_message c.aes msgs eth seeded_session_id (account_path 0) message)

  unfoldable pub get_ethereum_address : PassphraseSpec → ℕ → Option Text → Op Client Text
  get_ethereum_address passphrase account path = do
    address_n ← lift (resolve_path path (account_path account))
    pinned_op c decode msgs host_static_priv credential passphrase entropy
        (get_address c.aes msgs eth seeded_session_id address_n)

  unfoldable pub sign_ethereum_tx :
      PassphraseSpec → Bytes → ℕ → Option Text → Op Client Secp256k1Signature
  sign_ethereum_tx passphrase envelope account path = do
    address_n ← lift (resolve_path path (account_path account))
    pinned_op c decode msgs host_static_priv credential passphrase entropy
        (sign_eip1559 c.aes msgs eth seeded_session_id address_n envelope)

  unfoldable pub sign_ethereum_message : PassphraseSpec → ℕ → Bytes → Option Text → Op Client Bytes
  sign_ethereum_message passphrase account message path = do
    address_n ← lift (resolve_path path (account_path account))
    pinned_op c decode msgs host_static_priv credential passphrase entropy
        (sign_message_full c.aes msgs eth seeded_session_id address_n message)
