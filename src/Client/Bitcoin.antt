-- ===== src/Client/Bitcoin.antt =====
-- The Bitcoin operations of trezor-core/src/client.rs but `sign_psbt`, which is in Psbt.
use maknoon_trezor_core_rs.Prelude.{ℕ, Option, List, Bytes}
use maknoon_trezor_core_rs.Proto.{Decoded}
use maknoon_trezor_core_rs.Outcome.{Op, ◌>>=◌, lift}
use maknoon_trezor_core_rs.Bip32.{Text}
use maknoon_trezor_core_rs.Thp.Noise.{Crypto}
use maknoon_trezor_core_rs.Thp.Connection.{seeded_session_id}
use maknoon_trezor_core_rs.Thp.Connection.App.{Messages}
use maknoon_trezor_core_rs.Chains.Bitcoin
use maknoon_trezor_core_rs.Chains.Bitcoin.{BitcoinCodec, BitcoinMessageSignature}
use maknoon_trezor_core_rs.Client.{Client, PassphraseSpec, Entropy, resolve_path, pinned_op}

module _ (c : Crypto) {Props : Type 0} (decode : Bytes → Decoded Props) (msgs : Messages)
    (bitcoin : BitcoinCodec) (host_static_priv credential : Bytes) (entropy : Entropy) where
  -- A path that is given selects the script type.
  unfoldable pub get_bitcoin_account_xpub : PassphraseSpec → ℕ → ℕ → Option Text → Op Client Text
  get_bitcoin_account_xpub passphrase account network_coin_type path = do
    address_n ← lift (resolve_path path (Bitcoin.account_path account network_coin_type))
    pinned_op c decode msgs host_static_priv credential passphrase entropy
        (Bitcoin.get_account_xpub c.aes msgs bitcoin seeded_session_id address_n network_coin_type)

  unfoldable pub get_bitcoin_master_fingerprint : PassphraseSpec → Op Client Bytes
  get_bitcoin_master_fingerprint passphrase =
      pinned_op c decode msgs host_static_priv credential passphrase entropy
        (Bitcoin.get_master_fingerprint c.aes msgs bitcoin seeded_session_id)

  unfoldable pub sign_bitcoin_message :
      PassphraseSpec → List ℕ → Bytes → ℕ → Op Client BitcoinMessageSignature
  sign_bitcoin_message passphrase address_n message coin_type =
      pinned_op c decode msgs host_static_priv credential passphrase entropy
        (Bitcoin.sign_message c.aes msgs bitcoin seeded_session_id address_n message coin_type)
