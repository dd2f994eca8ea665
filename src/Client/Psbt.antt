-- ===== src/Client/Psbt.antt =====
-- `sign_psbt` of trezor-core/src/client.rs. Its fingerprint, xpub, account and path are not used.
use maknoon_trezor_core_rs.Prelude.{ℕ, Option, Bytes}
use maknoon_trezor_core_rs.Proto.{Decoded}
use maknoon_trezor_core_rs.Outcome.{Op, Yields-weaken}
use maknoon_trezor_core_rs.Bip32.{Text}
use maknoon_trezor_core_rs.Thp.Noise.{Crypto}
use maknoon_trezor_core_rs.Thp.Connection.{seeded_session_id}
use maknoon_trezor_core_rs.Thp.Connection.App.{Messages}
use maknoon_trezor_core_rs.Chains.Bitcoin.Psbt.{BitcoinCrate}
use maknoon_trezor_core_rs.Chains.Bitcoin.Requests.{SignTxCodec}
use maknoon_trezor_core_rs.Chains.Bitcoin.SignTx
use maknoon_trezor_core_rs.Chains.Bitcoin.Signing.{sign_psbt-Returns}
use maknoon_trezor_core_rs.Client.{Client, PassphraseSpec, key_of, Entropy, pinned_op}
use maknoon_trezor_core_rs.Client.Wallet.{Settles, pinned_op-Settles}

module _ (c : Crypto) {Props : Type 0} (decode : Bytes → Decoded Props) (msgs : Messages)
    (crate : BitcoinCrate) (codec : SignTxCodec) (host_static_priv credential : Bytes)
    (entropy : Entropy) where
  unfoldable pub sign_psbt :
      PassphraseSpec → Text → Text → Text → ℕ → ℕ → Option Text → Op Client Text
  sign_psbt passphrase psbt_base64 fingerprint_hex account_xpub account coin_type path =
      pinned_op c decode msgs host_static_priv credential passphrase entropy
        (SignTx.sign_psbt crate codec c.aes msgs seeded_session_id psbt_base64 coin_type)

  -- Signing a PSBT ends, whatever the slot holds and whatever the device asks for, and leaves a
  -- connection of the wallet that was asked for in the slot when it succeeds and an empty slot when it
  -- fails.
  pub sign_psbt-Settles :
      (self : Client) (passphrase : PassphraseSpec)
      (psbt_base64 fingerprint_hex account_xpub : Text) (account coin_type : ℕ) (path : Option Text)
      → Settles (key_of passphrase) (
          sign_psbt passphrase psbt_base64 fingerprint_hex account_xpub account coin_type path self)
  unfolding sign_psbt
  sign_psbt-Settles self passphrase psbt_base64 fingerprint_hex account_xpub account coin_type
        path =
      pinned_op-Settles c decode msgs host_static_priv credential entropy passphrase _ self (λ s.
        Yields-weaken _ _ _
          (sign_psbt-Returns crate codec c.aes msgs seeded_session_id psbt_base64 coin_type s)
          (λ out t r. r.1))
