-- ===== src/Client/BitcoinSettled.antt =====
-- The Bitcoin operations of the client, one by one.
use maknoon_trezor_core_rs.Prelude.{ℕ, ◌≡◌, ◌≢◌, Option, List, Bytes, length}
use maknoon_trezor_core_rs.Proto.{Decoded}
use maknoon_trezor_core_rs.Bip32.{Text}
use maknoon_trezor_core_rs.Thp.Noise.{Crypto}
use maknoon_trezor_core_rs.Thp.Connection.{seeded_session_id}
use maknoon_trezor_core_rs.Thp.Connection.App.{Messages}
use maknoon_trezor_core_rs.Chains.Bitcoin
use maknoon_trezor_core_rs.Chains.Bitcoin.{BitcoinCodec}
use maknoon_trezor_core_rs.Chains.Bitcoin.Accounts.{
  get_account_xpub-Returns, get_master_fingerprint-Returns, sign_message-Returns,
}
use maknoon_trezor_core_rs.Client.{Client, PassphraseSpec, key_of, Entropy}
use maknoon_trezor_core_rs.Client.Bitcoin.{
  get_bitcoin_account_xpub, get_bitcoin_master_fingerprint, sign_bitcoin_message,
}
use maknoon_trezor_core_rs.Client.Wallet.{Settles, pinned_op-Settles}
use maknoon_trezor_core_rs.Client.Paths.{Returns-SameWallet, PathOrSettles, path_op-Settles}

module _ (c : Crypto) {Props : Type 0} (decode : Bytes → Decoded Props) (msgs : Messages)
    (bitcoin : BitcoinCodec) (host_static_priv credential : Bytes) (entropy : Entropy) where
  -- The account's public key, the master fingerprint and the signing of a message: a path of the
  -- first that does not parse is answered before the device is asked anything, with the client as it
  -- was. Otherwise each operation ends, whatever the slot holds and whatever arrives, and leaves a
  -- connection of the wallet that was asked for in the slot when it succeeds and an empty slot when
  -- it fails.
  pub bitcoin_account-Settles :
      (self : Client) (passphrase : PassphraseSpec) (account coin_type : ℕ) (path : Option Text)
      (address_n : List ℕ) (message : Bytes)
      → PathOrSettles path (Bitcoin.account_path account coin_type) passphrase self (
          get_bitcoin_account_xpub c decode msgs bitcoin host_static_priv credential entropy
            passphrase account coin_type path self)
        × Settles (key_of passphrase) (
            get_bitcoin_master_fingerprint c decode msgs bitcoin host_static_priv credential entropy
              passphrase self)
        × Settles (key_of passphrase) (
            sign_bitcoin_message c decode msgs bitcoin host_static_priv credential entropy
              passphrase address_n message coin_type self)
  unfolding get_bitcoin_account_xpub get_bitcoin_master_fingerprint sign_bitcoin_message
  bitcoin_account-Settles self passphrase account coin_type path address_n message = (
    path_op-Settles c decode msgs host_static_priv credential entropy path
        (Bitcoin.account_path account coin_type) passphrase self _
        (λ p s.
          Returns-SameWallet (λ xpub. length xpub ≢ 0) s _
            (get_account_xpub-Returns c.aes msgs bitcoin seeded_session_id p coin_type s)),
    pinned_op-Settles c decode msgs host_static_priv credential entropy passphrase _ self (λ s.
        Returns-SameWallet (λ fp. length fp ≡ 4) s _
          (get_master_fingerprint-Returns c.aes msgs bitcoin seeded_session_id s)),
    pinned_op-Settles c decode msgs host_static_priv credential entropy passphrase _ self (λ s.
        Returns-SameWallet (λ sig. Unit {0}) s _
          (sign_message-Returns c.aes msgs bitcoin seeded_session_id address_n message coin_type
            s)),
  )
