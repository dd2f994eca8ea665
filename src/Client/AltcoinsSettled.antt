-- ===== src/Client/AltcoinsSettled.antt =====
-- The Solana and Tron operations of the client, one by one.
use maknoon_trezor_core_rs.Prelude.{ℕ, ◌≡◌, ◌≢◌, Option, Bytes, length}
use maknoon_trezor_core_rs.Proto.{Decoded}
use maknoon_trezor_core_rs.Bip32.{Text}
use maknoon_trezor_core_rs.Thp.Noise.{Crypto}
use maknoon_trezor_core_rs.Thp.Connection.{seeded_session_id}
use maknoon_trezor_core_rs.Thp.Connection.App.{Messages}
use maknoon_trezor_core_rs.Chains.Solana
use maknoon_trezor_core_rs.Chains.Solana.{SolanaCodec}
use maknoon_trezor_core_rs.Chains.Solana.Signatures.{solana-Returns}
use maknoon_trezor_core_rs.Chains.Tron
use maknoon_trezor_core_rs.Chains.Tron.{TronCodec}
use maknoon_trezor_core_rs.Chains.Tron.Structured.{tron-Returns}
use maknoon_trezor_core_rs.Client.{Client, PassphraseSpec, Entropy}
use maknoon_trezor_core_rs.Client.Altcoins.{
  get_solana_address, sign_solana_tx, sign_solana_message, get_tron_address, sign_tron_tx,
}
use maknoon_trezor_core_rs.Client.Paths.{Returns-SameWallet, PathOrSettles, path_op-Settles}

module _ (c : Crypto) {Props : Type 0} (decode : Bytes → Decoded Props) (msgs : Messages)
    (host_static_priv credential : Bytes) (entropy : Entropy) where
  -- The three operations on a Solana account: a path that does not parse is answered before the
  -- device is asked anything, with the client as it was. Otherwise the operation ends, whatever the
  -- slot holds and whatever arrives, and leaves a connection of the wallet that was asked for in the
  -- slot when it succeeds and an empty slot when it fails.
  pub solana_account-Settles :
      (solana : SolanaCodec) (self : Client) (passphrase : PassphraseSpec) (account : ℕ)
      (path : Option Text) (message : Bytes)
      → PathOrSettles path (Solana.account_path account) passphrase self (
          get_solana_address c decode msgs host_static_priv credential entropy solana passphrase
            account path self)
        × PathOrSettles path (Solana.account_path account) passphrase self (
            sign_solana_tx c decode msgs host_static_priv credential entropy solana passphrase
              message account path self)
        × PathOrSettles path (Solana.account_path account) passphrase self (
            sign_solana_message c decode msgs host_static_priv credential entropy solana passphrase
              message account path self)
  unfolding get_solana_address sign_solana_tx sign_solana_message
  solana_account-Settles solana self passphrase account path message = (
    path_op-Settles c decode msgs host_static_priv credential entropy path
        (Solana.account_path account) passphrase self _
        (λ p s.
          Returns-SameWallet (λ addr. length addr ≢ 0) s _
            (solana-Returns c.aes msgs solana seeded_session_id p message s).0),
    path_op-Settles c decode msgs host_static_priv credential entropy path
        (Solana.account_path account) passphrase self _
        (λ p s.
          Returns-SameWallet (λ sig. length sig ≡ 64) s _
            (solana-Returns c.aes msgs solana seeded_session_id p message s).1),
    path_op-Settles c decode msgs host_static_priv credential entropy path
        (Solana.account_path account) passphrase self _
        (λ p s.
          Returns-SameWallet (λ sig. length sig ≡ 64) s _
            (solana-Returns c.aes msgs solana seeded_session_id p message s).2),
  )

  -- The two operations on a Tron account, in the same way: a path that does not parse is answered
  -- with the client as it was. Otherwise the operation ends, whatever the slot holds and whatever
  -- arrives, and leaves a connection of the wallet that was asked for in the slot when it succeeds
  -- and an empty slot when it fails.
  pub tron_account-Settles :
      (tron : TronCodec) (self : Client) (passphrase : PassphraseSpec) (account : ℕ)
      (path : Option Text) (raw_tx_proto : Bytes)
      → PathOrSettles path (Tron.account_path account) passphrase self (
          get_tron_address c decode msgs host_static_priv credential entropy tron passphrase account
            path self)
        × PathOrSettles path (Tron.account_path account) passphrase self (
            sign_tron_tx c decode msgs host_static_priv credential entropy tron passphrase
              raw_tx_proto account path self)
  unfolding get_tron_address sign_tron_tx
  tron_account-Settles tron self passphrase account path raw_tx_proto = (
    path_op-Settles c decode msgs host_static_priv credential entropy path
        (Tron.account_path account) passphrase self _
        (λ p s.
          Returns-SameWallet (λ addr. length addr ≢ 0) s _
            (tron-Returns c.aes msgs tron seeded_session_id p raw_tx_proto s).0),
    path_op-Settles c decode msgs host_static_priv credential entropy path
        (Tron.account_path account) passphrase self _
        (λ p s.
          Returns-SameWallet (λ sig. (length sig.r ≡ 32) × (length sig.s ≡ 32)) s _
            (tron-Returns c.aes msgs tron seeded_session_id p raw_tx_proto s).1),
  )
