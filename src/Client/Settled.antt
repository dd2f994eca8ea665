-- ===== src/Client/Settled.antt =====
-- The client's operations, one by one.
use maknoon_trezor_core_rs.Prelude.{
  ℕ, refl, ◌∙◌, not, false, Option, none, List, Bytes, length, take, ltb,
}
use maknoon_trezor_core_rs.Error.{ok, guard, thp_error}
use maknoon_trezor_core_rs.Proto.{Decoded, or_thp}
use maknoon_trezor_core_rs.Outcome.{Op, after, Yields, Yields-after, Yields-weaken, Yields-lift}
use maknoon_trezor_core_rs.Bip32.{Text}
use maknoon_trezor_core_rs.Thp.Aead.{Aes256Gcm}
use maknoon_trezor_core_rs.Thp.Noise.{Crypto}
use maknoon_trezor_core_rs.Thp.Connection.{Connection, seeded_session_id}
use maknoon_trezor_core_rs.Thp.Connection.App.{Messages, transceive_on}
use maknoon_trezor_core_rs.Thp.Connection.Replies.{transceive_on-Replied}
use maknoon_trezor_core_rs.Thp.Pairing.{PairingCodec}
use maknoon_trezor_core_rs.Chains.Reply.{expect_type, required}
use maknoon_trezor_core_rs.Chains.Ethereum.Envelope.{decode_eip1559_envelope}
use maknoon_trezor_core_rs.Chains.Ethereum.Messages.{
  EthereumCodec, account_path, get_address, get_public_key, sign_message, sign_message_full,
  sign_eip1559, sign_tx_of, signature_of,
}
use maknoon_trezor_core_rs.Client.{Client, PassphraseSpec, standard, Entropy}
use maknoon_trezor_core_rs.Client.Operations.{
  get_attestor_pubkey, sign_message_eth, get_ethereum_address, sign_ethereum_tx,
  sign_ethereum_message,
}
use maknoon_trezor_core_rs.Client.Paths.{SameWallet, PathOrSettles, path_op-Settles}
use maknoon_trezor_core_rs.Client.Wallet.{Yields-result, Settles, pinned_op-Settles}

-- An exchange whose reply is only looked at.
module _ (aes : Aes256Gcm) (msgs : Messages) where
  pub exchange-SameWallet :
      {A : Type 0} (session_id message_type : ℕ) (body : Bytes) (look : ℕ × Bytes → Op Connection A)
      → ((m : ℕ × Bytes) (t : Connection) → Yields (SameWallet t) (look m t))
      → (s : Connection)
      → Yields (SameWallet s) (after (transceive_on aes msgs session_id message_type body s) look)
  exchange-SameWallet session_id message_type body look h s =
      Yields-after _ (SameWallet s) (transceive_on aes msgs session_id message_type body s) look
        (transceive_on-Replied aes msgs s session_id message_type body)
        (λ m t r.
          Yields-weaken (SameWallet t) (SameWallet s) (look m t) (h m t) (λ a w e. e ∙ r.2.seeded))

module _ (aes : Aes256Gcm) (msgs : Messages) (codec : EthereumCodec) (session_id : ℕ)
    (path : List ℕ) where
  get_address-SameWallet :
      (s : Connection) → Yields (SameWallet s) (get_address aes msgs codec session_id path s)
  unfolding get_address
  get_address-SameWallet =
      exchange-SameWallet aes msgs session_id 56 (codec.get_address path) _ (λ m t.
        Yields-lift (SameWallet t) (expect_type "EthereumAddress" 57 m.0) _ t (λ u e.
          Yields-lift (SameWallet t) (or_thp "EthereumAddress decode: " (codec.address m.1)) _ t
            (λ a e'.
              Yields-result (SameWallet t) (required "EthereumAddress missing address" a) t
                (λ b. refl))))

  get_public_key-SameWallet :
      (s : Connection) → Yields (SameWallet s) (get_public_key aes msgs codec session_id path s)
  unfolding get_public_key
  get_public_key-SameWallet =
      exchange-SameWallet aes msgs session_id 450 (codec.get_public_key path) _ (λ m t.
        Yields-lift (SameWallet t) (expect_type "EthereumPublicKey" 451 m.0) _ t (λ u e.
          Yields-result (SameWallet t) (or_thp "EthereumPublicKey decode: " (codec.public_key m.1))
            t (λ b. refl)))

  sign_message-SameWallet :
      (message : Bytes) (s : Connection)
      → Yields (SameWallet s) (sign_message aes msgs codec session_id path message s)
  unfolding sign_message
  sign_message-SameWallet message =
      exchange-SameWallet aes msgs session_id 64 (codec.sign_message path message) _ (λ m t.
        Yields-lift (SameWallet t) (expect_type "EthereumMessageSignature" 66 m.0) _ t (λ u e.
          Yields-lift (SameWallet t)
            (or_thp "EthereumMessageSignature decode: " (codec.message_signature m.1)) _ t
            (λ sig e'.
              Yields-lift (SameWallet t)
                (guard (not (ltb (length sig) 64))
                  (thp_error "Ethereum signature shorter than 64 bytes"))
                _ t (λ u' e''. Yields-result (SameWallet t) (ok (take 64 sig)) t (λ b. refl)))))

  sign_message_full-SameWallet :
      (message : Bytes) (s : Connection)
      → Yields (SameWallet s) (sign_message_full aes msgs codec session_id path message s)
  unfolding sign_message_full
  sign_message_full-SameWallet message =
      exchange-SameWallet aes msgs session_id 64 (codec.sign_message path message) _ (λ m t.
        Yields-lift (SameWallet t) (expect_type "EthereumMessageSignature" 66 m.0) _ t (λ u e.
          Yields-lift (SameWallet t)
            (or_thp "EthereumMessageSignature decode: " (codec.message_signature m.1)) _ t
            (λ sig e'.
              Yields-lift (SameWallet t)
                (guard (not (ltb (length sig) 65))
                  (thp_error "Ethereum signature shorter than 65 bytes"))
                _ t (λ u' e''. Yields-result (SameWallet t) (ok (take 65 sig)) t (λ b. refl)))))

  sign_eip1559-SameWallet :
      (envelope : Bytes) (s : Connection)
      → Yields (SameWallet s) (sign_eip1559 aes msgs codec session_id path envelope s)
  unfolding sign_eip1559
  sign_eip1559-SameWallet envelope s =
      Yields-lift (SameWallet s) (decode_eip1559_envelope envelope) _ s (λ tx d.
        exchange-SameWallet aes msgs session_id 452 (codec.sign_tx (sign_tx_of path tx)) _
          (λ m t. Yields-lift (SameWallet t) (expect_type "EthereumTxRequest" 59 m.0) _ t (λ u e.
            Yields-lift (SameWallet t) (or_thp "EthereumTxRequest decode: " (codec.tx_request m.1))
              _ t (λ req e'. Yields-result (SameWallet t) (signature_of req) t (λ b. refl))))
          s)

module _ (c : Crypto) {Props : Type 0} (decode : Bytes → Decoded Props) (msgs : Messages)
    (features : PairingCodec) (eth : EthereumCodec) (host_static_priv credential : Bytes)
    (entropy : Entropy) where
  -- Both operations of the identity end, whatever the slot holds and whatever arrives. Each leaves
  -- a connection of the standard wallet in the slot when it succeeds and an empty slot when it
  -- fails.
  pub attestor-Settles :
      (self : Client) (message : Bytes)
      → Settles
          (none, false)
          (get_attestor_pubkey c decode msgs features eth host_static_priv credential entropy self)
        × Settles
            (none, false)
            (sign_message_eth c decode msgs features eth host_static_priv credential entropy message
              self)
  unfolding get_attestor_pubkey sign_message_eth
  attestor-Settles self message = (
    pinned_op-Settles c decode msgs host_static_priv credential entropy standard _ self
        (get_public_key-SameWallet c.aes msgs eth seeded_session_id (account_path 0)),
    pinned_op-Settles c decode msgs host_static_priv credential entropy standard _ self
        (sign_message-SameWallet c.aes msgs eth seeded_session_id (account_path 0) message),
  )

  -- The three operations on an Ethereum account: a path that does not parse is answered before the
  -- device is asked anything, with the client as it was. Otherwise the operation ends, whatever the
  -- slot holds and whatever arrives, and leaves a connection of the wallet that was asked for in
  -- the slot when it succeeds and an empty slot when it fails.
  pub ethereum_account-Settles :
      (self : Client) (passphrase : PassphraseSpec) (account : ℕ) (path : Option Text)
      (envelope message : Bytes)
      → PathOrSettles path (account_path account) passphrase self (
          get_ethereum_address c decode msgs features eth host_static_priv credential entropy
            passphrase account path self)
        × PathOrSettles path (account_path account) passphrase self (
            sign_ethereum_tx c decode msgs features eth host_static_priv credential entropy
              passphrase envelope account path self)
        × PathOrSettles path (account_path account) passphrase self (
            sign_ethereum_message c decode msgs features eth host_static_priv credential entropy
              passphrase account message path self)
  unfolding get_ethereum_address sign_ethereum_tx sign_ethereum_message
  ethereum_account-Settles self passphrase account path envelope message = (
    path_op-Settles c decode msgs host_static_priv credential entropy path (account_path account)
        passphrase self _ (get_address-SameWallet c.aes msgs eth seeded_session_id),
    path_op-Settles c decode msgs host_static_priv credential entropy path (account_path account)
        passphrase self _
        (λ address_n. sign_eip1559-SameWallet c.aes msgs eth seeded_session_id address_n envelope),
    path_op-Settles c decode msgs host_static_priv credential entropy path (account_path account)
        passphrase self _
        (λ address_n.
          sign_message_full-SameWallet c.aes msgs eth seeded_session_id address_n message),
  )
