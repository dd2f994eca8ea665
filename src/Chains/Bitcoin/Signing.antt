-- ===== src/Chains/Bitcoin/Signing.antt =====
-- The signing of a PSBT ends, and what it returns.
use maknoon_trezor_core_rs.Prelude.{ℕ, zero, suc, ◌<◌, ◌≡◌, refl, ◌∙◌, Bool, [], Bytes, ◌==◌, arith}
use maknoon_trezor_core_rs.Proto.{decoded, or_thp, or_thp-eq-ok}
use maknoon_trezor_core_rs.Outcome.{Op, Yields, Yields-after, Yields-weaken, Yields-lift, Yields-if}
use maknoon_trezor_core_rs.Bip32.{Text}
use maknoon_trezor_core_rs.Thp.Aead.{Aes256Gcm}
use maknoon_trezor_core_rs.Thp.Connection.{Connection}
use maknoon_trezor_core_rs.Thp.Connection.App.{Messages, transceive}
use maknoon_trezor_core_rs.Thp.Connection.Moves.{left}
use maknoon_trezor_core_rs.Thp.Connection.Replies.{Replied, transceive-Consumes}
use maknoon_trezor_core_rs.Thp.Connection.Exchange.{Returns, exchange-Returns}
use maknoon_trezor_core_rs.Chains.Reply.{expect_type}
use maknoon_trezor_core_rs.Chains.Bitcoin.Psbt.{Psbt, BitcoinCrate}
use maknoon_trezor_core_rs.Chains.Bitcoin.Requests.{
  SignTxCodec, TxRequest, Signatures, collect, index_in, hash_in, item_of, txfinished, ack_of,
  merge,
}
use maknoon_trezor_core_rs.Chains.Bitcoin.Merging.{Signs, merge-Signs}
use maknoon_trezor_core_rs.Chains.Bitcoin.SignTx.{
  answer, answer_requests, request_rounds, sign_psbt,
}

module _ (crate : BitcoinCrate) (codec : SignTxCodec) (aes : Aes256Gcm) (msgs : Messages) where
  abbrev Same : {A : Type 0} → Connection → A → Connection → Type 0
  Same s a t = t.seeded_with ≡ s.seeded_with

  answer-Same :
      (psbt : Psbt) (testnet : Bool) (req : TxRequest) (next : ℕ × Bytes → Op Connection Signatures)
      (s : Connection)
      → ((reply : ℕ × Bytes) (t : Connection) → left t < left s → Yields (Same t) (next reply t))
      → Yields (Same s) (answer crate codec aes msgs psbt testnet req next s)
  answer-Same psbt testnet req next s h =
      Yields-lift (Same s)
        (ack_of crate codec psbt testnet (item_of req.request_type) (index_in req.details)
          (hash_in req.details))
        _ s
        (λ ack e.
          Yields-after (λ m t. Replied aes msgs s m t × (left t < left s)) (Same s)
            (transceive aes msgs 22 ack s) next (transceive-Consumes aes msgs s 22 ack)
            (λ m t r.
              Yields-weaken (Same t) (Same s) (next m t) (h m t r.1)
                (λ sigs w q. q ∙ r.0.2.seeded)))

  -- The loop ends: a request that is answered takes a read.
  answer_requests-Same :
      (fuel : ℕ) (psbt : Psbt) (testnet : Bool) (sigs : Signatures) (reply : ℕ × Bytes)
      (s : Connection)
      → left s < fuel
      → Yields (Same s) (answer_requests crate codec aes msgs fuel psbt testnet sigs reply s)
  unfolding answer_requests Yields
  answer_requests-Same zero psbt testnet sigs reply s h = absurd (omega arith)
  answer_requests-Same (suc fuel) psbt testnet sigs (rt, rp) s h =
      Yields-lift (Same s) (expect_type "TxRequest" 21 rt) _ s (λ u e.
        Yields-lift (Same s) (or_thp "TxRequest decode: " (codec.tx_request rp)) _ s (λ req f.
          Yields-if (Same s) (item_of req.request_type == txfinished) _ _ s (λ t. refl)
            (λ t. answer-Same psbt testnet req _ s (λ m w k.
              answer_requests-Same fuel psbt testnet (collect req.serialized sigs) m w
                (omega arith)))))

  -- A text of a PSBT that signs the one that another text stands for.
  abbrev pub SignedText : Text → Text → Type 0
  SignedText psbt_base64 out =
      (psbt : Psbt) × (signed : Psbt) × (crate.parse_psbt psbt_base64 ≡ decoded psbt)
      × Signs psbt signed
      × (out ≡ crate.print_psbt signed)

  pub sign_psbt-Returns :
      (session_id : ℕ) (psbt_base64 : Text) (coin_type : ℕ) (s : Connection)
      → Yields
          (Returns (SignedText psbt_base64) s)
          (sign_psbt crate codec aes msgs session_id psbt_base64 coin_type s)
  unfolding sign_psbt Yields
  sign_psbt-Returns session_id psbt_base64 coin_type s =
      Yields-lift _ (or_thp "PSBT parse: " (crate.parse_psbt psbt_base64)) _ s (λ psbt e.
        exchange-Returns aes msgs (SignedText psbt_base64) _
          (λ m t.
            Yields-after (Same t) (Returns (SignedText psbt_base64) t)
              (answer_requests crate codec aes msgs (request_rounds crate codec aes msgs t) psbt
                (coin_type == 1) [] m t)
              _
              (answer_requests-Same (request_rounds crate codec aes msgs t) psbt (coin_type == 1) []
                m t (omega arith))
              (λ sigs w k. Yields-lift _ (merge crate codec sigs psbt) _ w (λ signed f. (
                (
                  psbt,
                  signed,
                  or_thp-eq-ok "PSBT parse: " (crate.parse_psbt psbt_base64) e,
                  merge-Signs crate codec sigs psbt signed f,
                  refl,
                ),
                k,
              ))))
          session_id 15 _ s)
