-- ===== src/Chains/Bitcoin/SignTx.antt =====
-- `sign_psbt` of trezor-core/src/chains/bitcoin.rs: the SignTx exchange, which the device drives.
use maknoon_trezor_core_rs.Prelude.{
  ℕ, zero, suc, ◌%◌, ◌^◌, Bool, [], Bytes, length, ◌==◌, if◌then◌else◌,
}
use maknoon_trezor_core_rs.Error.{ok}
use maknoon_trezor_core_rs.Proto.{or_thp}
use maknoon_trezor_core_rs.Outcome.{Op, ◌>>=◌, ◌>>◌, out_of_fuel, lift, get}
use maknoon_trezor_core_rs.Bip32.{Text}
use maknoon_trezor_core_rs.Thp.Aead.{Aes256Gcm}
use maknoon_trezor_core_rs.Thp.Connection.{Connection}
use maknoon_trezor_core_rs.Thp.Connection.App.{Messages, transceive, transceive_on}
use maknoon_trezor_core_rs.Chains.Reply.{expect_type}
use maknoon_trezor_core_rs.Chains.Bitcoin.{coin_name}
use maknoon_trezor_core_rs.Chains.Bitcoin.Psbt.{Psbt, BitcoinCrate}
use maknoon_trezor_core_rs.Chains.Bitcoin.Requests.{
  SignTxCodec, TxRequest, Signatures, collect, index_in, hash_in, item_of, txfinished, ack_of,
  merge,
}

module _ (crate : BitcoinCrate) (codec : SignTxCodec) (aes : Aes256Gcm) (msgs : Messages) where
  -- The answer to a request, and what follows its reply.
  abbrev pub answer :
      Psbt → Bool → TxRequest → (ℕ × Bytes → Op Connection Signatures) → Op Connection Signatures
  answer psbt testnet req next = do
    ack ← lift (
        ack_of crate codec psbt testnet (item_of req.request_type) (index_in req.details)
          (hash_in req.details))
    reply ← transceive aes msgs 22 ack
    next reply

  -- The loop, from a reply on.
  unfoldable pub answer_requests :
      ℕ → Psbt → Bool → Signatures → ℕ × Bytes → Op Connection Signatures
  answer_requests zero psbt testnet sigs reply = out_of_fuel
  answer_requests (suc fuel) psbt testnet sigs (rt, rp) = do
    lift (expect_type "TxRequest" 21 rt)
    req ← lift (or_thp "TxRequest decode: " (codec.tx_request rp))
    let sigs' = collect req.serialized sigs
    if item_of req.request_type == txfinished
        then lift (ok sigs')
        else answer psbt testnet req (answer_requests fuel psbt testnet sigs')

  -- A round takes a read.
  abbrev pub request_rounds : Connection → ℕ
  request_rounds self = suc (length self.transport.incoming)

  unfoldable pub sign_psbt : ℕ → Text → ℕ → Op Connection Text
  unfolding answer_requests
  sign_psbt session_id psbt_base64 coin_type = do
    psbt ← lift (or_thp "PSBT parse: " (crate.parse_psbt psbt_base64))
    reply ← transceive_on aes msgs session_id 15 (
        codec.sign_tx (length psbt.unsigned_tx.output % 2 ^ 32)
          (length psbt.unsigned_tx.input % 2 ^ 32) (coin_name coin_type) psbt.unsigned_tx.version
          psbt.unsigned_tx.lock_time)
    self ← get
    sigs ← answer_requests (request_rounds self) psbt (coin_type == 1) [] reply
    signed ← lift (merge crate codec sigs psbt)
    lift (ok (crate.print_psbt signed))
