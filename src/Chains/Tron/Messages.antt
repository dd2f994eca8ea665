-- ===== src/Chains/Tron/Messages.antt =====
-- The two operations of trezor-core/src/chains/tron.rs.
use maknoon_trezor_core_rs.Prelude.{ℕ, not, List, Bytes, length, ◌==◌}
use maknoon_trezor_core_rs.Error.{ok, thp_error, guard}
use maknoon_trezor_core_rs.Proto.{or_thp}
use maknoon_trezor_core_rs.Outcome.{Op, ◌>>=◌, ◌>>◌, lift}
use maknoon_trezor_core_rs.Bip32.{Text}
use maknoon_trezor_core_rs.Thp.Aead.{Aes256Gcm}
use maknoon_trezor_core_rs.Thp.Connection.{Connection}
use maknoon_trezor_core_rs.Thp.Connection.App.{Messages, transceive, transceive_on}
use maknoon_trezor_core_rs.Chains.Reply.{expect_type, Secp256k1Signature}
use maknoon_trezor_core_rs.Chains.Tron.{TronCodec, resolve_tx, split_signature}

module _ (aes : Aes256Gcm) (msgs : Messages) (codec : TronCodec) where
  unfoldable pub get_address : ℕ → List ℕ → Op Connection Text
  get_address session_id path = do
    (rt, rp) ← transceive_on aes msgs session_id 2200 (codec.get_address path)
    lift (expect_type "TronAddress" 2201 rt)
    addr ← lift (or_thp "TronAddress decode: " (codec.address rp))
    lift (guard (not (length addr == 0)) (thp_error "TronAddress carried an empty address"))
    lift (ok addr)

  -- The contract goes to the session that is active then.
  unfoldable pub sign_tx : ℕ → List ℕ → Bytes → Op Connection Secp256k1Signature
  sign_tx session_id path raw_tx_proto = do
    (header, contract) ← lift (resolve_tx codec path raw_tx_proto)
    (rt, _) ← transceive_on aes msgs session_id 2202 (codec.sign_tx header)
    lift (expect_type "TronContractRequest" 2204 rt)
    (rt2, rp2) ← transceive aes msgs contract.0 contract.1
    lift (expect_type "TronSignature" 2203 rt2)
    sig ← lift (or_thp "TronSignature decode: " (codec.signature rp2))
    lift (split_signature sig)
