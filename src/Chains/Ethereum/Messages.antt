-- ===== src/Chains/Ethereum/Messages.antt =====
-- The messages of trezor-core/src/chains/ethereum.rs on a seeded session. The codecs are generated
-- code, a parameter; `show_display` is false in every request.
use maknoon_trezor_core_rs.Prelude.{
  ℕ, ◌+◌, ◌-◌, ◌%◌, ◌^◌, ◌/◌, not, Option, none, some, List, [], ◌∷◌, Bytes, length, take, bit_or,
  ltb, leb, if◌then◌else◌,
}
use maknoon_trezor_core_rs.Error.{Result, ok, err, thp_error, guard}
use maknoon_trezor_core_rs.Proto.{Decoded, or_thp}
use maknoon_trezor_core_rs.Outcome.{Op, ◌>>=◌, ◌>>◌, lift}
use maknoon_trezor_core_rs.Bip32.{Text}
use maknoon_trezor_core_rs.Thp.Aead.{Aes256Gcm}
use maknoon_trezor_core_rs.Thp.Connection.{Connection}
use maknoon_trezor_core_rs.Thp.Connection.App.{Messages, transceive_on}
use maknoon_trezor_core_rs.Chains.Reply.{expect_type, required, Secp256k1Signature, hardened_bit}
use maknoon_trezor_core_rs.Chains.Ethereum.Envelope.{Eip1559Tx, decode_eip1559_envelope}

pub record SignTxEip1559 : Type 0 where
  pub address_n : List ℕ
  pub nonce : Bytes
  pub max_gas_fee : Bytes
  pub max_priority_fee : Bytes
  pub gas_limit : Bytes
  pub to : Text
  pub value : Bytes
  pub data_initial_chunk : Bytes
  pub data_length : ℕ
  pub chain_id : ℕ

pub record TxRequest : Type 0 where
  pub signature_v : Option ℕ
  pub signature_r : Option Bytes
  pub signature_s : Option Bytes

pub record EthereumCodec : Type 0 where
  pub get_address : List ℕ → Bytes
  pub address : Bytes → Decoded (Option Text)
  pub get_public_key : List ℕ → Bytes
  pub public_key : Bytes → Decoded Bytes
  pub sign_message : List ℕ → Bytes → Bytes
  pub message_signature : Bytes → Decoded Bytes
  pub sign_tx : SignTxEip1559 → Bytes
  pub tx_request : Bytes → Decoded TxRequest

-- m/44'/60'/<account>'/0/0
unfoldable pub account_path : ℕ → List ℕ
account_path account = 0x8000002c ∷ 0x8000003c ∷ bit_or hardened_bit account ∷ 0 ∷ 0 ∷ []

abbrev hex_digit : ℕ → ℕ
hex_digit d = if ltb d 10 then 0x30 + d else 0x61 + (d - 10)

unfoldable pub hex_lower : Bytes → Text
hex_lower [] = []
hex_lower (b ∷ bs) = hex_digit (b / 16) ∷ hex_digit (b % 16) ∷ hex_lower bs

-- The recipient as text; a contract creation has none.
unfoldable pub recipient : Bytes → Text
unfolding hex_lower
recipient [] = []
recipient (b ∷ bs) = 0x30 ∷ 0x78 ∷ hex_lower (b ∷ bs)

unfoldable pub sign_tx_of : List ℕ → Eip1559Tx → SignTxEip1559
unfolding recipient
sign_tx_of path tx = record {
  address_n = path;
  nonce = tx.nonce;
  max_gas_fee = tx.max_fee;
  max_priority_fee = tx.max_priority_fee;
  gas_limit = tx.gas_limit;
  to = recipient tx.to;
  value = tx.value;
  data_initial_chunk = tx.call_data;
  data_length = length tx.call_data % 2 ^ 32;
  chain_id = tx.chain_id;
}

-- `unwrap_or(0)`
abbrev raw_v_of : Option ℕ → ℕ
raw_v_of none = 0
raw_v_of (some v) = v

-- The recovery id without the legacy offset, `as u8`.
unfoldable pub parity_of : ℕ → ℕ
parity_of raw_v = if leb 27 raw_v then (raw_v - 27) % 2 ^ 8 else raw_v % 2 ^ 8

abbrev signature_parts : Option ℕ → Option Bytes → Option Bytes → Result Secp256k1Signature
signature_parts v (some r) (some s) = ok (record { v = parity_of (raw_v_of v); r = r; s = s })
signature_parts v (some r) none =
    err (thp_error "EthereumTxRequest carried no signature (device asked for more data?)")
signature_parts v none s =
    err (thp_error "EthereumTxRequest carried no signature (device asked for more data?)")

unfoldable pub signature_of : TxRequest → Result Secp256k1Signature
unfolding parity_of
signature_of req = signature_parts req.signature_v req.signature_r req.signature_s

module _ (aes : Aes256Gcm) (msgs : Messages) (codec : EthereumCodec) where
  unfoldable pub get_address : ℕ → List ℕ → Op Connection Text
  get_address session_id path = do
    (rt, rp) ← transceive_on aes msgs session_id 56 (codec.get_address path)
    lift (expect_type "EthereumAddress" 57 rt)
    address ← lift (or_thp "EthereumAddress decode: " (codec.address rp))
    lift (required "EthereumAddress missing address" address)

  unfoldable pub get_public_key : ℕ → List ℕ → Op Connection Bytes
  get_public_key session_id path = do
    (rt, rp) ← transceive_on aes msgs session_id 450 (codec.get_public_key path)
    lift (expect_type "EthereumPublicKey" 451 rt)
    lift (or_thp "EthereumPublicKey decode: " (codec.public_key rp))

  -- The first 64 bytes of the signature.
  unfoldable pub sign_message : ℕ → List ℕ → Bytes → Op Connection Bytes
  sign_message session_id path message = do
    (rt, rp) ← transceive_on aes msgs session_id 64 (codec.sign_message path message)
    lift (expect_type "EthereumMessageSignature" 66 rt)
    sig ← lift (or_thp "EthereumMessageSignature decode: " (codec.message_signature rp))
    lift (guard (not (ltb (length sig) 64)) (thp_error "Ethereum signature shorter than 64 bytes"))
    lift (ok (take 64 sig))

  -- All 65 bytes, the recovery byte included.
  unfoldable pub sign_message_full : ℕ → List ℕ → Bytes → Op Connection Bytes
  sign_message_full session_id path message = do
    (rt, rp) ← transceive_on aes msgs session_id 64 (codec.sign_message path message)
    lift (expect_type "EthereumMessageSignature" 66 rt)
    sig ← lift (or_thp "EthereumMessageSignature decode: " (codec.message_signature rp))
    lift (guard (not (ltb (length sig) 65)) (thp_error "Ethereum signature shorter than 65 bytes"))
    lift (ok (take 65 sig))

  unfoldable pub sign_eip1559 : ℕ → List ℕ → Bytes → Op Connection Secp256k1Signature
  sign_eip1559 session_id path envelope = do
    tx ← lift (decode_eip1559_envelope envelope)
    (rt, rp) ← transceive_on aes msgs session_id 452 (codec.sign_tx (sign_tx_of path tx))
    lift (expect_type "EthereumTxRequest" 59 rt)
    req ← lift (or_thp "EthereumTxRequest decode: " (codec.tx_request rp))
    lift (signature_of req)
