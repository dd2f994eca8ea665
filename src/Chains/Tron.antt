-- ===== src/Chains/Tron.antt =====
-- trezor-core/src/chains/tron.rs: what is sent to a seeded session. The codecs are generated code,
-- a parameter; `show_display` is false and `chunkify` absent in every request.
pub mod Messages
pub mod Structured
use maknoon_trezor_core_rs.Prelude.{
  ℕ, not, Option, List, [], ◌∷◌, ◌++◌, Bytes, length, slice, get_or, bit_or, ◌==◌, if◌then◌else◌,
}
use maknoon_trezor_core_rs.Error.{
  Reason, TrezorError, thp, lit, num, Result, ok, err, thp_error, guard, ◌>>=◌, ◌>>◌,
}
use maknoon_trezor_core_rs.Proto.{Decoded, or_thp}
use maknoon_trezor_core_rs.Bip32.{Text}
use maknoon_trezor_core_rs.Chains.Reply.{Secp256k1Signature, hardened_bit}

-- `TronRawContract`: the 32 bits of its type, and its parameter's value.
pub record TronRawContract : Type 0 where
  pub contract_type : ℕ
  pub value : Bytes

pub record TronRawTransaction : Type 0 where
  pub ref_block_bytes : Bytes
  pub ref_block_hash : Bytes
  pub expiration : ℕ
  pub memo : Option Bytes
  pub contract : List TronRawContract
  pub timestamp : ℕ
  pub fee_limit : Option ℕ

pub record TronSignTx : Type 0 where
  pub address_n : List ℕ
  pub ref_block_bytes : Bytes
  pub ref_block_hash : Bytes
  pub expiration : ℕ
  pub memo : Option Bytes
  pub timestamp : ℕ
  pub fee_limit : Option ℕ

pub record TronTransferContract : Type 0 where
  pub owner_address : Bytes
  pub to_address : Bytes
  pub amount : ℕ

pub record TronTriggerSmartContract : Type 0 where
  pub owner_address : Bytes
  pub contract_address : Bytes
  pub call_data : Bytes

pub record TronCodec : Type 0 where
  pub get_address : List ℕ → Bytes
  pub address : Bytes → Decoded Text
  pub raw_transaction : Bytes → Decoded TronRawTransaction
  pub sign_tx : TronSignTx → Bytes
  pub transfer : Bytes → Decoded TronTransferContract
  pub encode_transfer : TronTransferContract → Bytes
  pub trigger : Bytes → Decoded TronTriggerSmartContract
  pub encode_trigger : TronTriggerSmartContract → Bytes
  pub signature : Bytes → Decoded Bytes
  -- The text of a contract type that is not supported.
  pub contract_type_text : ℕ → Reason

-- m/44'/195'/<account>'/0/0
unfoldable pub account_path : ℕ → List ℕ
account_path account = 0x8000002c ∷ 0x800000c3 ∷ bit_or hardened_bit account ∷ 0 ∷ 0 ∷ []

abbrev pub transfer_contract : ℕ
transfer_contract = 1

abbrev pub trigger_smart_contract : ℕ
trigger_smart_contract = 31

-- `raw.contract.first()`
abbrev pub first_contract : List TronRawContract → Result TronRawContract
first_contract [] = err (thp_error "Tron transaction has no contract")
first_contract (contract ∷ more) = ok contract

unfoldable pub sign_tx_of : List ℕ → TronRawTransaction → TronSignTx
sign_tx_of path raw = record {
  address_n = path;
  ref_block_bytes = raw.ref_block_bytes;
  ref_block_hash = raw.ref_block_hash;
  expiration = raw.expiration;
  memo = raw.memo;
  timestamp = raw.timestamp;
  fee_limit = raw.fee_limit;
}

-- r(32) || s(32) || v(1)
unfoldable pub split_signature : Bytes → Result Secp256k1Signature
split_signature sig = do
  guard (length sig == 65) (
      thp (lit "Tron signature was " ∷ num (length sig) ∷ lit " bytes, expected 65 (r||s||v)" ∷ []))
  ok (record { v = get_or sig 64 0; r = slice 0 32 sig; s = slice 32 64 sig })

module _ (codec : TronCodec) where
  abbrev pub unsupported_contract : ℕ → TrezorError
  unsupported_contract contract_type = thp (
      lit "unsupported Tron contract "
      ∷ (codec.contract_type_text contract_type
          ++ (lit "; only TRX transfer and TRC-20 (TriggerSmartContract) are supported" ∷ [])))

  -- The message type and the body of the contract that the device will ask for.
  unfoldable pub contract_message : TronRawContract → Result (ℕ × Bytes)
  contract_message contract =
      if contract.contract_type == transfer_contract
      then (do
        c ← or_thp "TronTransferContract decode: " (codec.transfer contract.value)
        ok (2205, codec.encode_transfer c))
      else if contract.contract_type == trigger_smart_contract
      then (do
        c ← or_thp "TronTriggerSmartContract decode: " (codec.trigger contract.value)
        ok (2206, codec.encode_trigger c))
      else err (unsupported_contract contract.contract_type)

  -- What is resolved before the exchange is opened: the header, and the contract's message.
  unfoldable pub resolve_tx : List ℕ → Bytes → Result (TronSignTx × (ℕ × Bytes))
  unfolding contract_message sign_tx_of
  resolve_tx path raw_tx_proto = do
    raw ← or_thp "Tron raw_data decode: " (codec.raw_transaction raw_tx_proto)
    contract ← first_contract raw.contract
    m ← contract_message contract
    ok (sign_tx_of path raw, m)
