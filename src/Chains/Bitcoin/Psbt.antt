-- ===== src/Chains/Bitcoin/Psbt.antt =====
-- The data of a PSBT and of the answers that trezor-core/src/chains/bitcoin.rs builds from it. The
-- types of the `bitcoin` crate are its public fields; hashes, addresses and keys are a
-- parameter. An `i32` is its bits, and a `BTreeMap` the list of its entries in the order of the keys.
use maknoon_trezor_core_rs.Prelude.{ℕ, Bool, Option, List, Bytes}
use maknoon_trezor_core_rs.Proto.{Decoded}
use maknoon_trezor_core_rs.Bip32.{Text}
use maknoon_trezor_core_rs.Chains.Bitcoin.{InputScriptType}

pub record OutPoint : Type 0 where
  pub txid : Bytes
  pub vout : ℕ

pub record TxIn : Type 0 where
  pub previous_output : OutPoint
  pub script_sig : Bytes
  pub sequence : ℕ

pub record TxOut : Type 0 where
  pub value : ℕ
  pub script_pubkey : Bytes

pub record Transaction : Type 0 where
  pub version : ℕ
  pub lock_time : ℕ
  pub input : List TxIn
  pub output : List TxOut

-- A key with the fingerprint and the path of its derivation.
abbrev pub Bip32Derivation : Type 0
Bip32Derivation = List (Bytes × (Bytes × List ℕ))

-- A signature with its sighash type, which is SIGHASH_ALL for 1.
pub record EcdsaSignature : Type 0 where
  pub signature : Bytes
  pub sighash_type : ℕ

-- `other` is what the code neither reads nor writes.
pub record PsbtInput : Type 0 where
  pub non_witness_utxo : Option Transaction
  pub witness_utxo : Option TxOut
  pub partial_sigs : List (Bytes × EcdsaSignature)
  pub bip32_derivation : Bip32Derivation
  pub other : Bytes

pub record PsbtOutput : Type 0 where
  pub bip32_derivation : Bip32Derivation
  pub other : Bytes

pub record Psbt : Type 0 where
  pub unsigned_tx : Transaction
  pub inputs : List PsbtInput
  pub outputs : List PsbtOutput
  pub other : Bytes

pub data OutputScriptType : Type 0 where
  paytoaddress : OutputScriptType
  paytoscripthash : OutputScriptType
  paytomultisig : OutputScriptType
  paytoopreturn : OutputScriptType
  paytowitness : OutputScriptType
  paytop2shwitness : OutputScriptType
  paytotaproot : OutputScriptType

-- What the `bitcoin` crate computes: a PSBT of its base64 text and back, the id of a transaction, the
-- address of a script on the test network or the main one, a signature of its DER form, and the order
-- of public keys.
pub record BitcoinCrate : Type 0 where
  pub parse_psbt : Text → Decoded Psbt
  pub print_psbt : Psbt → Text
  pub compute_txid : Transaction → Bytes
  pub address_from_script : Bytes → Bool → Decoded Text
  pub signature_from_der : Bytes → Decoded Bytes
  pub pubkey_lt : Bytes → Bytes → Bool

pub record TxInput : Type 0 where
  pub script_type : InputScriptType
  pub address_n : List ℕ
  pub prev_hash : Bytes
  pub prev_index : ℕ
  pub sequence : ℕ
  pub amount : ℕ

pub record TxOutput : Type 0 where
  pub address : Option Text
  pub address_n : List ℕ
  pub amount : ℕ
  pub script_type : OutputScriptType

pub record PrevTx : Type 0 where
  pub version : ℕ
  pub lock_time : ℕ
  pub inputs_count : ℕ
  pub outputs_count : ℕ

pub record PrevInput : Type 0 where
  pub prev_hash : Bytes
  pub prev_index : ℕ
  pub script_sig : Bytes
  pub sequence : ℕ

pub record PrevOutput : Type 0 where
  pub amount : ℕ
  pub script_pubkey : Bytes
