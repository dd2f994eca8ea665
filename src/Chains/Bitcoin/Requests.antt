-- ===== src/Chains/Bitcoin/Requests.antt =====
-- The requests of the SignTx exchange in trezor-core/src/chains/bitcoin.rs, what is answered to each, and
-- the merging of the signatures. The message codecs are a parameter.
use maknoon_trezor_core_rs.Prelude.{
  ℕ, zero, suc, Bool, String, Option, none, some, List, [], ◌∷◌, Bytes, ltb, ◌==◌, if◌then◌else◌,
}
use maknoon_trezor_core_rs.Error.{thp, lit, num, text, Result, ok, err, thp_error, ◌>>=◌}
use maknoon_trezor_core_rs.Proto.{Decoded, or_thp}
use maknoon_trezor_core_rs.Bip32.{Text}
use maknoon_trezor_core_rs.Thp.Connection.App.{or_zero}
use maknoon_trezor_core_rs.Chains.Bitcoin.Psbt.{
  PsbtInput, Psbt, Bip32Derivation, BitcoinCrate, TxInput, TxOutput, PrevTx, PrevInput, PrevOutput,
}
use maknoon_trezor_core_rs.Chains.Bitcoin.Build.{
  or_reason, build_input_ack, build_output_ack, build_prev_meta_ack, build_prev_input_ack,
  build_prev_output_ack,
}

pub record RequestDetails : Type 0 where
  pub request_index : Option ℕ
  pub tx_hash : Option Bytes

pub record Serialized : Type 0 where
  pub signature_index : Option ℕ
  pub signature : Option Bytes

-- The fields of `TxRequest` that are read.
pub record TxRequest : Type 0 where
  pub request_type : Option ℕ
  pub details : Option RequestDetails
  pub serialized : Option Serialized

-- The encoders and the decoder of the exchange. `sign_tx` takes the counts of outputs and inputs, the
-- coin's name, the version and the lock time. `show_item` is the text `{other:?} (request_type {rtype})`.
pub record SignTxCodec : Type 0 where
  pub sign_tx : ℕ → ℕ → String → ℕ → ℕ → Bytes
  pub tx_request : Bytes → Decoded TxRequest
  pub ack_input : TxInput → Bytes
  pub ack_output : TxOutput → Bytes
  pub ack_prev_meta : PrevTx → Bytes
  pub ack_prev_input : PrevInput → Bytes
  pub ack_prev_output : PrevOutput → Bytes
  pub show_item : ℕ → Text

-- `BTreeMap::insert`, which keeps the entries in the order of the keys.
unfoldable pub insert : {A B : Type 0} → (A → A → Bool) → A → B → List (A × B) → List (A × B)
insert lt k v [] = (k, v) ∷ []
insert lt k v ((j, w) ∷ rest) =
    let behind = insert lt k v rest in
    if lt k j then (k, v) ∷ (j, w) ∷ rest else if lt j k then (j, w) ∷ behind else (j, v) ∷ rest

-- Input index to DER signature.
abbrev pub Signatures : Type 0
Signatures = List (ℕ × Bytes)

abbrev pub insert_signature : Option ℕ → Option Bytes → Signatures → Signatures
insert_signature none sig sigs = sigs
insert_signature (some idx) none sigs = sigs
insert_signature (some idx) (some sig) sigs = insert ltb idx sig sigs

abbrev pub collect : Option Serialized → Signatures → Signatures
collect none sigs = sigs
collect (some ser) sigs = insert_signature ser.signature_index ser.signature sigs

abbrev pub index_in : Option RequestDetails → ℕ
index_in none = 0
index_in (some d) = or_zero d.request_index

abbrev pub hash_in : Option RequestDetails → Option Bytes
hash_in none = none
hash_in (some d) = d.tx_hash

abbrev pub txfinished : ℕ
txfinished = 3

-- `unwrap_or(RequestType::Txfinished as i32)`
abbrev pub item_of : Option ℕ → ℕ
item_of none = txfinished
item_of (some n) = n

abbrev pub sighash_all : ℕ
sighash_all = 1

-- `bip32_derivation.keys().next()`
abbrev pub first_key : Bip32Derivation → Option Bytes
first_key [] = none
first_key ((pubkey, source) ∷ rest) = some pubkey

module _ (crate : BitcoinCrate) (codec : SignTxCodec) where
  abbrev input_ack : Psbt → ℕ → Option Bytes → Result Bytes
  input_ack psbt i (some h) = do
    ack ← build_prev_input_ack crate psbt h i
    ok (codec.ack_prev_input ack)
  input_ack psbt i none = do ack ← build_input_ack psbt i; ok (codec.ack_input ack)

  abbrev output_ack : Psbt → ℕ → Bool → Option Bytes → Result Bytes
  output_ack psbt i testnet (some h) = do
    ack ← build_prev_output_ack crate psbt h i
    ok (codec.ack_prev_output ack)
  output_ack psbt i testnet none = do
    ack ← build_output_ack crate psbt i testnet
    ok (codec.ack_output ack)

  abbrev meta_ack : Psbt → Option Bytes → Result Bytes
  meta_ack psbt none = err (thp_error "TXMETA request without a tx_hash")
  meta_ack psbt (some h) = do ack ← build_prev_meta_ack crate psbt h; ok (codec.ack_prev_meta ack)

  -- What is sent for a request of a type, but that the transaction is finished.
  unfoldable pub ack_of : Psbt → Bool → ℕ → ℕ → Option Bytes → Result Bytes
  ack_of psbt testnet rtype i tx_hash =
      if rtype == 0
      then input_ack psbt i tx_hash
      else if rtype == 1
      then output_ack psbt i testnet tx_hash
      else if rtype == 2
      then meta_ack psbt tx_hash
      else err (
          thp (
            lit "Trezor requested unsupported tx item "
            ∷ text (codec.show_item rtype)
            ∷ lit "; RBF-origin / extra-data streaming is not supported"
            ∷ []))

  -- The DER signature, as a partial signature of the input's first key.
  abbrev pub merged_input : PsbtInput → Bytes → Bytes → PsbtInput
  merged_input pin pubkey sig = record pin {
    partial_sigs =
        insert crate.pubkey_lt pubkey (record { signature = sig; sighash_type = sighash_all })
          pin.partial_sigs;
  }

  abbrev pub merge_into : ℕ → PsbtInput → Bytes → Result PsbtInput
  merge_into idx pin der = do
    pubkey ←
        or_reason (first_key pin.bip32_derivation)
          (lit "input " ∷ num idx ∷ lit " missing bip32_derivation" ∷ [])
    sig ← or_thp "device signature parse: " (crate.signature_from_der der)
    ok (merged_input pin pubkey sig)

  -- `get_mut`, at the position that is left.
  unfoldable pub merge_at : ℕ → ℕ → Bytes → List PsbtInput → Result (List PsbtInput)
  merge_at idx i der [] = err (thp (lit "signature for unknown input " ∷ num idx ∷ []))
  merge_at idx zero der (pin ∷ rest) = do pin' ← merge_into idx pin der; ok (pin' ∷ rest)
  merge_at idx (suc i) der (pin ∷ rest) = do rest' ← merge_at idx i der rest; ok (pin ∷ rest')

  unfoldable pub merge : Signatures → Psbt → Result Psbt
  unfolding merge_at
  merge [] psbt = ok psbt
  merge ((idx, der) ∷ sigs) psbt = do
    inputs ← merge_at idx idx der psbt.inputs
    merge sigs (record psbt { inputs = inputs })
