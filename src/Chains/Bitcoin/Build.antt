-- ===== src/Chains/Bitcoin/Build.antt =====
-- What trezor-core/src/chains/bitcoin.rs answers from a PSBT to the device's requests.
use maknoon_trezor_core_rs.Prelude.{
  ℕ, ◌%◌, ◌^◌, Bool, Option, none, some, List, [], ◌∷◌, Bytes, bytes_eq, length, reverse, get_elem?,
  if◌then◌else◌,
}
use maknoon_trezor_core_rs.Error.{thp, lit, num, Reason, Result, ok, err, thp_error, ◌>>=◌}
use maknoon_trezor_core_rs.Proto.{Decoded, decoded, undecodable}
use maknoon_trezor_core_rs.Bip32.{Text}
use maknoon_trezor_core_rs.Chains.Bitcoin.{
  InputScriptType, spendaddress, spendmultisig, external, spendwitness, spendp2shwitness,
  spendtaproot, script_type_for_path,
}
use maknoon_trezor_core_rs.Chains.Bitcoin.Psbt.{
  TxOut, Transaction, Bip32Derivation, PsbtInput, PsbtOutput, Psbt, OutputScriptType, BitcoinCrate,
  TxInput, TxOutput, PrevTx, PrevInput, PrevOutput, paytoaddress, paytowitness, paytop2shwitness,
}

-- `ok_or_else`, and the `map_err` of a crate's error.
abbrev pub or_reason : {A : Type 0} → Option A → Reason → Result A
or_reason none reason = err (thp reason)
or_reason (some a) reason = ok a

-- The path of the first key.
abbrev pub first_path : Bip32Derivation → Option (List ℕ)
first_path [] = none
first_path ((pubkey, (fingerprint, path)) ∷ rest) = some path

abbrev utxo_amount : ℕ → ℕ → Option TxOut → Option Transaction → Result ℕ
utxo_amount vout i (some utxo) prev = ok utxo.value
utxo_amount vout i none (some prev) = do
  out ←
      or_reason (get_elem? prev.output vout)
        (lit "PSBT input " ∷ num i ∷ lit " prev output out of range" ∷ [])
  ok out.value
utxo_amount vout i none none =
    err
      (thp (lit "PSBT input " ∷ num i ∷ lit " has neither witness_utxo nor non_witness_utxo" ∷ []))

-- The witness UTXO first, then the output of the full previous transaction.
unfoldable pub amount_of : PsbtInput → ℕ → ℕ → Result ℕ
amount_of pin vout i = utxo_amount vout i pin.witness_utxo pin.non_witness_utxo

unfoldable pub build_input_ack : Psbt → ℕ → Result TxInput
unfolding amount_of
build_input_ack psbt i = do
  txin ←
      or_reason (get_elem? psbt.unsigned_tx.input i)
        (lit "TxRequest input index " ∷ num i ∷ lit " out of range" ∷ [])
  pin ← or_reason (get_elem? psbt.inputs i) (lit "PSBT input " ∷ num i ∷ lit " missing" ∷ [])
  amount ← amount_of pin txin.previous_output.vout i
  address_n ←
      or_reason (first_path pin.bip32_derivation)
        (lit "PSBT input " ∷ num i ∷ lit " missing bip32_derivation" ∷ [])
  ok (record {
    script_type = script_type_for_path address_n;
    address_n = address_n;
    prev_hash = reverse txin.previous_output.txid;
    prev_index = txin.previous_output.vout;
    sequence = txin.sequence;
    amount = amount;
  })

abbrev pub output_script_type : InputScriptType → OutputScriptType
output_script_type spendp2shwitness = paytop2shwitness
output_script_type spendaddress = paytoaddress
output_script_type spendmultisig = paytowitness
output_script_type external = paytowitness
output_script_type spendwitness = paytowitness
output_script_type spendtaproot = paytowitness

-- `psbt.outputs.get(i).filter(|po| !po.bip32_derivation.is_empty())`, and the first path of it.
abbrev pub change_path : Option PsbtOutput → Option (List ℕ)
change_path none = none
change_path (some po) = first_path po.bip32_derivation

abbrev change_output : List ℕ → ℕ → TxOutput
change_output address_n amount = record {
  address = none;
  address_n = address_n;
  amount = amount;
  script_type = output_script_type (script_type_for_path address_n);
}

module _ (crate : BitcoinCrate) where
  abbrev pub external_address : ℕ → Decoded Text → Result Text
  external_address i (decoded address) = ok address
  external_address i (undecodable e) =
      err (thp (lit "output " ∷ num i ∷ lit " address from script: " ∷ e))

  abbrev pub output_of : TxOut → ℕ → Bool → Option (List ℕ) → Result TxOutput
  output_of txout i testnet (some address_n) = ok (change_output address_n txout.value)
  output_of txout i testnet none = do
    address ← external_address i (crate.address_from_script txout.script_pubkey testnet)
    ok (record {
      address = some address;
      address_n = [];
      amount = txout.value;
      script_type = paytoaddress;
    })

  unfoldable pub build_output_ack : Psbt → ℕ → Bool → Result TxOutput
  build_output_ack psbt i testnet = do
    txout ←
        or_reason (get_elem? psbt.unsigned_tx.output i)
          (lit "TxRequest output index " ∷ num i ∷ lit " out of range" ∷ [])
    output_of txout i testnet (change_path (get_elem? psbt.outputs i))

  abbrev pub not_carried : Result Transaction
  not_carried = err (
      thp_error
        "Trezor asked for a previous transaction the PSBT doesn't carry; re-sync the wallet (it must include full previous transactions)")

  abbrev pub prev_or : Option Transaction → Bytes → Result Transaction → Result Transaction
  prev_or none tx_hash rest = rest
  prev_or (some prev) tx_hash rest =
      if bytes_eq (reverse (crate.compute_txid prev)) tx_hash then ok prev else rest

  -- The loop over the inputs.
  unfoldable pub find_among : List PsbtInput → Bytes → Result Transaction
  find_among [] tx_hash = not_carried
  find_among (pin ∷ rest) tx_hash = prev_or pin.non_witness_utxo tx_hash (find_among rest tx_hash)

  unfoldable pub find_prev_tx : Psbt → Bytes → Result Transaction
  unfolding find_among
  find_prev_tx psbt tx_hash = find_among psbt.inputs tx_hash

  unfoldable pub build_prev_meta_ack : Psbt → Bytes → Result PrevTx
  build_prev_meta_ack psbt tx_hash = do
    prev ← find_prev_tx psbt tx_hash
    ok (record {
      version = prev.version;
      lock_time = prev.lock_time;
      inputs_count = length prev.input % 2 ^ 32;
      outputs_count = length prev.output % 2 ^ 32;
    })

  unfoldable pub build_prev_input_ack : Psbt → Bytes → ℕ → Result PrevInput
  build_prev_input_ack psbt tx_hash i = do
    prev ← find_prev_tx psbt tx_hash
    txin ←
        or_reason (get_elem? prev.input i)
          (lit "prev tx input index " ∷ num i ∷ lit " out of range" ∷ [])
    ok (record {
      prev_hash = reverse txin.previous_output.txid;
      prev_index = txin.previous_output.vout;
      script_sig = txin.script_sig;
      sequence = txin.sequence;
    })

  unfoldable pub build_prev_output_ack : Psbt → Bytes → ℕ → Result PrevOutput
  build_prev_output_ack psbt tx_hash i = do
    prev ← find_prev_tx psbt tx_hash
    txout ←
        or_reason (get_elem? prev.output i)
          (lit "prev tx output index " ∷ num i ∷ lit " out of range" ∷ [])
    ok (record { amount = txout.value; script_pubkey = txout.script_pubkey })
