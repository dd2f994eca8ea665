-- ===== src/Chains/Bitcoin/Acks.antt =====
-- What the device is told of the transaction and of the previous ones, trezor-core/src/chains/bitcoin.rs.
use maknoon_trezor_core_rs.Prelude.{
  ℕ, ◌≡◌, ◌≢◌, ◌⊎◌, inl, inr, refl, sym, ap, ◌∙◌, Bool, true, false, Bool-cases, Option, none, some,
  List, [], ◌∷◌, Bytes, bytes_eq, bytes_eq→eq, bytes_eq_refl, reverse, get_elem?,
}
use maknoon_trezor_core_rs.Error.{lit, num, Result, ok, >>=-eq-ok}
use maknoon_trezor_core_rs.Proto.{Decoded, decoded, undecodable}
use mathlib.Core.Option.{some-injective}
use maknoon_trezor_core_rs.Bip32.{Text}
use maknoon_trezor_core_rs.Chains.Bitcoin.{script_type_for_path}
use maknoon_trezor_core_rs.Chains.Bitcoin.Psbt.{
  Transaction, TxOut, PsbtInput, Psbt, BitcoinCrate, TxOutput, paytoaddress,
}
use maknoon_trezor_core_rs.Chains.Bitcoin.Build.{
  or_reason, change_path, output_script_type, build_output_ack, external_address, output_of,
  not_carried, prev_or, find_among, find_prev_tx,
}
use maknoon_trezor_core_rs.Chains.Bitcoin.Merging.{or_reason-eq-ok}

-- A transaction that an input carries in full.
abbrev pub Carries : List PsbtInput → Transaction → Type 0
Carries [] tx = ⊥
Carries (pin ∷ rest) tx = (pin.non_witness_utxo ≡ some tx) ⊎ Carries rest tx

bytes_eq-ne : (a b : Bytes) → bytes_eq a b ≡ false → a ≢ b
bytes_eq-ne a b f e =
    let same : bytes_eq a a ≡ bytes_eq a b = ap (bytes_eq a) e in
    let reflexive : bytes_eq a a ≡ true = bytes_eq_refl a in cc

module _ (crate : BitcoinCrate) where
  -- The outcome of a search for an id: a transaction of the inputs with it, or none has it.
  abbrev pub Searched : List PsbtInput → Bytes → Result Transaction → Type 0
  Searched pins tx_hash r =
      ((tx : Transaction) × (r ≡ ok tx)
        × Carries pins tx
        × (reverse (crate.compute_txid tx) ≡ tx_hash))
      ⊎ ((r ≡ not_carried crate)
          × ((tx : Transaction) → Carries pins tx → reverse (crate.compute_txid tx) ≢ tx_hash))

  find_among-Searched :
      (pins : List PsbtInput) (tx_hash : Bytes)
      → Searched pins tx_hash (find_among crate pins tx_hash)
  unfolding find_among
  find_among-Searched [] tx_hash = inr (refl, λ tx h. absurd h)
  find_among-Searched (pin ∷ rest) tx_hash =
      step pin.non_witness_utxo refl (find_among crate rest tx_hash)
        (find_among-Searched rest tx_hash)
    where
      behind :
          (o : Option Transaction) (r : Result Transaction)
          → pin.non_witness_utxo ≡ o
          → ((tx : Transaction) → o ≡ some tx → reverse (crate.compute_txid tx) ≢ tx_hash)
          → Searched rest tx_hash r
          → Searched (pin ∷ rest) tx_hash r
      behind o r e ne (inl (tx, found, c, id)) = inl (tx, found, inr c, id)
      behind o r e ne (inr (missing, none_has)) =
          inr (missing, λ tx c. elim c [ inl h ↦ ne tx (sym e ∙ h) | inr m ↦ none_has tx m ])

      step :
          (o : Option Transaction)
          → pin.non_witness_utxo ≡ o
          → (r : Result Transaction) → Searched rest tx_hash r
          → Searched (pin ∷ rest) tx_hash (prev_or crate o tx_hash r)
      step none e r h = behind none r e (λ tx f. cc) h
      step (some prev) e r h =
          elim (Bool-cases (bytes_eq (reverse (crate.compute_txid prev)) tx_hash)) [
            | inl t ↦
                rw t (
                  inl
                    (prev, refl, inl e, bytes_eq→eq (reverse (crate.compute_txid prev)) tx_hash t))
            | inr f ↦ rw f (
                behind (some prev) r e
                  (λ tx g id.
                    bytes_eq-ne (reverse (crate.compute_txid prev)) tx_hash f
                      (ap (λ t. reverse (crate.compute_txid t)) (some-injective prev tx g) ∙ id))
                  h)
          ]

  -- The previous transaction that the device asks for is looked up by the id that the device shows:
  -- the answer is one that an input of the PSBT carries and that has this id, and there is an error
  -- only if no input carries one with it.
  pub find_prev_tx-Searched :
      (psbt : Psbt) (tx_hash : Bytes)
      → Searched psbt.inputs tx_hash (find_prev_tx crate psbt tx_hash)
  unfolding find_prev_tx
  find_prev_tx-Searched psbt tx_hash = find_among-Searched psbt.inputs tx_hash

  -- How the device is told of an output: as change, by the path of a key that the PSBT names for it, or
  -- by the address of its script.
  abbrev pub Destination : Psbt → ℕ → Bool → TxOut → TxOutput → Type 0
  Destination psbt i testnet txout out =
      ((change_path (get_elem? psbt.outputs i) ≡ some out.address_n)
        × (out.address ≡ none)
        × (out.script_type ≡ output_script_type (script_type_for_path out.address_n)))
      ⊎ ((address : Text) × (change_path (get_elem? psbt.outputs i) ≡ none)
          × (crate.address_from_script txout.script_pubkey testnet ≡ decoded address)
          × (out.address ≡ some address)
          × (out.address_n ≡ [])
          × (out.script_type ≡ paytoaddress))

  output_of-Destination :
      (psbt : Psbt) (i : ℕ) (testnet : Bool) (txout : TxOut) (out : TxOutput)
      → output_of crate txout i testnet (change_path (get_elem? psbt.outputs i)) ≡ ok out
      → (out.amount ≡ txout.value) × Destination psbt i testnet txout out
  output_of-Destination psbt i testnet txout out h =
      split (change_path (get_elem? psbt.outputs i)) refl h
    where
      address_of : (d : Decoded Text) (a : Text) → external_address crate i d ≡ ok a → d ≡ decoded a
      address_of (decoded b) a e = cc
      address_of (undecodable x) a e = cc

      split :
          (o : Option (List ℕ))
          → change_path (get_elem? psbt.outputs i) ≡ o
          → output_of crate txout i testnet o ≡ ok out
          → (out.amount ≡ txout.value) × Destination psbt i testnet txout out
      split none e f =
          let (address, found, same) =
            >>=-eq-ok
              (external_address crate i (crate.address_from_script txout.script_pubkey testnet)) _
              f in
          (cc, inr (address, e, address_of _ address found, cc, cc, cc))
      split (some path) e f = (cc, inl (e ∙ cc, cc, cc))

  -- Whenever an output is acknowledged, it is the transaction's output of the index that was asked for,
  -- with its amount; it is sent as change exactly when the PSBT names a key for it, by that key's
  -- path, and otherwise by the address of its script on the network that is signed for.
  pub build_output_ack-Destination :
      (psbt : Psbt) (i : ℕ) (testnet : Bool) (out : TxOutput)
      → build_output_ack crate psbt i testnet ≡ ok out
      → (txout : TxOut) × (get_elem? psbt.unsigned_tx.output i ≡ some txout)
        × (out.amount ≡ txout.value)
        × Destination psbt i testnet txout out
  unfolding build_output_ack
  build_output_ack-Destination psbt i testnet out h =
      let (txout, found, more) =
        >>=-eq-ok
          (or_reason (get_elem? psbt.unsigned_tx.output i)
            (lit "TxRequest output index " ∷ num i ∷ lit " out of range" ∷ []))
          _ h in
      let (amount, destination) = output_of-Destination psbt i testnet txout out more in
      (txout, or_reason-eq-ok _ _ found, amount, destination)
