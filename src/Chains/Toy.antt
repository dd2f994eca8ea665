-- ===== src/Chains/Toy.antt =====
-- Concrete functions in the place of the generated codecs of Bitcoin, Solana and Tron, for runs.
use maknoon_trezor_core_rs.Prelude.{
  ℕ, ◌==◌, if◌then◌else◌, Option, none, some, List, [], ◌∷◌, ◌++◌, Bytes, length, drop, get_or, ltb,
  replicate,
}
use maknoon_trezor_core_rs.Error.{num}
use maknoon_trezor_core_rs.Proto.{Decoded, decoded}
use maknoon_trezor_core_rs.Chains.Bitcoin.{BitcoinCodec}
use maknoon_trezor_core_rs.Chains.Bitcoin.Psbt.{
  Transaction, TxOut, EcdsaSignature, PsbtInput, Psbt, BitcoinCrate,
}
use maknoon_trezor_core_rs.Chains.Bitcoin.Requests.{TxRequest, SignTxCodec}
use maknoon_trezor_core_rs.Chains.Solana.{SolanaCodec}
use maknoon_trezor_core_rs.Chains.Tron.{TronCodec, TronRawTransaction, TronRawContract}

abbrev pub toy_solana : SolanaCodec
toy_solana = record {
  get_address = λ path. [];
  address = λ b. decoded b;
  sign_tx = λ path tx. tx;
  tx_signature = λ b. decoded b;
  sign_message = λ path m. m;
  message_signature = λ b. decoded b;
}

-- A vote, which is not supported.
abbrev pub toy_vote : TronRawContract
toy_vote = record { contract_type = 4; value = [] }

abbrev pub toy_transaction : TronRawTransaction
toy_transaction = record {
  ref_block_bytes = 0x12 ∷ 0x34 ∷ [];
  ref_block_hash = replicate 8 0xaa;
  expiration = 111;
  memo = none;
  contract = toy_vote ∷ [];
  timestamp = 222;
  fee_limit = none;
}

abbrev pub toy_tron : TronCodec
toy_tron = record {
  get_address = λ path. [];
  address = λ b. decoded b;
  raw_transaction = λ b. decoded toy_transaction;
  sign_tx = λ tx. [];
  transfer = λ b. decoded (record { owner_address = b; to_address = b; amount = 1 });
  encode_transfer = λ c. c.owner_address;
  trigger = λ b. decoded (record { owner_address = b; contract_address = b; call_data = b });
  encode_trigger = λ c. c.call_data;
  signature = λ b. decoded b;
  contract_type_text = λ n. num n ∷ [];
}

abbrev pub toy_bitcoin : BitcoinCodec
toy_bitcoin = record {
  get_public_key = λ path coin script. [];
  public_key = λ b. decoded (record { xpub = b; root_fingerprint = none });
  sign_message = λ path m coin script. m;
  message_signature = λ b. decoded (record { address = b; signature = b });
}

-- A PSBT with one input, which carries its previous transaction, an external output and a change
-- output.
abbrev pub toy_prev : Transaction
toy_prev = record {
  version = 2;
  lock_time = 0;
  input = [];
  output = record { value = 100; script_pubkey = 7 ∷ [] } ∷ [];
}

abbrev pub toy_external : TxOut
toy_external = record { value = 60; script_pubkey = 0x61 ∷ [] }

abbrev pub toy_psbt : Psbt
toy_psbt = record {
  unsigned_tx = record {
    version = 2;
    lock_time = 0;
    input =
        record {
          previous_output = record { txid = 8 ∷ 9 ∷ []; vout = 0 };
          script_sig = [];
          sequence = 0xfffffffd;
        }
        ∷ [];
    output = toy_external ∷ record { value = 30; script_pubkey = 5 ∷ [] } ∷ [];
  };
  inputs =
      record {
        non_witness_utxo = some toy_prev;
        witness_utxo = none;
        partial_sigs = [];
        bip32_derivation = ((2 ∷ 4 ∷ []), ((1 ∷ []), (0x80000054 ∷ 4 ∷ []))) ∷ [];
        other = [];
      }
      ∷ [];
  outputs =
      record { bip32_derivation = []; other = [] }
      ∷ record {
        bip32_derivation = ((2 ∷ 5 ∷ []), ((1 ∷ []), (0x80000054 ∷ 5 ∷ []))) ∷ [];
        other = [];
      }
      ∷ [];
  other = [];
}

abbrev all_keys : List (Bytes × EcdsaSignature) → Bytes
all_keys [] = []
all_keys ((key, sig) ∷ rest) = key ++ (sig.signature ++ (sig.sighash_type ∷ all_keys rest))

abbrev all_signatures : List PsbtInput → Bytes
all_signatures [] = []
all_signatures (pin ∷ rest) = all_keys pin.partial_sigs ++ all_signatures rest

-- A PSBT is printed as its partial signatures, and a script is its address.
abbrev pub toy_crate : BitcoinCrate
toy_crate = record {
  parse_psbt = λ b. decoded toy_psbt;
  print_psbt = λ psbt. all_signatures psbt.inputs;
  compute_txid = λ tx. 8 ∷ 9 ∷ [];
  address_from_script = λ script testnet. decoded script;
  signature_from_der = λ der. decoded der;
  pubkey_lt = λ a b. ltb (length a) (length b);
}

abbrev text_or_none : List ℕ → Option (List ℕ)
text_or_none [] = none
text_or_none (b ∷ bs) = some (b ∷ bs)

abbrev signature_in : ℕ → List ℕ → Option (List ℕ)
signature_in n bs = if n == 3 then text_or_none bs else none

abbrev hash_of : ℕ → List ℕ → Option (List ℕ)
hash_of n bs = if n == 3 then none else text_or_none bs

-- A request is its type, its index, and a hash or, at the end, a signature.
abbrev pub toy_tx_request : Bytes → Decoded TxRequest
toy_tx_request b = decoded (record {
  request_type = some (get_or b 0 0);
  details =
      some (record {
        request_index = some (get_or b 1 0);
        tx_hash = hash_of (get_or b 0 0) (drop 2 b);
      });
  serialized =
      some
        (record { signature_index = some 0; signature = signature_in (get_or b 0 0) (drop 2 b) });
})

abbrev pub toy_sign_tx : SignTxCodec
toy_sign_tx = record {
  sign_tx = λ outputs inputs coin version lock_time. outputs ∷ inputs ∷ [];
  tx_request = toy_tx_request;
  ack_input = λ ack. ack.amount ∷ [];
  ack_output = λ ack. ack.amount ∷ [];
  ack_prev_meta = λ ack. ack.outputs_count ∷ [];
  ack_prev_input = λ ack. ack.prev_index ∷ [];
  ack_prev_output = λ ack. ack.amount ∷ [];
  show_item = λ n. [];
}
