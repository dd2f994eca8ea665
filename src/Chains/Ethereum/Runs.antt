-- ===== src/Chains/Ethereum/Runs.antt =====
-- Runs of the RLP decoder, and its theorems at concrete inputs.
use maknoon_trezor_core_rs.Prelude.{◌≡◌, refl, List, [], ◌∷◌, map, replicate, arith}
use maknoon_trezor_core_rs.Error.{ok, err, thp_error}
use maknoon_trezor_core_rs.Chains.Ethereum.Rlp.{rlp_decode_list}
use maknoon_trezor_core_rs.Chains.Ethereum.Encoder.{rlp_bytes, rlp_list}
use maknoon_trezor_core_rs.Chains.Ethereum.RoundTrip.{
  Item, str, lst, encode, stripped, rlp_decode_list-rlp_list,
}
use maknoon_trezor_core_rs.Chains.Ethereum.Envelope.{
  Eip1559Tx, decode_eip1559_envelope, encode_envelope, decode_eip1559_envelope-encode_envelope,
}

abbrev items : List Item
items = str (5 ∷ []) ∷ str [] ∷ str (replicate 60 0xa9) ∷ lst [] ∷ []

rlp_decode_list-rlp_list_example :
    rlp_decode_list (rlp_list (map encode items)) ≡ ok (map stripped items)
unfolding rlp_list rlp_bytes
rlp_decode_list-rlp_list_example = rlp_decode_list-rlp_list items (omega arith)

-- The transaction of the test `decodes_native_eip1559_envelope`.
abbrev native_tx : Eip1559Tx
native_tx = record {
  chain_id = 11155111;
  nonce = 5 ∷ [];
  max_priority_fee = 0x3b ∷ 0x9a ∷ 0xca ∷ 0 ∷ [];
  max_fee = 6 ∷ 0xfc ∷ 0x23 ∷ 0xac ∷ 0 ∷ [];
  gas_limit = 0x52 ∷ 8 ∷ [];
  to = replicate 20 0x11;
  value = 1 ∷ [];
  call_data = [];
}

decode_eip1559_envelope-encode_envelope_example :
    decode_eip1559_envelope (encode_envelope native_tx []) ≡ ok native_tx
unfolding encode_envelope rlp_list rlp_bytes
decode_eip1559_envelope-encode_envelope_example =
    decode_eip1559_envelope-encode_envelope native_tx [] (omega arith) (omega arith)

-- A payload longer than the buffer.
too_long : rlp_decode_list (0xc2 ∷ 1 ∷ []) ≡ err (thp_error "RLP item length exceeds buffer")
unfolding rlp_decode_list
too_long = refl
