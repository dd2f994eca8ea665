-- ===== src/Chains/Ethereum/Envelope.antt =====
-- The EIP-1559 envelope of trezor-core/src/chains/ethereum.rs.
use maknoon_trezor_core_rs.Prelude.{
  ℕ, ◌^◌, ◌<◌, ◌≡◌, ap, ◌∙◌, List, [], ◌∷◌, map, Bytes, get_or, length, ltb, ◌==◌, if◌then◌else◌,
  arith,
}
use maknoon_trezor_core_rs.Error.{thp, lit, num, Result, ok, err, thp_error, ◌>>=◌, ◌>>◌, guard}
use maknoon_trezor_core_rs.Chains.Ethereum.Rlp.{read_be, rlp_decode_list}
use maknoon_trezor_core_rs.Chains.Ethereum.Encoder.{minimal_be, rlp_list}
use maknoon_trezor_core_rs.Chains.Ethereum.BigEndian.{read_be-minimal_be}
use maknoon_trezor_core_rs.Chains.Ethereum.RoundTrip.{
  Item, str, lst, encode, rlp_decode_list-rlp_list,
}

pub record Eip1559Tx : Type 0 where
  pub chain_id : ℕ
  pub nonce : Bytes
  pub max_priority_fee : Bytes
  pub max_fee : Bytes
  pub gas_limit : Bytes
  pub to : Bytes
  pub value : Bytes
  pub call_data : Bytes

unfoldable pub be_to_u64 : Bytes → ℕ
be_to_u64 bytes = read_be 0 bytes

-- `items[i].clone()`, at an index below the number of items.
abbrev item_at : List Bytes → ℕ → Bytes
item_at items i = get_or items i []

unfoldable pub tx_of_items : List Bytes → Result Eip1559Tx
unfolding be_to_u64
tx_of_items items =
    if ltb (length items) 8
    then err (
        thp (
          lit "EIP-1559 payload has "
          ∷ num (length items)
          ∷ lit " items, expected at least 8"
          ∷ []))
    else ok (record {
      chain_id = be_to_u64 (item_at items 0);
      nonce = item_at items 1;
      max_priority_fee = item_at items 2;
      max_fee = item_at items 3;
      gas_limit = item_at items 4;
      to = item_at items 5;
      value = item_at items 6;
      call_data = item_at items 7;
    })

unfoldable pub decode_eip1559_envelope : Bytes → Result Eip1559Tx
unfolding tx_of_items
decode_eip1559_envelope [] = err (thp_error "not an EIP-1559 (0x02-typed) envelope")
decode_eip1559_envelope (kind ∷ body) = do
  guard (kind == 0x02) (thp_error "not an EIP-1559 (0x02-typed) envelope")
  items ← rlp_decode_list body
  tx_of_items items

-- The envelope as the tests build it, with an access list that is encoded already.
unfoldable pub encode_envelope : Eip1559Tx → List Bytes → Bytes
encode_envelope tx access_list =
    0x02
    ∷ rlp_list (
        map encode (
          str (minimal_be tx.chain_id)
          ∷ str tx.nonce
          ∷ str tx.max_priority_fee
          ∷ str tx.max_fee
          ∷ str tx.gas_limit
          ∷ str tx.to
          ∷ str tx.value
          ∷ str tx.call_data
          ∷ lst access_list
          ∷ []))

-- A transaction whose chain id has 64 bits is read back from its envelope, field by field and
-- whatever the access list, when the envelope is shorter than 2^64 bytes.
pub decode_eip1559_envelope-encode_envelope :
    (tx : Eip1559Tx) (access_list : List Bytes)
    → tx.chain_id < 2 ^ 64
    → length (encode_envelope tx access_list) < 2 ^ 64
    → decode_eip1559_envelope (encode_envelope tx access_list) ≡ ok tx
unfolding decode_eip1559_envelope encode_envelope
decode_eip1559_envelope-encode_envelope tx access_list h k =
    let items : List Item =
      str (minimal_be tx.chain_id)
      ∷ str tx.nonce
      ∷ str tx.max_priority_fee
      ∷ str tx.max_fee
      ∷ str tx.gas_limit
      ∷ str tx.to
      ∷ str tx.value
      ∷ str tx.call_data
      ∷ lst access_list
      ∷ [] in
    ap (λ r. r >>= tx_of_items) (rlp_decode_list-rlp_list items (omega arith))
    ∙ ap (λ n. ok (record tx { chain_id = n })) (read_be-minimal_be tx.chain_id h)
