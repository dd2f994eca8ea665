-- ===== src/Chains/Ethereum/Encoder.antt =====
-- The RLP encoder of the tests of trezor-core/src/chains/ethereum.rs, an independent
-- implementation after the host's.
use maknoon_trezor_core_rs.Prelude.{
  ℕ, zero, suc, ◌+◌, ◌/◌, ◌%◌, List, [], ◌∷◌, ◌++◌, reverse, Bytes, concat, length, ltb,
  if◌then◌else◌,
}

-- `while n > 0`, on fuel: a `usize` has 8 bytes.
unfoldable pub le_bytes : ℕ → ℕ → Bytes
le_bytes zero n = []
le_bytes (suc fuel) n =
    let rest = le_bytes fuel (n / 256) in if ltb 0 n then (n % 256) ∷ rest else []

unfoldable pub minimal_be : ℕ → Bytes
unfolding le_bytes
minimal_be n = reverse (le_bytes 8 n)

-- The header of a string or of a list, by the bases of its short and of its long form.
unfoldable pub rlp_prefix : ℕ → ℕ → ℕ → Bytes
unfolding minimal_be
rlp_prefix short long len =
    let lb = minimal_be len in if ltb len 56 then (short + len) ∷ [] else (long + length lb) ∷ lb

abbrev pub rlp_str_prefix : ℕ → Bytes
rlp_str_prefix len = rlp_prefix 0x80 0xb7 len

unfoldable pub rlp_bytes : Bytes → Bytes
unfolding rlp_prefix
rlp_bytes [] = rlp_str_prefix 0
rlp_bytes (b ∷ []) = if ltb b 0x80 then b ∷ [] else rlp_str_prefix 1 ++ (b ∷ [])
rlp_bytes (b ∷ c ∷ bs) = rlp_str_prefix (length (b ∷ c ∷ bs)) ++ (b ∷ c ∷ bs)

unfoldable pub rlp_list : List Bytes → Bytes
unfolding rlp_prefix
rlp_list items = let inner = concat items in rlp_prefix 0xc0 0xf7 (length inner) ++ inner
