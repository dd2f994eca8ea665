-- ===== src/Chains/Ethereum/Rlp.antt =====
-- The RLP decoder of trezor-core/src/chains/ethereum.rs. A `usize` has 64 bits; the position that
-- `&mut usize` passes back is part of the result.
use maknoon_trezor_core_rs.Prelude.{
  ℕ, zero, suc, ◌+◌, ◌-◌, ◌*◌, ◌%◌, ◌^◌, Bool, true, false, Option, none, some, String, List, [],
  ◌∷◌, Bytes, slice, length, get_elem?, bit_or, ltb, leb, if◌then◌else◌,
}
use maknoon_trezor_core_rs.Error.{Result, ok, err, thp_error, ◌>>=◌, ◌>>◌, guard}

-- `(v << 8) | x` on 64 bits.
abbrev pub shift_in : ℕ → ℕ → ℕ
shift_in v x = bit_or (v * 256 % 2 ^ 64) x

-- The loop of `rlp_read_len` and of `be_to_u64`.
abbrev pub read_be : ℕ → Bytes → ℕ
read_be v [] = v
read_be v (x ∷ xs) = read_be (shift_in v x) xs

abbrev pub checked_add : String → ℕ → ℕ → Result ℕ
checked_add what a b = if ltb (a + b) (2 ^ 64) then ok (a + b) else err (thp_error what)

unfoldable pub rlp_read_len : Bytes → ℕ → ℕ → Result (ℕ × ℕ)
rlp_read_len buf pos n = do
  stop ← checked_add "RLP length-prefix overflow" pos n
  guard (leb stop (length buf)) (thp_error "RLP length-prefix exceeds buffer")
  ok (read_be 0 (slice pos stop buf), stop)

-- Whether the item is a list, its length and the position behind the header that starts with `b`.
unfoldable pub rlp_header : Bytes → ℕ → ℕ → Result (Bool × ℕ × ℕ)
unfolding rlp_read_len
rlp_header buf pos b =
    if leb b 0xb7
    then ok (false, b - 0x80, pos)
    else if leb b 0xbf
    then rlp_read_len buf pos (b - 0xb7) >>= (λ l. ok (false, l.0, l.1))
    else if leb b 0xf7
    then ok (true, b - 0xc0, pos)
    else (rlp_read_len buf pos (b - 0xf7) >>= (λ l. ok (true, l.0, l.1)))

-- The payload of `len` bytes at `pos`.
unfoldable pub rlp_payload : Bytes → Bool → ℕ → ℕ → Result (Bool × Bytes × ℕ)
rlp_payload buf is_list len pos = do
  stop ← checked_add "RLP length overflow" pos len
  guard (leb stop (length buf)) (thp_error "RLP item length exceeds buffer")
  ok (is_list, slice pos stop buf, stop)

abbrev pub rlp_item : Bytes → ℕ → Option ℕ → Result (Bool × Bytes × ℕ)
rlp_item buf pos none = err (thp_error "RLP truncated")
rlp_item buf pos (some b) =
    if leb b 0x7f
    then ok (false, b ∷ [], pos + 1)
    else (rlp_header buf (pos + 1) b >>= (λ h. rlp_payload buf h.0 h.1 h.2))

unfoldable pub rlp_read : Bytes → ℕ → Result (Bool × Bytes × ℕ)
unfolding rlp_header rlp_payload
rlp_read buf pos = rlp_item buf pos (get_elem? buf pos)

-- `while ipos < payload.len()`, on fuel: an item takes a byte at least.
unfoldable pub rlp_items : ℕ → Bytes → ℕ → Result (List Bytes)
unfolding rlp_read
rlp_items zero payload ipos = ok []
rlp_items (suc fuel) payload ipos =
    let read = (do
      (_, item, next) ← rlp_read payload ipos
      items ← rlp_items fuel payload next
      ok (item ∷ items)) in
    if ltb ipos (length payload) then read else ok []

unfoldable pub rlp_decode_list : Bytes → Result (List Bytes)
unfolding rlp_items
rlp_decode_list buf = do
  (is_list, payload, _) ← rlp_read buf 0
  guard is_list (thp_error "EIP-1559 envelope body is not an RLP list")
  rlp_items (length payload) payload 0
