-- ===== src/Chains/Ethereum/RoundTrip.antt =====
-- What the encoder writes, the decoder reads.
use maknoon_trezor_core_rs.Prelude.{
  ℕ, zero, suc, ◌+◌, ◌^◌, ◌<◌, ◌≤◌, ◌≡◌, refl, sym, ap, ◌∙◌, Bool, Bool-cases, inl, inr, true,
  false, List, [], ◌∷◌, ◌++◌, append-nil, append_assoc, map, Bytes, concat, length, length-append,
  get_elem?, ltb, lt→ltb, le→ltb, le→leb, if◌then◌else◌, arith,
}
use maknoon_trezor_core_rs.Error.{ok}
use maknoon_trezor_core_rs.Chains.Ethereum.Rlp.{rlp_item, rlp_read, rlp_items, rlp_decode_list}
use maknoon_trezor_core_rs.Chains.Ethereum.Encoder.{rlp_prefix, rlp_str_prefix, rlp_bytes, rlp_list}
use maknoon_trezor_core_rs.Chains.Ethereum.BigEndian.{get_elem?-append}
use maknoon_trezor_core_rs.Chains.Ethereum.Headers.{rlp_read-prefix, short, long}

-- An item of a list: a byte string, or a list of items that are encoded.
pub data Item : Type 0 where
  str : Bytes → Item
  lst : List Bytes → Item

abbrev pub encode : Item → Bytes
encode (str d) = rlp_bytes d
encode (lst items) = rlp_list items

-- The item's header-stripped bytes.
abbrev pub stripped : Item → Bytes
stripped (str d) = d
stripped (lst items) = concat items

-- An item that is read behind `pre`.
abbrev ReadsBack : Bytes → Bytes → ℕ → Bytes → Bytes → Type 0
ReadsBack pre post pos e p =
    (1 ≤ length e)
    × (is_list : Bool) × (rlp_read (pre ++ (e ++ post)) pos ≡ ok (is_list, p, pos + length e))

length-rlp_prefix : (s l len : ℕ) → 1 ≤ length (rlp_prefix s l len)
unfolding rlp_prefix
length-rlp_prefix s l len = elim (Bool-cases (ltb len 56)) [
  | inl e ↦ rw e (omega arith)
  | inr e ↦ rw e (omega arith)
]

read_framed_item :
    (pre p post : Bytes) (is_list : Bool) (pos : ℕ)
    → pos ≡ length pre
    → length (pre ++ ((rlp_prefix (short is_list) (long is_list) (length p) ++ p) ++ post)) < 2 ^ 64
    → ReadsBack pre post pos (rlp_prefix (short is_list) (long is_list) (length p) ++ p) p
read_framed_item pre p post is_list pos hp hl =
    let hdr : Bytes = rlp_prefix (short is_list) (long is_list) (length p) in
    let e : pre ++ ((hdr ++ p) ++ post) ≡ pre ++ (hdr ++ (p ++ post)) =
      ap (λ t. pre ++ t) (append_assoc hdr p post) in
    let l : length (hdr ++ p) ≡ length hdr + length p = length-append hdr p in
    (
      omega (arith, length-rlp_prefix (short is_list) (long is_list) (length p)),
      is_list,
      ap (λ t. rlp_read t pos) e
          ∙ rlp_read-prefix pre p post is_list pos hdr refl hp (omega (arith, ap length e))
          ∙ ap (λ t. ok (is_list, p, t)) (omega arith),
    )

read_single :
    (pre post : Bytes) (b pos : ℕ)
    → pos ≡ length pre
    → b < 0x80
    → ReadsBack pre post pos (b ∷ []) (b ∷ [])
unfolding rlp_read
read_single pre post b pos hp h = (
  omega arith,
  false,
  ap (λ t. rlp_item (pre ++ (b ∷ post)) pos (get_elem? (pre ++ (b ∷ post)) t)) hp
      ∙ ap (rlp_item (pre ++ (b ∷ post)) pos) (get_elem?-append pre b post)
      ∙ rw (le→leb b 0x7f (omega arith)) refl,
)

rlp_read-encode :
    (pre post : Bytes) (item : Item) (pos : ℕ)
    → pos ≡ length pre
    → length (pre ++ (encode item ++ post)) < 2 ^ 64
    → ReadsBack pre post pos (encode item) (stripped item)
unfolding rlp_bytes rlp_list
rlp_read-encode pre post (str []) pos hp hl = read_framed_item pre [] post false pos hp hl
rlp_read-encode pre post (str (b ∷ [])) pos hp hl = go (ltb b 0x80) refl hl
  where
    go :
        (t : Bool)
        → ltb b 0x80 ≡ t
        → length (pre ++ ((if t then b ∷ [] else rlp_str_prefix 1 ++ (b ∷ [])) ++ post)) < 2 ^ 64
        → ReadsBack pre post pos (if t then b ∷ [] else rlp_str_prefix 1 ++ (b ∷ [])) (b ∷ [])
    go true e l = read_single pre post b pos hp (ground arith)
    go false e l = read_framed_item pre (b ∷ []) post false pos hp l
rlp_read-encode pre post (str (b ∷ c ∷ bs)) pos hp hl =
    read_framed_item pre (b ∷ c ∷ bs) post false pos hp hl
rlp_read-encode pre post (lst items) pos hp hl =
    read_framed_item pre (concat items) post true pos hp hl

rlp_items-encode :
    (fuel : ℕ) (pre : Bytes) (items : List Item) (pos : ℕ)
    → pos ≡ length pre
    → length (concat (map encode items)) ≤ fuel
    → length (pre ++ concat (map encode items)) < 2 ^ 64
    → rlp_items fuel (pre ++ concat (map encode items)) pos ≡ ok (map stripped items)
unfolding rlp_items
rlp_items-encode zero pre [] pos hp hf hl = refl
rlp_items-encode (suc fuel) pre [] pos hp hf hl =
    rw (le→ltb pos (length (pre ++ [])) (omega (arith, length-append pre []))) refl
rlp_items-encode zero pre (item ∷ items) pos hp hf hl =
    let rest : Bytes = concat (map encode items) in
    absurd
      (omega (arith, length-append (encode item) rest, (rlp_read-encode pre rest item pos hp hl).0))
rlp_items-encode (suc fuel) pre (item ∷ items) pos hp hf hl =
    let rest : Bytes = concat (map encode items) in
    let read = rlp_read-encode pre rest item pos hp hl in
    let whole : Bytes = pre ++ (encode item ++ rest) in
    let e : (pre ++ encode item) ++ rest ≡ whole = append_assoc pre (encode item) rest in
    let l : length whole ≡ length pre + (length (encode item) + length rest) =
      length-append pre (encode item ++ rest)
      ∙ ap (λ t. length pre + t) (length-append (encode item) rest) in
    let next : rlp_items fuel whole (pos + length (encode item)) ≡ ok (map stripped items) =
      ap (λ t. rlp_items fuel t (pos + length (encode item))) (sym e)
      ∙ rlp_items-encode fuel (pre ++ encode item) items (pos + length (encode item))
          (omega (arith, length-append pre (encode item), hp))
          (omega (arith, length-append (encode item) rest, read.0)) (omega (arith, ap length e)) in
    rw (lt→ltb pos (length whole) (omega (arith, read.0, hp))) (rw read.2 (rw next refl))

-- Every list of byte strings and encoded lists, as the independent encoder of the tests writes it,
-- is split by the decoder into the items' payloads, in order, when its encoding is shorter than
-- 2^64 bytes.
pub rlp_decode_list-rlp_list :
    (items : List Item)
    → length (rlp_list (map encode items)) < 2 ^ 64
    → rlp_decode_list (rlp_list (map encode items)) ≡ ok (map stripped items)
unfolding rlp_decode_list rlp_list
rlp_decode_list-rlp_list items h =
    let inner : Bytes = concat (map encode items) in
    let hdr : Bytes = rlp_prefix (short true) (long true) (length inner) in
    let e : hdr ++ inner ≡ hdr ++ (inner ++ []) = ap (λ t. hdr ++ t) (sym (append-nil inner)) in
    let read : rlp_read (hdr ++ inner) 0 ≡ ok (true, inner, 0 + length hdr + length inner) =
      ap (λ t. rlp_read t 0) e
      ∙ rlp_read-prefix [] inner [] true 0 hdr refl refl (omega (arith, ap length e)) in
    rw read (
      rlp_items-encode (length inner) [] items 0 refl (omega arith)
        (omega (arith, length-append hdr inner)))
