-- ===== src/Chains/Ethereum/Headers.antt =====
-- An item is read behind its header, of the short or of the long form.
use maknoon_trezor_core_rs.Prelude.{
  ℕ, ◌+◌, ◌-◌, ◌^◌, ◌<◌, ◌≤◌, ◌≡◌, refl, sym, ap, ◌∙◌, Bool, Bool-cases, inl, inr, true, false, [],
  ◌∷◌, ◌++◌, append_assoc, Bytes, length, length-append, get_elem?, ltb, le→leb, lt→leb, arith,
}
use mathlib.Core.Path.{subst, subst⁻¹}
use maknoon_trezor_core_rs.Error.{ok, ◌>>=◌}
use maknoon_trezor_core_rs.Chains.Ethereum.Rlp.{
  rlp_read_len, rlp_header, rlp_payload, rlp_item, rlp_read,
}
use maknoon_trezor_core_rs.Chains.Ethereum.Encoder.{minimal_be, rlp_prefix}
use maknoon_trezor_core_rs.Chains.Ethereum.BigEndian.{
  get_elem?-append, length-minimal_be, rlp_read_len-minimal_be, rlp_payload-middle,
}

-- The base of the short form; the long form's is 55 above it.
abbrev pub short : Bool → ℕ
short false = 0x80
short true = 0xc0

abbrev pub long : Bool → ℕ
long false = 0xb7
long true = 0xf7

rlp_header-short :
    (buf : Bytes) (pos len : ℕ) (is_list : Bool)
    → len < 56
    → rlp_header buf pos (short is_list + len) ≡ ok (is_list, len, pos)
unfolding rlp_header
rlp_header-short buf pos len false h =
    let e : 0x80 + len - 0x80 ≡ len = omega arith in
    rw (le→leb (0x80 + len) 0xb7 (omega arith), e) refl
rlp_header-short buf pos len true h =
    let e : 0xc0 + len - 0xc0 ≡ len = omega arith in
    rw
      (
        lt→leb (0xc0 + len) 0xb7 (omega arith),
        lt→leb (0xc0 + len) 0xbf (omega arith),
        le→leb (0xc0 + len) 0xf7 (omega arith),
        e,
      )
      refl

rlp_header-long :
    (buf : Bytes) (pos k : ℕ) (is_list : Bool)
    → 1 ≤ k
    → k ≤ 8
    → rlp_header buf pos (long is_list + k)
      ≡ (rlp_read_len buf pos k >>= (λ l. ok (is_list, l.0, l.1)))
unfolding rlp_header
rlp_header-long buf pos k false h g =
    let e : 0xb7 + k - 0xb7 ≡ k = omega arith in
    rw (lt→leb (0xb7 + k) 0xb7 (omega arith), le→leb (0xb7 + k) 0xbf (omega arith), e) refl
rlp_header-long buf pos k true h g =
    let e : 0xf7 + k - 0xf7 ≡ k = omega arith in
    rw
      (
        lt→leb (0xf7 + k) 0xb7 (omega arith),
        lt→leb (0xf7 + k) 0xbf (omega arith),
        lt→leb (0xf7 + k) 0xf7 (omega arith),
        e,
      )
      refl

-- The item that starts with the byte `b`, whose header is read first.
rlp_read-header :
    (pre rest : Bytes) (b pos : ℕ)
    → pos ≡ length pre
    → 0x80 ≤ b
    → rlp_read (pre ++ (b ∷ rest)) pos ≡ (
        rlp_header (pre ++ (b ∷ rest)) (pos + 1) b
        >>= (λ h. rlp_payload (pre ++ (b ∷ rest)) h.0 h.1 h.2))
unfolding rlp_read
rlp_read-header pre rest b pos hp h =
    ap (λ t. rlp_item (pre ++ (b ∷ rest)) pos (get_elem? (pre ++ (b ∷ rest)) t)) hp
    ∙ ap (rlp_item (pre ++ (b ∷ rest)) pos) (get_elem?-append pre b rest)
    ∙ rw (lt→leb b 0x7f h) refl

-- The payload behind a header of any length.
behind :
    (pre hdr p post : Bytes) (is_list : Bool) (pos : ℕ)
    → pos ≡ length pre + length hdr
    → length (pre ++ (hdr ++ (p ++ post))) < 2 ^ 64
    → rlp_payload (pre ++ (hdr ++ (p ++ post))) is_list (length p) pos
      ≡ ok (is_list, p, pos + length p)
behind pre hdr p post is_list pos hp hl =
    let e : (pre ++ hdr) ++ (p ++ post) ≡ pre ++ (hdr ++ (p ++ post)) =
      append_assoc pre hdr (p ++ post) in
    ap (λ t. rlp_payload t is_list (length p) pos) (sym e)
    ∙ rlp_payload-middle (pre ++ hdr) p post is_list pos (hp ∙ sym (length-append pre hdr))
        (omega (arith, ap length e))

-- What reading an item with this header gives.
abbrev pub Reads : Bytes → Bytes → Bytes → Bool → ℕ → Bytes → Type 0
Reads pre p post is_list pos hdr =
    rlp_read (pre ++ (hdr ++ (p ++ post))) pos ≡ ok (is_list, p, pos + length hdr + length p)

rlp_read-short :
    (pre p post : Bytes) (is_list : Bool) (pos : ℕ)
    → pos ≡ length pre
    → length p < 56
    → length (pre ++ (((short is_list + length p) ∷ []) ++ (p ++ post))) < 2 ^ 64
    → Reads pre p post is_list pos ((short is_list + length p) ∷ [])
rlp_read-short pre p post is_list pos hp hs hl =
    let b : ℕ = short is_list + length p in
    rlp_read-header pre (p ++ post) b pos hp (low is_list)
    ∙ ap (λ t. t >>= λ h. rlp_payload (pre ++ (b ∷ (p ++ post))) h.0 h.1 h.2)
        (rlp_header-short (pre ++ (b ∷ (p ++ post))) (pos + 1) (length p) is_list hs)
    ∙ behind pre (b ∷ []) p post is_list (pos + 1) (ap (λ t. t + 1) hp) hl
  where
    low : (c : Bool) → 0x80 ≤ short c + length p
    low true = omega arith
    low false = omega arith

rlp_read-long :
    (pre p post : Bytes) (is_list : Bool) (pos : ℕ)
    → pos ≡ length pre
    → 0 < length p
    → length p < 2 ^ 64
    → length (
        pre
        ++ (((long is_list + length (minimal_be (length p))) ∷ minimal_be (length p))
            ++ (p ++ post)))
      < 2 ^ 64
    → Reads pre p post is_list pos
        ((long is_list + length (minimal_be (length p))) ∷ minimal_be (length p))
rlp_read-long pre p post is_list pos hp hs hn hl =
    let lb : Bytes = minimal_be (length p) in
    let b : ℕ = long is_list + length lb in
    let buf : Bytes = pre ++ (b ∷ (lb ++ (p ++ post))) in
    let (some_bytes, few_bytes) = length-minimal_be (length p) hs in
    let e : (pre ++ (b ∷ [])) ++ (lb ++ (p ++ post)) ≡ buf =
      append_assoc pre (b ∷ []) (lb ++ (p ++ post)) in
    let len_read : rlp_read_len buf (pos + 1) (length lb) ≡ ok (length p, pos + 1 + length lb) =
      ap (λ t. rlp_read_len t (pos + 1) (length lb)) (sym e)
      ∙ rlp_read_len-minimal_be (pre ++ (b ∷ [])) (p ++ post) (length p) (pos + 1)
          (omega (arith, hp, length-append pre (b ∷ []))) hn (omega (arith, ap length e)) in
    rlp_read-header pre (lb ++ (p ++ post)) b pos hp (low is_list)
    ∙ ap (λ t. t >>= λ h. rlp_payload buf h.0 h.1 h.2)
        (rlp_header-long buf (pos + 1) (length lb) is_list some_bytes few_bytes
          ∙ ap (λ t. t >>= λ l. ok (is_list, l.0, l.1)) len_read)
    ∙ behind pre (b ∷ lb) p post is_list (pos + 1 + length lb) (omega (arith, hp)) hl
    ∙ ap (λ t. ok (is_list, p, t + length p)) (omega arith)
  where
    low : (c : Bool) → 0x80 ≤ long c + length (minimal_be (length p))
    low true = omega arith
    low false = omega arith

pub rlp_read-prefix :
    (pre p post : Bytes) (is_list : Bool) (pos : ℕ) (hdr : Bytes)
    → rlp_prefix (short is_list) (long is_list) (length p) ≡ hdr
    → pos ≡ length pre
    → length (pre ++ (hdr ++ (p ++ post))) < 2 ^ 64
    → Reads pre p post is_list pos hdr
unfolding rlp_prefix
rlp_read-prefix pre p post is_list pos hdr eh hp hl = elim (Bool-cases (ltb (length p) 56)) [
  | inl e ↦
      let same : hdr ≡ (short is_list + length p) ∷ [] = sym eh ∙ rw e refl in
      subst⁻¹ (Reads pre p post is_list pos) same (
        rlp_read-short pre p post is_list pos hp (ground arith)
          (subst (λ t. length (pre ++ (t ++ (p ++ post))) < 2 ^ 64) same hl))
  | inr e ↦
      let lb : Bytes = minimal_be (length p) in
      let same : hdr ≡ (long is_list + length lb) ∷ lb = sym eh ∙ rw e refl in
      subst⁻¹ (Reads pre p post is_list pos) same (
        rlp_read-long pre p post is_list pos hp (ground arith)
          (omega (
            arith,
            length-append pre (hdr ++ (p ++ post)),
            length-append hdr (p ++ post),
            length-append p post,
          ))
          (subst (λ t. length (pre ++ (t ++ (p ++ post))) < 2 ^ 64) same hl))
]
