-- ===== src/Chains/Ethereum/BigEndian.antt =====
-- Big-endian lengths, and reading at a position of a longer buffer.
use mathlib.Core.List.{reverse_aux, reverse-cons}
use native.Mathlib.Nat.{pow-suc}
use maknoon_trezor_core_rs.Prelude.{
  ℕ, zero, suc, ◌+◌, ◌*◌, ◌/◌, ◌%◌, ◌^◌, ◌<◌, ◌≤◌, ◌≡◌, refl, sym, ap, ◌∙◌, Bool, Bool-cases, inl,
  inr, some, [], ◌∷◌, ◌++◌, reverse, Bytes, slice, slice_from, length, length-append, take,
  take-append_length, drop-append_length, get_elem?, bit_or, bit_or_low, ltb, lt→ltb, le→leb, arith,
}
use maknoon_trezor_core_rs.Error.{ok}
use maknoon_trezor_core_rs.Chains.Ethereum.Rlp.{shift_in, read_be, rlp_read_len, rlp_payload}
use maknoon_trezor_core_rs.Chains.Ethereum.Encoder.{le_bytes, minimal_be}

-- Big-endian numbers.
shift_in_lem : (v x : ℕ) → v * 256 + x < 2 ^ 64 → x < 256 → shift_in v x ≡ v * 256 + x
shift_in_lem v x h k =
    let swap : v * 256 % 2 ^ 64 ≡ 2 ^ 8 * v = omega arith in
    ap (λ t. bit_or t x) swap ∙ bit_or_low 8 v x k ∙ omega arith

read_be-snoc : (v x : ℕ) (xs : Bytes) → read_be v (xs ++ (x ∷ [])) ≡ shift_in (read_be v xs) x
read_be-snoc v x [] = refl
read_be-snoc v x (y ∷ xs) = read_be-snoc (shift_in v y) x xs

read_be-le_bytes :
    (fuel n : ℕ) → n < 256 ^ fuel → n < 2 ^ 64 → read_be 0 (reverse (le_bytes fuel n)) ≡ n
unfolding le_bytes
read_be-le_bytes zero n h k = omega (arith, pow-zero)
  where
    pow-zero : 256 ^ 0 ≡ 1
    pow-zero = refl
read_be-le_bytes (suc fuel) n h k = elim (Bool-cases (ltb 0 n)) [
  | inl e ↦
      let rest : Bytes = le_bytes fuel (n / 256) in
      let prior : read_be 0 (reverse rest) ≡ n / 256 =
        read_be-le_bytes fuel (n / 256) (omega (arith, pow-suc 256 fuel)) (omega arith) in
      rw e (
        ap (read_be 0) (reverse-cons (n % 256) rest)
        ∙ read_be-snoc 0 (n % 256) (reverse rest)
        ∙ ap (λ t. shift_in t (n % 256)) prior
        ∙ shift_in_lem (n / 256) (n % 256) (omega arith) (omega arith)
        ∙ omega arith)
  | inr e ↦ rw e (ground arith)
]

pub read_be-minimal_be : (n : ℕ) → n < 2 ^ 64 → read_be 0 (minimal_be n) ≡ n
unfolding minimal_be
read_be-minimal_be n h = read_be-le_bytes 8 n h h

length-reverse_aux : (xs ys : Bytes) → length (reverse_aux xs ys) ≡ length xs + length ys
length-reverse_aux [] ys = omega arith
length-reverse_aux (x ∷ xs) ys = omega (arith, length-reverse_aux xs (x ∷ ys))

length-le_bytes : (fuel n : ℕ) → length (le_bytes fuel n) ≤ fuel
unfolding le_bytes
length-le_bytes zero n = omega arith
length-le_bytes (suc fuel) n = elim (Bool-cases (ltb 0 n)) [
  | inl e ↦ rw e (omega (arith, length-le_bytes fuel (n / 256)))
  | inr e ↦ rw e (omega arith)
]

pub length-minimal_be : (n : ℕ) → 0 < n → (1 ≤ length (minimal_be n)) × (length (minimal_be n) ≤ 8)
unfolding minimal_be le_bytes
length-minimal_be n h =
    let rest : Bytes = le_bytes 7 (n / 256) in
    rw (lt→ltb 0 n h) (
      omega (arith, length-reverse_aux ((n % 256) ∷ rest) []),
      omega (arith, length-reverse_aux ((n % 256) ∷ rest) [], length-le_bytes 7 (n / 256)),
    )

-- Reading behind a prefix.
pub get_elem?-append :
    (pre : Bytes) (x : ℕ) (xs : Bytes) → get_elem? (pre ++ (x ∷ xs)) (length pre) ≡ some x
get_elem?-append [] x xs = refl
get_elem?-append (y ∷ pre) x xs = get_elem?-append pre x xs

slice-middle :
    (pre mid post : Bytes) (a b : ℕ)
    → a ≡ length pre
    → b ≡ a + length mid
    → slice a b (pre ++ (mid ++ post)) ≡ mid
slice-middle pre mid post a b ha hb =
    let whole : Bytes = pre ++ (mid ++ post) in
    ap (λ t. slice a t whole) hb
    ∙ slice_from a (length mid) whole
    ∙ ap (take (length mid)) (drop-append_length a pre (mid ++ post) (sym ha))
    ∙ take-append_length (length mid) mid post refl

pub rlp_read_len-minimal_be :
    (pre post : Bytes) (n pos : ℕ)
    → pos ≡ length pre
    → n < 2 ^ 64
    → length (pre ++ (minimal_be n ++ post)) < 2 ^ 64
    → rlp_read_len (pre ++ (minimal_be n ++ post)) pos (length (minimal_be n))
      ≡ ok (n, pos + length (minimal_be n))
unfolding rlp_read_len
rlp_read_len-minimal_be pre post n pos hp hn hl =
    let lb : Bytes = minimal_be n in
    let whole : Bytes = pre ++ (lb ++ post) in
    let l : length whole ≡ length pre + (length lb + length post) =
      length-append pre (lb ++ post) ∙ ap (λ t. length pre + t) (length-append lb post) in
    rw
      (
        lt→ltb (pos + length lb) (2 ^ 64) (omega arith),
        le→leb (pos + length lb) (length whole) (omega arith),
        slice-middle pre lb post pos (pos + length lb) hp refl,
        read_be-minimal_be n hn,
      )
      refl

pub rlp_payload-middle :
    (pre mid post : Bytes) (is_list : Bool) (pos : ℕ)
    → pos ≡ length pre
    → length (pre ++ (mid ++ post)) < 2 ^ 64
    → rlp_payload (pre ++ (mid ++ post)) is_list (length mid) pos
      ≡ ok (is_list, mid, pos + length mid)
unfolding rlp_payload
rlp_payload-middle pre mid post is_list pos hp hl =
    let whole : Bytes = pre ++ (mid ++ post) in
    let l : length whole ≡ length pre + (length mid + length post) =
      length-append pre (mid ++ post) ∙ ap (λ t. length pre + t) (length-append mid post) in
    rw
      (
        lt→ltb (pos + length mid) (2 ^ 64) (omega arith),
        le→leb (pos + length mid) (length whole) (omega arith),
        slice-middle pre mid post pos (pos + length mid) hp refl,
      )
      refl
