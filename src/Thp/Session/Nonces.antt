-- ===== src/Thp/Session/Nonces.antt =====
-- The initialisation vectors of a session: no two messages of a direction share one.
use maknoon_trezor_core_rs.Prelude.{
  ℕ, zero, suc, ◌+◌, ◌*◌, ◌%◌, ◌^◌, ◌≤◌, ◌<◌, ◌≡◌, ◌≢◌, refl, sym, ap, ◌∙◌, List, [], ◌∷◌, Bytes,
  from_be32, get_or, get_elem?, get_elem?-lt, length, arith, some,
}
use maknoon_trezor_core_rs.Thp.Aead.{Aes256Gcm, seal}
use maknoon_trezor_core_rs.Thp.Session.{Session, iv_from_nonce, seal_message}

-- The nonce is read back from the last eight bytes.
nonce_of : Bytes → ℕ
nonce_of iv =
    from_be32 (get_or iv 4 0) (get_or iv 5 0) (get_or iv 6 0) (get_or iv 7 0) * 2 ^ 32
    + from_be32 (get_or iv 8 0) (get_or iv 9 0) (get_or iv 10 0) (get_or iv 11 0)

nonce_of-iv_from_nonce : (n : ℕ) → n < 2 ^ 64 → nonce_of (iv_from_nonce n) ≡ n
unfolding nonce_of iv_from_nonce
nonce_of-iv_from_nonce n h = omega arith

pub iv_from_nonce_inj :
    (a b : ℕ) → a < 2 ^ 64 → b < 2 ^ 64 → iv_from_nonce a ≡ iv_from_nonce b → a ≡ b
iv_from_nonce_inj a b ha hb e =
    sym (nonce_of-iv_from_nonce a ha) ∙ ap nonce_of e ∙ nonce_of-iv_from_nonce b hb

module _ (aes : Aes256Gcm) where
  -- One direction: the ciphertexts of a list of messages, in order.
  pub seal_all : Session → List Bytes → List Bytes
  seal_all s [] = []
  seal_all s (m ∷ ms) = let (ct, s') = seal_message aes s m in ct ∷ seal_all s' ms

  get_elem?-seal_all :
      (s : Session) (ms : List Bytes) (i n : ℕ) (m : Bytes)
      → get_elem? ms i ≡ some m
      → s.nonce_send ≡ n
      → n + length ms ≤ 2 ^ 64
      → get_elem? (seal_all s ms) i ≡ some (aes.encrypt s.key_send (iv_from_nonce (n + i)) [] m)
  unfolding seal_all seal_message seal
  get_elem?-seal_all s [] i n m e h fits = cc
  get_elem?-seal_all s (x ∷ ms) zero n m e h fits =
      let en : n + 0 ≡ n = omega arith in cc (e, h, en)
  get_elem?-seal_all s (x ∷ ms) (suc i) n m e h fits =
      let lt : i < length ms = get_elem?-lt ms i m e in
      let en : n + 1 + i ≡ n + suc i = omega arith in
      get_elem?-seal_all (record s { nonce_send = (s.nonce_send + 1) % 2 ^ 64 }) ms i (n + 1) m e
        (omega arith) (omega arith)
      ∙ ap (λ k. some (aes.encrypt s.key_send (iv_from_nonce k) [] m)) en

  -- While the nonce does not wrap, any two messages that a session sealed, at places i and j, were
  -- encrypted under its key with vectors that differ.
  pub seal_all_fresh :
      (s : Session) (ms : List Bytes) (i j : ℕ) (m m' : Bytes)
      → get_elem? ms i ≡ some m
      → get_elem? ms j ≡ some m'
      → i < j
      → s.nonce_send + length ms ≤ 2 ^ 64
      → (iv iv' : Bytes) × (get_elem? (seal_all s ms) i ≡ some (aes.encrypt s.key_send iv [] m))
        × (get_elem? (seal_all s ms) j ≡ some (aes.encrypt s.key_send iv' [] m'))
        × (iv ≢ iv')
  seal_all_fresh s ms i j m m' ei ej lt fits =
      let n : ℕ = s.nonce_send in
      let hj : j < length ms = get_elem?-lt ms j m' ej in
      (
        iv_from_nonce (n + i),
        iv_from_nonce (n + j),
        get_elem?-seal_all s ms i n m ei refl fits,
        get_elem?-seal_all s ms j n m' ej refl fits,
        λ e.
            absurd (omega (arith, iv_from_nonce_inj (n + i) (n + j) (omega arith) (omega arith) e)),
      )
