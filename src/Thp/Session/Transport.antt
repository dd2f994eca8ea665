-- ===== src/Thp/Session/Transport.antt =====
-- Two ends of a channel: what one seals in order the other opens in order.
use maknoon_trezor_core_rs.Prelude.{
  ℕ, ◌+◌, ◌%◌, ◌^◌, ◌<◌, ◌≡◌, refl, sym, ap, Bool, true, false, List, [], ◌∷◌, Bytes, IsByte, All,
  from_be16, length, arith, le→ltb, none, some, Option-cases, ◌/◌, inl, inr, ◌⊎◌, map,
}
use maknoon_trezor_core_rs.Error.{Result, ok, err, thp_error}
use maknoon_trezor_core_rs.Thp.Aead.{Aes256Gcm, open_sealed, open_sealed-seal}
use maknoon_trezor_core_rs.Thp.Session.{
  Session, iv_from_nonce, seal_message, open_message, opened, encode_app_message,
  decode_app_message,
}

-- The one's sending side is the other's receiving side, both ways.
pub record IsPeer (a b : Session) : Type 0 where
  pub key_out : a.key_send ≡ b.key_recv
  pub key_in : a.key_recv ≡ b.key_send
  pub nonce_out : a.nonce_send ≡ b.nonce_recv
  pub nonce_in : a.nonce_recv ≡ b.nonce_send

-- A message from the host (`true`) or from the device (`false`).
abbrev pub Message : Type 0
Message = Bool × Bytes

module _ (aes : Aes256Gcm) where
  -- Each message is sealed at its sender and opened at the other end, in any interleaving.
  pub exchange : Session → Session → List Message → List (Result Bytes) × (Session × Session)
  exchange host device [] = ([], (host, device))
  exchange host device ((true, m) ∷ rest) =
      let (ct, host') = seal_message aes host m in
      let (r, device') = open_message aes device ct in
      let (rs, ends) = exchange host' device' rest in (r ∷ rs, ends)
  exchange host device ((false, m) ∷ rest) =
      let (ct, device') = seal_message aes device m in
      let (r, host') = open_message aes host ct in
      let (rs, ends) = exchange host' device' rest in (r ∷ rs, ends)

  -- One message from `a` to `b`.
  passes :
      (a b : Session) (m : Bytes)
      → IsPeer a b
      → open_message aes b (seal_message aes a m).0
        ≡ (ok m, record b { nonce_recv = (b.nonce_recv + 1) % 2 ^ 64 })
  unfolding seal_message open_message opened
  passes a b m p =
      rw (p.key_out, p.nonce_out, open_sealed-seal aes b.key_recv (iv_from_nonce b.nonce_recv) [] m)

  passes-IsPeer :
      (a b : Session) (m : Bytes)
      → IsPeer a b
      → IsPeer (seal_message aes a m).1 (open_message aes b (seal_message aes a m).0).1
  passes-IsPeer a b m p = rw (passes a b m p) (
      unfold seal_message in
      record {
        key_out = p.key_out;
        key_in = p.key_in;
        nonce_out = ap (λ n. (n + 1) % 2 ^ 64) p.nonce_out;
        nonce_in = p.nonce_in;
      })

  IsPeer-sym : (a b : Session) → IsPeer a b → IsPeer b a
  IsPeer-sym a b p = record {
    key_out = sym p.key_in;
    key_in = sym p.key_out;
    nonce_out = sym p.nonce_in;
    nonce_in = sym p.nonce_out;
  }

  -- Between two ends whose keys and nonces match, messages sent in any interleaving of the two
  -- directions, without loss or reordering, are all opened to what was sealed, and the two ends
  -- still match afterwards.
  pub exchange-IsPeer :
      (host device : Session) (ms : List Message)
      → IsPeer host device
      → ((exchange host device ms).0 ≡ map (λ m. ok m.1) ms)
        × IsPeer (exchange host device ms).1.0 (exchange host device ms).1.1
  unfolding exchange
  exchange-IsPeer host device [] p = (refl, p)
  exchange-IsPeer host device ((true, m) ∷ ms) p =
      let next =
        exchange-IsPeer (seal_message aes host m).1
          (open_message aes device (seal_message aes host m).0).1 ms
          (passes-IsPeer host device m p) in
      ((λ i. ap (λ t. t.0) (passes host device m p) i ∷ next.0 i), next.1)
  exchange-IsPeer host device ((false, m) ∷ ms) p =
      let q = IsPeer-sym host device p in
      let next =
        exchange-IsPeer (open_message aes host (seal_message aes device m).0).1
          (seal_message aes device m).1 ms (IsPeer-sym _ _ (passes-IsPeer device host m q)) in
      ((λ i. ap (λ t. t.0) (passes device host m q) i ∷ next.0 i), next.1)

  -- A ciphertext that does not authenticate is answered with the error and leaves the session as
  -- it was, so the next one is tried with the same nonce; one that does moves the nonce on by one.
  pub open_message_cases :
      (s : Session) (ct : Bytes)
      → ((open_message aes s ct ≡ (err (thp_error "AES-GCM authentication failed"), s))
          × (aes.decrypt s.key_recv (iv_from_nonce s.nonce_recv) [] ct ≡ none))
        ⊎ ((pt : Bytes) × (aes.decrypt s.key_recv (iv_from_nonce s.nonce_recv) [] ct ≡ some pt)
            × (open_message aes s ct
                ≡ (ok pt, record s { nonce_recv = (s.nonce_recv + 1) % 2 ^ 64 })))
  unfolding open_message opened open_sealed
  open_message_cases s ct =
      elim (Option-cases (aes.decrypt s.key_recv (iv_from_nonce s.nonce_recv) [] ct)) [
        | inl e ↦ inl (rw e, e)
        | inr (pt, e) ↦ inr (pt, e, rw e)
      ]

-- An application message is read back, for a 16-bit message type.
pub decode-encode_app_message :
    (session_id message_type : ℕ) (protobuf : Bytes)
    → message_type < 2 ^ 16
    → decode_app_message (encode_app_message session_id message_type protobuf)
      ≡ ok (session_id, message_type, protobuf)
unfolding decode_app_message encode_app_message
decode-encode_app_message session_id message_type protobuf h =
    let e : from_be16 (message_type / 256 % 256) (message_type % 256) ≡ message_type =
      omega arith in
    rw (le→ltb (length (encode_app_message session_id message_type protobuf)) 3 (omega arith), e)

-- What decodes is the encoding of what it decodes to: the format has one encoding a message.
pub encode-decode_app_message :
    (payload : Bytes) (session_id message_type : ℕ) (protobuf : Bytes)
    → All IsByte payload
    → decode_app_message payload ≡ ok (session_id, message_type, protobuf)
    → encode_app_message session_id message_type protobuf ≡ payload
unfolding decode_app_message encode_app_message
encode-decode_app_message [] s t p h e = cc
encode-decode_app_message (a ∷ []) s t p h e = cc
encode-decode_app_message (a ∷ b ∷ []) s t p h e = cc
encode-decode_app_message (a ∷ b ∷ c ∷ rest) s t p h e = ground arith
