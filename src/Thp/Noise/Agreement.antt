-- ===== src/Thp/Noise/Agreement.antt =====
-- The two sides of the handshake agree.
use maknoon_trezor_core_rs.Prelude.{
  ℕ, ◌+◌, ◌≡◌, refl, sym, ap, ◌∙◌, [], ◌∷◌, ◌++◌, Option, Bytes, slice_zero, length, length-append,
  append_assoc, drop, take_all, take-append_length, drop-append_length, get_or-append, arith,
  ==_iff,
}
use maknoon_trezor_core_rs.Error.{ok}
use maknoon_trezor_core_rs.Thp.Aead.{seal, open_sealed-seal}
use maknoon_trezor_core_rs.Thp.Keys.{SessionKeys}
use maknoon_trezor_core_rs.Thp.Noise.{
  Crypto, HostHandshake, TrezorResponder, ResponderResult, sha256_concat, hkdf, opening_hash,
  as_array32, protocol_name, iv_zero, iv_one, with_ephemeral, init_request_payload, read_parts,
  read_init_response, read_completion_response,
}
use maknoon_trezor_core_rs.Thp.Noise.Responder.{
  new_responder, handle_init_request, handle_completion_request, state_unpaired,
}

module _ (c : Crypto) where
  -- Diffie-Hellman between two key pairs.
  dh : (a b : Bytes) → c.x25519 a (c.public_key b) ≡ c.x25519 b (c.public_key a)
  dh a b =
      ap (c.x25519 a) (c.public_key_lem b)
      ∙ c.x25519_comm a b c.base_point
      ∙ ap (c.x25519 b) (sym (c.public_key_lem a))

  -- The same through the mask.
  dh_masked :
      (a b mask : Bytes)
      → c.x25519 a (c.x25519 mask (c.public_key b)) ≡ c.x25519 mask (c.x25519 b (c.public_key a))
  dh_masked a b mask = c.x25519_comm a mask (c.public_key b) ∙ ap (c.x25519 mask) (dh a b)

  length-public_key : (a : Bytes) → length (c.public_key a) ≡ 32
  length-public_key a = ap length (c.public_key_lem a) ∙ c.length-x25519 a c.base_point

  as_array32-length : (xs : Bytes) → length xs ≡ 32 → as_array32 xs ≡ ok xs
  unfolding as_array32
  as_array32-length xs h = rw ((==_iff (length xs) 32).1 h)

  length-seal :
      (key iv aad m : Bytes) (n : ℕ) → length m ≡ n → length (seal c.aes key iv aad m) ≡ n + 16
  unfolding seal
  length-seal key iv aad m n h = c.aes.length-encrypt key iv aad m ∙ ap (λ k. k + 16) h

  -- A response of the three parts' sizes is cut into them.
  read_init_response-parts :
      (self : HostHandshake) (a b t : Bytes)
      → length a ≡ 32
      → length b ≡ 48
      → length t ≡ 16
      → read_init_response c self (a ++ (b ++ t)) ≡ read_parts c self a b t
  unfolding read_init_response
  read_init_response-parts self a b t ha hb ht =
      let whole : Bytes = a ++ (b ++ t) in
      let hw : length whole ≡ 96 = omega (arith, length-append a (b ++ t), length-append b t) in
      let first_80 : drop 80 whole ≡ t =
        ap (drop 80) (sym (append_assoc a b t))
        ∙ drop-append_length 80 (a ++ b) t (length-append a b ∙ omega arith) in
      rw (
        hw,
        take-append_length 32 a (b ++ t) ha,
        as_array32-length a ha,
        drop-append_length 32 a (b ++ t) ha,
        take-append_length 48 b t hb,
        first_80,
        take_all 16 t (omega arith),
      )

  module _ (device_properties : Bytes) (try_to_unlock : ℕ) (host_static host_ephemeral : Bytes)
      (credential : Option Bytes) (trezor_static trezor_ephemeral : Bytes) where
    abbrev host : HostHandshake
    host = with_ephemeral c device_properties try_to_unlock host_static credential host_ephemeral

    abbrev answered : Bytes × TrezorResponder
    answered =
        handle_init_request c (new_responder c device_properties trezor_static) trezor_ephemeral
          (init_request_payload host)

    -- What the two sides compute, in the device's terms.
    abbrev E_pub : Bytes
    E_pub = c.public_key host_ephemeral

    abbrev T_pub : Bytes
    T_pub = c.public_key trezor_ephemeral

    abbrev mask : Bytes
    mask = sha256_concat c (c.public_key trezor_static ∷ T_pub ∷ [])

    abbrev masked : Bytes
    masked = c.x25519 mask (c.public_key trezor_static)

    abbrev h0 : Bytes
    h0 = opening_hash c device_properties E_pub try_to_unlock T_pub

    abbrev first : Bytes × Bytes
    first = hkdf c protocol_name (c.x25519 trezor_ephemeral E_pub)

    abbrev enc_static : Bytes
    enc_static = seal c.aes first.1 iv_zero h0 masked

    abbrev h1 : Bytes
    h1 = sha256_concat c (h0 ∷ enc_static ∷ [])

    abbrev second : Bytes × Bytes
    second = hkdf c first.0 (c.x25519 mask (c.x25519 trezor_static E_pub))

    abbrev tag : Bytes
    tag = seal c.aes second.1 iv_zero h1 []

    abbrev h2 : Bytes
    h2 = sha256_concat c (h1 ∷ tag ∷ [])

    abbrev enc_host_static : Bytes
    enc_host_static = seal c.aes second.1 iv_one h2 (c.public_key host_static)

    abbrev h3 : Bytes
    h3 = sha256_concat c (h2 ∷ enc_host_static ∷ [])

    abbrev third : Bytes × Bytes
    third = hkdf c second.0 (c.x25519 trezor_ephemeral (c.public_key host_static))

    abbrev enc_payload : Bytes
    enc_payload = seal c.aes third.1 iv_zero h3 (c.encode_completion credential)

    abbrev keys : Bytes × Bytes
    keys = hkdf c third.0 []

    answered_lem : answered ≡ (
      T_pub ++ (enc_static ++ tag),
      record {
        device_properties = device_properties;
        static_priv = trezor_static;
        static_pub = c.public_key trezor_static;
        ephemeral_priv = trezor_ephemeral;
        h = h2;
        ck = second.0;
        k = second.1;
      },
    )
    unfolding handle_init_request with_ephemeral init_request_payload new_responder
    answered_lem = rw (
      slice_zero 32 (E_pub ++ (try_to_unlock ∷ [])),
      take-append_length 32 E_pub (try_to_unlock ∷ []) (length-public_key host_ephemeral),
      get_or-append E_pub (try_to_unlock ∷ []) 32 0 0
          (omega (arith, length-public_key host_ephemeral)),
    )

    completed : HostHandshake
    unfolding with_ephemeral
    completed = record host {
      h = sha256_concat c (h3 ∷ enc_payload ∷ []);
      ck = third.0;
      masked_static = masked;
    }

    read_parts_lem :
        read_parts c host T_pub enc_static tag ≡ ok (enc_host_static ++ enc_payload, completed)
    unfolding read_parts completed
    read_parts_lem = rw (
      dh host_ephemeral trezor_ephemeral,
      open_sealed-seal c.aes first.1 iv_zero h0 masked,
      as_array32-length masked (c.length-x25519 mask (c.public_key trezor_static)),
      dh_masked host_ephemeral trezor_static mask,
      open_sealed-seal c.aes second.1 iv_zero h1 [],
      dh host_static trezor_ephemeral,
    )

    read_init_response_lem :
        read_init_response c host (T_pub ++ (enc_static ++ tag))
        ≡ ok (enc_host_static ++ enc_payload, completed)
    read_init_response_lem =
        read_init_response-parts host T_pub enc_static tag (length-public_key trezor_ephemeral)
          (length-seal first.1 iv_zero h0 masked 32
            (c.length-x25519 mask (c.public_key trezor_static)))
          (length-seal second.1 iv_zero h1 [] 0 refl)
        ∙ read_parts_lem

    abbrev result : ResponderResult
    result = record {
      response = seal c.aes keys.1 iv_zero [] (state_unpaired c);
      host_static_pub = c.public_key host_static;
      key_request = keys.0;
      key_response = keys.1;
    }

    handle_completion_lem :
        handle_completion_request c answered.1 (enc_host_static ++ enc_payload) ≡ ok result
    unfolding handle_completion_request
    handle_completion_lem =
        let hl : length enc_host_static ≡ 48 =
          length-seal second.1 iv_one h2 (c.public_key host_static) 32
            (length-public_key host_static) in
        rw (
          answered_lem,
          take-append_length 48 enc_host_static enc_payload hl,
          drop-append_length 48 enc_host_static enc_payload hl,
          open_sealed-seal c.aes second.1 iv_one h2 (c.public_key host_static),
          as_array32-length (c.public_key host_static) (length-public_key host_static),
          open_sealed-seal c.aes third.1 iv_zero h3 (c.encode_completion credential),
          c.decode_completion-encode credential,
        )

    abbrev session_keys : SessionKeys
    session_keys = record {
      key_request = keys.0;
      key_response = keys.1;
      nonce_request = 0;
      nonce_response = 1;
      trezor_state = state_unpaired c;
      trezor_masked_static_pubkey = masked;
      handshake_hash = sha256_concat c (h3 ∷ enc_payload ∷ []);
      host_static_pubkey = c.public_key host_static;
    }

    read_completion_lem : read_completion_response c completed result.response ≡ ok session_keys
    unfolding read_completion_response completed
    read_completion_lem = rw (open_sealed-seal c.aes keys.1 iv_zero [] (state_unpaired c))

    -- For any key pairs, device properties, credential and unlock byte, the host reads the
    -- device's answer to its request, the device reads the host's completion request, and the host
    -- reads the device's completion response. Both then hold the same two keys, the device has the
    -- host's static public key, and the host has the device's state, its masked static key,
    -- and the nonces 0 and 1.
    pub handshake_agrees :
        (req2 : Bytes) × (host' : HostHandshake) × (out : ResponderResult) × (ks : SessionKeys)
        × (read_init_response c host answered.0 ≡ ok (req2, host'))
        × (handle_completion_request c answered.1 req2 ≡ ok out)
        × (read_completion_response c host' out.response ≡ ok ks)
        × (ks.key_request ≡ out.key_request)
        × (ks.key_response ≡ out.key_response)
        × (out.host_static_pub ≡ c.public_key host_static)
        × (ks.host_static_pubkey ≡ c.public_key host_static)
        × (ks.trezor_state ≡ state_unpaired c)
        × (ks.trezor_masked_static_pubkey ≡ masked)
        × (ks.nonce_request ≡ 0)
        × (ks.nonce_response ≡ 1)
    handshake_agrees = (
      enc_host_static ++ enc_payload,
      completed,
      result,
      session_keys,
      ap (λ t. read_init_response c host t.0) answered_lem ∙ read_init_response_lem,
      handle_completion_lem,
      read_completion_lem,
      refl,
      refl,
      refl,
      refl,
      refl,
      refl,
      refl,
      refl,
    )
