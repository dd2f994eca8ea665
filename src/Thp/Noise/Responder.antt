-- ===== src/Thp/Noise/Responder.antt =====
-- `TrezorResponder` of trezor-core/src/thp/noise.rs: the device's two steps, from the specification,
-- against which the repository's tests run the host. `unwrap` on an error is that error.
use maknoon_trezor_core_rs.Prelude.{[], ◌∷◌, ◌++◌, Bytes, slice, drop, get_or, replicate}
use maknoon_trezor_core_rs.Error.{Result, ok, ◌>>=◌}
use maknoon_trezor_core_rs.Proto.{or_thp}
use maknoon_trezor_core_rs.Thp.Aead.{seal, open_sealed}
use maknoon_trezor_core_rs.Thp.Noise.{
  Crypto, TrezorResponder, ResponderResult, sha256_concat, hkdf, opening_hash, as_array32,
  protocol_name, iv_zero, iv_one, pubkey_len, enc_static_len,
}

module _ (c : Crypto) where
  unfoldable pub new_responder : Bytes → Bytes → TrezorResponder
  new_responder device_properties static_priv = record {
    device_properties = device_properties;
    static_priv = static_priv;
    static_pub = c.public_key static_priv;
    ephemeral_priv = replicate 32 0;
    h = replicate 32 0;
    ck = replicate 32 0;
    k = replicate 32 0;
  }

  -- TH1, with the random ephemeral scalar as an argument. A request has 33 bytes.
  unfoldable pub handle_init_request : TrezorResponder → Bytes → Bytes → Bytes × TrezorResponder
  handle_init_request self ephemeral_priv req =
      let host_ephemeral_pub = slice 0 pubkey_len req in
      let try_to_unlock = get_or req pubkey_len 0 in
      let ephemeral_pub = c.public_key ephemeral_priv in
      let h =
        opening_hash c self.device_properties host_ephemeral_pub try_to_unlock ephemeral_pub in
      let (ck, k_a) = hkdf c protocol_name (c.x25519 ephemeral_priv host_ephemeral_pub) in
      let mask = sha256_concat c (self.static_pub ∷ ephemeral_pub ∷ []) in
      let masked_static = c.x25519 mask self.static_pub in
      let enc_static = seal c.aes k_a iv_zero h masked_static in
      let h = sha256_concat c (h ∷ enc_static ∷ []) in
      let (ck, k_b) = hkdf c ck (c.x25519 mask (c.x25519 self.static_priv host_ephemeral_pub)) in
      let tag = seal c.aes k_b iv_zero h [] in
      let h = sha256_concat c (h ∷ tag ∷ []) in
      (
        ephemeral_pub ++ (enc_static ++ tag),
        record self { ephemeral_priv = ephemeral_priv; h = h; ck = ck; k = k_b },
      )

  abbrev pub state_unpaired : Bytes
  state_unpaired = 0x02 ∷ []

  -- TH2. What the payload decodes to is dropped.
  unfoldable pub handle_completion_request : TrezorResponder → Bytes → Result ResponderResult
  handle_completion_request self req = do
    let enc_host_static = slice 0 enc_static_len req
    let enc_payload = drop enc_static_len req
    opened ← open_sealed c.aes self.k iv_one self.h enc_host_static
    host_static_pub ← as_array32 opened
    let h = sha256_concat c (self.h ∷ enc_host_static ∷ [])
    let (ck, k_c) = hkdf c self.ck (c.x25519 self.ephemeral_priv host_static_pub)
    payload_bytes ← open_sealed c.aes k_c iv_zero h enc_payload
    _ ← or_thp "completion payload decodes: " (c.decode_completion payload_bytes)
    let (key_request, key_response) = hkdf c ck []
    let response = seal c.aes key_response iv_zero [] state_unpaired
    ok (record {
      response = response;
      host_static_pub = host_static_pub;
      key_request = key_request;
      key_response = key_response;
    })
