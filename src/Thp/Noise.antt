-- ===== src/Thp/Noise.antt =====
-- trezor-core/src/thp/noise.rs: the host's side of the handshake, and the device's side that the
-- repository's tests run against it. SHA-256, HMAC, X25519 and the encoder of the completion
-- payload are other crates' or generated code: a parameter.
pub mod Responder
pub mod Agreement
use maknoon_trezor_core_rs.Prelude.{
  ℕ, zero, suc, ◌+◌, ◌≡◌, Bool, not, List, [], ◌∷◌, ◌++◌, Option, Bytes, codes, concat, slice,
  length, replicate, get_or, drop, ◌==◌, if◌then◌else◌,
}
use maknoon_trezor_core_rs.Error.{Result, ok, err, thp_error, ◌>>=◌, ◌>>◌, guard}
use maknoon_trezor_core_rs.Proto.{Decoded, decoded}
use maknoon_trezor_core_rs.Thp.Aead.{Aes256Gcm, seal, open_sealed}
use maknoon_trezor_core_rs.Thp.Keys.{SessionKeys}

-- What is relied on: the size of a product, that a public key is the scalar's multiple of the
-- base point, that multiplication by two scalars commutes, and that the payload decodes.
pub record Crypto : Type 0 where
  pub aes : Aes256Gcm
  pub sha256 : Bytes → Bytes
  pub hmac_sha256 : Bytes → Bytes → Bytes
  pub x25519 : Bytes → Bytes → Bytes
  pub public_key : Bytes → Bytes
  pub base_point : Bytes
  pub encode_completion : Option Bytes → Bytes
  pub decode_completion : Bytes → Decoded (Option Bytes)
  pub decode_completion-encode :
      (o : Option Bytes) → decode_completion (encode_completion o) ≡ decoded o
  pub length-x25519 : (a p : Bytes) → length (x25519 a p) ≡ 32
  pub public_key_lem : (a : Bytes) → public_key a ≡ x25519 a base_point
  pub x25519_comm : (a b p : Bytes) → x25519 a (x25519 b p) ≡ x25519 b (x25519 a p)

abbrev pub protocol_name : Bytes
protocol_name = codes "Noise_XX_25519_AESGCM_SHA256" ++ replicate 4 0

abbrev pub iv_zero : Bytes
iv_zero = replicate 12 0

abbrev pub iv_one : Bytes
iv_one = replicate 11 0 ++ (1 ∷ [])

abbrev pub pubkey_len : ℕ
pubkey_len = 32

abbrev pub enc_static_len : ℕ
enc_static_len = 48

abbrev pub tag_len : ℕ
tag_len = 16

abbrev pub init_response_len : ℕ
init_response_len = 96

unfoldable pub as_array32 : Bytes → Result Bytes
as_array32 xs = if length xs == 32 then ok xs else err (thp_error "expected a 32-byte field")

pub record HostHandshake : Type 0 where
  pub device_properties : Bytes
  pub try_to_unlock : ℕ
  pub ephemeral_priv : Bytes
  pub ephemeral_pub : Bytes
  pub static_priv : Bytes
  pub static_pub : Bytes
  pub host_pairing_credential : Option Bytes
  pub h : Bytes
  pub ck : Bytes
  pub masked_static : Bytes

-- The device's state, `TrezorResponder` of the tests.
pub record TrezorResponder : Type 0 where
  pub device_properties : Bytes
  pub static_priv : Bytes
  pub static_pub : Bytes
  pub ephemeral_priv : Bytes
  pub h : Bytes
  pub ck : Bytes
  pub k : Bytes

pub record ResponderResult : Type 0 where
  pub response : Bytes
  pub host_static_pub : Bytes
  pub key_request : Bytes
  pub key_response : Bytes

unfoldable pub init_request_payload : HostHandshake → Bytes
init_request_payload self = self.ephemeral_pub ++ (self.try_to_unlock ∷ [])

module _ (c : Crypto) where
  unfoldable pub sha256_concat : List Bytes → Bytes
  sha256_concat parts = c.sha256 (concat parts)

  unfoldable pub hkdf : Bytes → Bytes → Bytes × Bytes
  hkdf ck input =
      let temp_key = c.hmac_sha256 ck input in
      let output_1 = c.hmac_sha256 temp_key (1 ∷ []) in
      let output_2 = c.hmac_sha256 temp_key (output_1 ++ (2 ∷ [])) in (output_1, output_2)

  -- `HostHandshake::new` draws `ephemeral_priv` at random and calls this.
  unfoldable pub with_ephemeral : Bytes → ℕ → Bytes → Option Bytes → Bytes → HostHandshake
  with_ephemeral device_properties try_to_unlock static_priv credential ephemeral_priv = record {
    device_properties = device_properties;
    try_to_unlock = try_to_unlock;
    ephemeral_priv = ephemeral_priv;
    ephemeral_pub = c.public_key ephemeral_priv;
    static_priv = static_priv;
    static_pub = c.public_key static_priv;
    host_pairing_credential = credential;
    h = replicate 32 0;
    ck = replicate 32 0;
    masked_static = replicate 32 0;
  }

  -- The transcript hash up to the device's ephemeral key, computed on both sides.
  unfoldable pub opening_hash : Bytes → Bytes → ℕ → Bytes → Bytes
  opening_hash device_properties host_ephemeral_pub try_to_unlock trezor_ephemeral_pub =
      let h = sha256_concat (protocol_name ∷ device_properties ∷ []) in
      let h = sha256_concat (h ∷ host_ephemeral_pub ∷ []) in
      let h = sha256_concat (h ∷ (try_to_unlock ∷ []) ∷ []) in
      sha256_concat (h ∷ trezor_ephemeral_pub ∷ [])

  -- `read_init_response` past its size test, on the three parts of the response.
  pub read_parts : HostHandshake → Bytes → Bytes → Bytes → Result (Bytes × HostHandshake)
  read_parts self trezor_ephemeral_pub enc_static tag = do
    let h =
        opening_hash self.device_properties self.ephemeral_pub self.try_to_unlock
          trezor_ephemeral_pub
    let (ck, k) = hkdf protocol_name (c.x25519 self.ephemeral_priv trezor_ephemeral_pub)
    masked ← open_sealed c.aes k iv_zero h enc_static
    masked_static ← as_array32 masked
    let h = sha256_concat (h ∷ enc_static ∷ [])
    let (ck, k) = hkdf ck (c.x25519 self.ephemeral_priv masked_static)
    empty ← open_sealed c.aes k iv_zero h tag
    guard (length empty == 0) (thp_error "handshake authentication payload was not empty")
    let h = sha256_concat (h ∷ tag ∷ [])
    let enc_host_static = seal c.aes k iv_one h self.static_pub
    let h = sha256_concat (h ∷ enc_host_static ∷ [])
    let (ck, k) = hkdf ck (c.x25519 self.static_priv trezor_ephemeral_pub)
    let payload = c.encode_completion self.host_pairing_credential
    let enc_payload = seal c.aes k iv_zero h payload
    let h = sha256_concat (h ∷ enc_payload ∷ [])
    ok (
      enc_host_static ++ enc_payload,
      record self { h = h; ck = ck; masked_static = masked_static },
    )

  -- `self` is assigned at the end only, so an error leaves it as it was.
  unfoldable pub read_init_response : HostHandshake → Bytes → Result (Bytes × HostHandshake)
  unfolding read_parts
  read_init_response self resp = do
    guard (length resp == init_response_len)
        (thp_error "handshake init response has the wrong size")
    trezor_ephemeral_pub ← as_array32 (slice 0 pubkey_len resp)
    let enc_static = slice pubkey_len (pubkey_len + enc_static_len) resp
    let tag = slice (pubkey_len + enc_static_len) init_response_len resp
    read_parts self trezor_ephemeral_pub enc_static tag

  unfoldable pub read_completion_response : HostHandshake → Bytes → Result SessionKeys
  read_completion_response self resp = do
    let (key_request, key_response) = hkdf self.ck []
    trezor_state ← open_sealed c.aes key_response iv_zero [] resp
    ok (record {
      key_request = key_request;
      key_response = key_response;
      nonce_request = 0;
      nonce_response = 1;
      trezor_state = trezor_state;
      trezor_masked_static_pubkey = self.masked_static;
      handshake_hash = self.h;
      host_static_pubkey = self.static_pub;
    })
