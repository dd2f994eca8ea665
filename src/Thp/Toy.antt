-- ===== src/Thp/Toy.antt =====
-- Concrete functions in the place of the cryptographic crates, for runs: they meet the laws that
-- the development assumes and are of no use for anything else. And what a device sends in the runs.
use maknoon_trezor_core_rs.Error.{ok, err}
use maknoon_trezor_core_rs.Prelude.{
  Bool, true, false, ℕ, ◌+◌, ◌-◌, ◌≡◌, refl, ap, [], ◌∷◌, ◌++◌, List, Option, none, some, Bytes,
  length, length-append, take, take-append_length, be16, be32, replicate, get_or, arith,
}
use maknoon_trezor_core_rs.Proto.{Decoded, decoded}
use maknoon_trezor_core_rs.Thp.Aead.{Aes256Gcm}
use maknoon_trezor_core_rs.Outcome.{Outcome, done, waiting, out_of_fuel}
use maknoon_trezor_core_rs.Thp.Framing.{packets_of, crc_of}
use maknoon_trezor_core_rs.Thp.Session.{Session}
use maknoon_trezor_core_rs.Thp.Connection.{Arrival, Connection}
use maknoon_trezor_core_rs.Thp.Connection.Delivery.{arrive}
use maknoon_trezor_core_rs.Thp.Noise.{Crypto}
use maknoon_trezor_core_rs.Thp.Connection.App.{Messages}

abbrev pub toy_encrypt : Bytes → Bytes → Bytes → Bytes → Bytes
toy_encrypt key nonce aad m = m ++ replicate 16 0

abbrev pub toy_decrypt : Bytes → Bytes → Bytes → Bytes → Option Bytes
toy_decrypt key nonce aad ct = some (take (length ct - 16) ct)

pub toy_decrypt-encrypt :
    (key nonce aad m : Bytes) → toy_decrypt key nonce aad (toy_encrypt key nonce aad m) ≡ some m
toy_decrypt-encrypt key nonce aad m =
    let e : length m ≡ length (m ++ replicate 16 0) - 16 =
      omega (arith, length-append m (replicate 16 0)) in
    ap some (take-append_length (length (m ++ replicate 16 0) - 16) m (replicate 16 0) e)

pub length-toy_encrypt :
    (key nonce aad m : Bytes) → length (toy_encrypt key nonce aad m) ≡ length m + 16
length-toy_encrypt key nonce aad m = length-append m (replicate 16 0)

abbrev pub toy_aes : Aes256Gcm
toy_aes = record {
  encrypt = toy_encrypt;
  decrypt = toy_decrypt;
  decrypt-encrypt = toy_decrypt-encrypt;
  length-encrypt = length-toy_encrypt;
}

-- Addition of the first elements, which commutes as scalar multiplication does.
abbrev pub toy_x25519 : Bytes → Bytes → Bytes
toy_x25519 a p = replicate 32 (get_or a 0 0 + get_or p 0 0)

pub toy_x25519_comm :
    (a b p : Bytes) → toy_x25519 a (toy_x25519 b p) ≡ toy_x25519 b (toy_x25519 a p)
toy_x25519_comm a b p = ap (λ n. replicate 32 n) (swap (get_or a 0 0) (get_or b 0 0) (get_or p 0 0))
  where
    swap : (x y z : ℕ) → x + (y + z) ≡ y + (x + z)
    swap x y z = omega arith

abbrev pub toy_encode : Option Bytes → Bytes
toy_encode none = []
toy_encode (some c) = 1 ∷ c

abbrev pub toy_decode : Bytes → Decoded (Option Bytes)
toy_decode [] = decoded none
toy_decode (x ∷ c) = decoded (some c)

pub toy_decode-encode : (o : Option Bytes) → toy_decode (toy_encode o) ≡ decoded o
toy_decode-encode none = refl
toy_decode-encode (some c) = refl

abbrev pub toy_crypto : Crypto
toy_crypto = record {
  aes = toy_aes;
  sha256 = λ m. m;
  hmac_sha256 = λ k m. k ++ m;
  x25519 = toy_x25519;
  public_key = λ a. toy_x25519 a (9 ∷ []);
  base_point = 9 ∷ [];
  encode_completion = toy_encode;
  decode_completion = toy_decode;
  decode_completion-encode = toy_decode-encode;
  length-x25519 = λ a p. refl;
  public_key_lem = λ a. refl;
  x25519_comm = toy_x25519_comm;
}

abbrev pub toy_failure : Bytes → Decoded (Option ℕ × Option (List ℕ))
toy_failure [] = decoded (none, none)
toy_failure (code ∷ message) = decoded (some code, some message)

abbrev pub toy_messages : Messages
toy_messages = record {
  button_ack = [];
  failure = toy_failure;
  create_new_session = λ passphrase on_device cardano. [];
}

-- A frame of the device on channel 3.
abbrev pub toy_frame : ℕ → Bytes → List Bytes
toy_frame control_byte payload =
    packets_of 64 3 control_byte (length payload + 4)
      (payload ++ be32 (crc_of control_byte 3 (length payload + 4) payload))

-- An answer of the device on a session id, behind its acknowledgement.
abbrev pub toy_answer_on : ℕ → ℕ → ℕ → ℕ → Bytes → List Arrival → List Arrival
toy_answer_on session_id ack control_byte message_type body more = arrive (toy_frame ack []) (
    arrive (toy_frame control_byte (session_id ∷ (be16 message_type ++ body) ++ replicate 16 0))
      more)

abbrev pub toy_answer : ℕ → ℕ → ℕ → Bytes → List Arrival → List Arrival
toy_answer = toy_answer_on 0

abbrev pub toy_session : Session
toy_session = record { key_send = []; key_recv = []; nonce_send = 0; nonce_recv = 1 }

abbrev pub state_of : {A : Type 0} → Outcome Connection A → Connection
state_of (done r s) = s
state_of (waiting s) = s
state_of (out_of_fuel s) = s

-- A run that returned a value.
abbrev pub is_ok : {S A : Type 0} → Outcome S A → Bool
is_ok (done (ok a) s) = true
is_ok (done (err e) s) = false
is_ok (waiting s) = false
is_ok (out_of_fuel s) = false

-- What a device sends while a channel is allocated with a nonce and the handshake is made on it: the
-- channel 3, the response to the handshake, and the state that it reports.
abbrev pub toy_opening : Bytes → ℕ → List Arrival → List Arrival
toy_opening nonce trezor_state more =
    let given = nonce ++ (0 ∷ 3 ∷ 42 ∷ []) in
    arrive (packets_of 64 0xffff 0x41 15 (given ++ be32 (crc_of 0x41 0xffff 15 given))) (
      arrive (toy_frame 0x20 []) (
        arrive (toy_frame 0x01 (replicate 96 5)) (
          arrive (toy_frame 0x28 [])
            (arrive (toy_frame 0x13 (trezor_state ∷ replicate 16 0)) more))))
