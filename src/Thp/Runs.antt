-- ===== src/Thp/Runs.antt =====
-- The theorems about channel allocation, the handshake and the session at concrete inputs.
use maknoon_trezor_core_rs.Prelude.{
  ◌≡◌, ◌≢◌, refl, true, false, none, some, List, [], ◌∷◌, ◌++◌, map, Bytes, be16, get_elem?, arith,
}
use maknoon_trezor_core_rs.Error.{ok}
use maknoon_trezor_core_rs.Proto.{decoded}
use maknoon_trezor_core_rs.Thp.Toy.{toy_aes, toy_crypto, toy_encrypt}
use maknoon_trezor_core_rs.Thp.Channel.{parse_allocation_response}
use maknoon_trezor_core_rs.Thp.Channel.Allocation.{parse_allocation_response-accepts}
use maknoon_trezor_core_rs.Thp.Keys.{SessionKeys}
use maknoon_trezor_core_rs.Thp.Session.{Session, new}
use maknoon_trezor_core_rs.Thp.Session.Nonces.{seal_all, seal_all_fresh}
use maknoon_trezor_core_rs.Thp.Session.Transport.{IsPeer, Message, exchange, exchange-IsPeer}
use maknoon_trezor_core_rs.Thp.Noise.{
  HostHandshake, TrezorResponder, ResponderResult, sha256_concat, with_ephemeral,
  init_request_payload, read_init_response, read_completion_response,
}
use maknoon_trezor_core_rs.Thp.Noise.Responder.{
  new_responder, handle_init_request, handle_completion_request, state_unpaired,
}
use maknoon_trezor_core_rs.Thp.Noise.Agreement.{handshake_agrees}

abbrev nonce : Bytes
nonce = 1 ∷ 2 ∷ 3 ∷ 4 ∷ 5 ∷ 6 ∷ 7 ∷ 8 ∷ []

parse_allocation_response-accepts_example :
    parse_allocation_response decoded nonce (nonce ++ (be16 0x1234 ++ (7 ∷ 7 ∷ [])))
    ≡ ok (record {
      cid = 0x1234;
      device_properties_raw = 7 ∷ 7 ∷ [];
      device_properties = 7 ∷ 7 ∷ [];
    })
parse_allocation_response-accepts_example =
    parse_allocation_response-accepts decoded nonce (7 ∷ 7 ∷ []) 0x1234 (7 ∷ 7 ∷ []) refl
      (omega arith) refl

-- The two ends of the test `paired_sessions`.
abbrev host_end : Session
host_end = new (0x11 ∷ []) (0x22 ∷ []) 0 1

abbrev device_end : Session
device_end = new (0x22 ∷ []) (0x11 ∷ []) 1 0

abbrev three_messages : List Message
three_messages = (true, 1 ∷ []) ∷ (true, 2 ∷ []) ∷ (false, 3 ∷ []) ∷ []

exchange-IsPeer_example :
    ((exchange toy_aes host_end device_end three_messages).0 ≡ map (λ m. ok m.1) three_messages)
    × IsPeer
        (exchange toy_aes host_end device_end three_messages).1.0
        (exchange toy_aes host_end device_end three_messages).1.1
exchange-IsPeer_example =
    exchange-IsPeer toy_aes host_end device_end three_messages
      (record { key_out = refl; key_in = refl; nonce_out = refl; nonce_in = refl })

seal_all_fresh_example :
    (iv iv' : Bytes) × (get_elem? (seal_all toy_aes host_end ((5 ∷ []) ∷ (6 ∷ []) ∷ [])) 0
      ≡ some (toy_encrypt (0x11 ∷ []) iv [] (5 ∷ [])))
    × (get_elem? (seal_all toy_aes host_end ((5 ∷ []) ∷ (6 ∷ []) ∷ [])) 1
        ≡ some (toy_encrypt (0x11 ∷ []) iv' [] (6 ∷ [])))
    × (iv ≢ iv')
seal_all_fresh_example =
    seal_all_fresh toy_aes host_end ((5 ∷ []) ∷ (6 ∷ []) ∷ []) 0 1 (5 ∷ []) (6 ∷ []) refl refl
      (omega arith) (omega arith)

-- A handshake between two key pairs, on the device properties 1 2.
abbrev first_host : HostHandshake
first_host = with_ephemeral toy_crypto (1 ∷ 2 ∷ []) 0 (5 ∷ []) none (6 ∷ [])

abbrev first_answer : Bytes × TrezorResponder
first_answer =
    handle_init_request toy_crypto (new_responder toy_crypto (1 ∷ 2 ∷ []) (7 ∷ [])) (8 ∷ [])
      (init_request_payload first_host)

abbrev toy_mask : Bytes
toy_mask =
    sha256_concat toy_crypto (toy_crypto.public_key (7 ∷ []) ∷ toy_crypto.public_key (8 ∷ []) ∷ [])

handshake_agrees_example :
    (req2 : Bytes) × (host' : HostHandshake) × (out : ResponderResult) × (ks : SessionKeys)
    × (read_init_response toy_crypto first_host first_answer.0 ≡ ok (req2, host'))
    × (handle_completion_request toy_crypto first_answer.1 req2 ≡ ok out)
    × (read_completion_response toy_crypto host' out.response ≡ ok ks)
    × (ks.key_request ≡ out.key_request)
    × (ks.key_response ≡ out.key_response)
    × (out.host_static_pub ≡ toy_crypto.public_key (5 ∷ []))
    × (ks.host_static_pubkey ≡ toy_crypto.public_key (5 ∷ []))
    × (ks.trezor_state ≡ state_unpaired toy_crypto)
    × (ks.trezor_masked_static_pubkey ≡ toy_crypto.x25519 toy_mask (toy_crypto.public_key (7 ∷ [])))
    × (ks.nonce_request ≡ 0)
    × (ks.nonce_response ≡ 1)
handshake_agrees_example =
    handshake_agrees toy_crypto (1 ∷ 2 ∷ []) 0 (5 ∷ []) (6 ∷ []) none (7 ∷ []) (8 ∷ [])
