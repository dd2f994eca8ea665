-- ===== src/Thp/Connection/HandshakeRuns.antt =====
-- The handshake over the connection, at a concrete input.
use maknoon_trezor_core_rs.Prelude.{
  ℕ, ◌+◌, ◌≡◌, refl, none, List, [], ◌∷◌, ◌++◌, Bytes, length, be32, replicate, arith,
}
use maknoon_trezor_core_rs.Error.{Result, ok, err}
use maknoon_trezor_core_rs.Outcome.{done}
use maknoon_trezor_core_rs.Thp.Control.{with_seq, ack_for}
use maknoon_trezor_core_rs.Thp.Framing.{segment, packets_of, crc_of}
use maknoon_trezor_core_rs.Thp.Aead.{seal, open_sealed}
use maknoon_trezor_core_rs.Thp.Keys.{SessionKeys}
use maknoon_trezor_core_rs.Thp.Noise.{
  HostHandshake, TrezorResponder, ResponderResult, init_request_payload, read_init_response,
  with_ephemeral, as_array32,
}
use maknoon_trezor_core_rs.Thp.Noise.Responder.{
  new_responder, handle_init_request, handle_completion_request,
}
use maknoon_trezor_core_rs.Thp.Toy.{toy_crypto}
use maknoon_trezor_core_rs.Thp.Connection.{Connection, new}
use maknoon_trezor_core_rs.Thp.Connection.Flow.{handshake}
use maknoon_trezor_core_rs.Thp.Connection.Delivery.{arrive}
use maknoon_trezor_core_rs.Thp.Connection.Arrivals.{at, repeated}
use maknoon_trezor_core_rs.Thp.Connection.Liveness.{copies}
use maknoon_trezor_core_rs.Thp.Connection.Handshake.{
  start, Frames, host_state, device_answer, handshake-completes,
}

-- The two ends of the run, and what they compute.
abbrev host : HostHandshake
host = host_state toy_crypto (1 ∷ 2 ∷ []) (5 ∷ []) (6 ∷ []) (7 ∷ []) (8 ∷ []) none

abbrev answer : Bytes × TrezorResponder
answer = device_answer toy_crypto (1 ∷ 2 ∷ []) (5 ∷ []) (6 ∷ []) (7 ∷ []) (8 ∷ []) none

abbrev completion_request : Bytes
completion_request = replicate 32 14 ++ replicate 32 0

abbrev completed_host : Result (Bytes × HostHandshake) → HostHandshake
completed_host (ok x) = x.1
completed_host (err e) = host

abbrev host' : HostHandshake
host' = completed_host (read_init_response toy_crypto host answer.0)

abbrev result_of : Result ResponderResult → ResponderResult
result_of (ok x) = x
result_of (err e) = record {
  response = [];
  host_static_pub = [];
  key_request = [];
  key_response = [];
}

abbrev out : ResponderResult
out = result_of (handle_completion_request toy_crypto answer.1 completion_request)

read_init_lem : read_init_response toy_crypto host answer.0 ≡ ok (completion_request, host')
unfolding read_init_response with_ephemeral new_responder handle_init_request init_request_payload
    as_array32 seal open_sealed
read_init_lem = refl

handle_lem : handle_completion_request toy_crypto answer.1 completion_request ≡ ok out
unfolding handle_completion_request with_ephemeral new_responder handle_init_request
    init_request_payload as_array32 seal open_sealed
handle_lem = refl

-- The packets of one frame.
abbrev packets : ℕ → ℕ → Bytes → List Bytes
packets cid control_byte payload =
    packets_of 64 cid control_byte (length payload + 4)
      (payload ++ be32 (crc_of control_byte cid (length payload + 4) payload))

abbrev base : Connection
base = record (new (record { incoming = []; write_results = []; sent = [] }) 64) { cid = 3 }

frames : Frames base 64 3 (init_request_payload host) answer.0 completion_request out.response
unfolding segment with_seq ack_for handle_completion_request with_ephemeral new_responder
    handle_init_request init_request_payload as_array32 seal open_sealed
frames = record {
  request = packets 3 0 (init_request_payload host);
  device_ack = packets 3 0x20 [];
  response = packets 3 1 answer.0;
  host_ack = packets 3 0x20 [];
  request' = packets 3 0x12 completion_request;
  device_ack' = packets 3 0x28 [];
  response' = packets 3 0x13 out.response;
  host_ack' = packets 3 0x28 [];
  request_lem = refl;
  device_ack_lem = refl;
  response_lem = refl;
  host_ack_lem = refl;
  request_lem' = refl;
  device_ack_lem' = refl;
  response_lem' = refl;
  host_ack_lem' = refl;
}

handshake-completes_example :
    (ks : SessionKeys) × (ks.key_request ≡ out.key_request)
    × (ks.key_response ≡ out.key_response)
    × (handshake toy_crypto (1 ∷ 2 ∷ []) (5 ∷ []) none (6 ∷ []) (
          at
            (start base)
            (arrive frames.device_ack (
              arrive frames.response (
                repeated 1 frames.device_ack (
                  arrive frames.device_ack'
                    (repeated 2 frames.response (arrive frames.response' []))))))
            [])
        ≡ done (ok ks) (
            at (start base) [] (
              ((([] ++ frames.request) ++ frames.host_ack) ++ frames.request')
              ++ (copies 2 frames.host_ack ++ frames.host_ack'))))
handshake-completes_example =
    handshake-completes toy_crypto (1 ∷ 2 ∷ []) (5 ∷ []) (6 ∷ []) (7 ∷ []) (8 ∷ []) none base 64 3
      completion_request host' out frames 1 2 [] [] (omega arith) read_init_lem handle_lem
