-- ===== src/Thp/Connection/Handshake.antt =====
-- The handshake over the connection, with a device that answers it: the driver, the framing, the
-- alternating-bit protocol and the two sides of the handshake together.
use maknoon_trezor_core_rs.Prelude.{
  ℕ, ◌<◌, ◌^◌, ◌≡◌, refl, sym, ap, ◌∙◌, Option, none, List, [], ◌++◌, Bytes, arith,
}
use maknoon_trezor_core_rs.Error.{Result, ok}
use maknoon_trezor_core_rs.Outcome.{done}
use maknoon_trezor_core_rs.Thp.Control.{
  with_seq, seq_of, is_ack, ack_for, handshake_init_request, handshake_completion_request,
  handshake_init_response, handshake_completion_response,
}
use maknoon_trezor_core_rs.Thp.Framing.{segment}
use maknoon_trezor_core_rs.Thp.Keys.{SessionKeys}
use maknoon_trezor_core_rs.Thp.Noise.{
  Crypto, HostHandshake, TrezorResponder, ResponderResult, with_ephemeral, init_request_payload,
  read_init_response, read_completion_response,
}
use maknoon_trezor_core_rs.Thp.Noise.Responder.{
  new_responder, handle_init_request, handle_completion_request,
}
use maknoon_trezor_core_rs.Thp.Noise.Agreement.{handshake_agrees}
use maknoon_trezor_core_rs.Thp.Connection.{Arrival, Connection}
use maknoon_trezor_core_rs.Thp.Connection.Abp.{send_data, recv_data}
use maknoon_trezor_core_rs.Thp.Connection.Flow.{handshake}
use maknoon_trezor_core_rs.Thp.Connection.Delivery.{arrive}
use maknoon_trezor_core_rs.Thp.Connection.Arrivals.{at, repeated}
use maknoon_trezor_core_rs.Thp.Connection.Liveness.{
  copies, IsData, send_data-acknowledged, recv_data-fresh,
}

-- A connection right after allocation.
abbrev pub start : Connection → Connection
start base = record base { send_seq = 0; recv_seq = 0; pending_data = none }

-- The frames of one handshake: the host's two requests, the device's acknowledgements and
-- responses, and the host's acknowledgements.
pub record Frames (base : Connection) (packet_size cid : ℕ) (req1 resp1 req2 resp2 : Bytes)
    : Type 0 where
  pub request : List Bytes
  pub device_ack : List Bytes
  pub response : List Bytes
  pub host_ack : List Bytes
  pub request' : List Bytes
  pub device_ack' : List Bytes
  pub response' : List Bytes
  pub host_ack' : List Bytes
  pub request_lem :
      segment base.packet_size base.cid (with_seq handshake_init_request 0) req1 ≡ ok request
  pub device_ack_lem : segment packet_size cid (ack_for 0) [] ≡ ok device_ack
  pub response_lem :
      segment packet_size cid (with_seq handshake_init_response 0) resp1 ≡ ok response
  pub host_ack_lem : segment base.packet_size base.cid (ack_for 0) [] ≡ ok host_ack
  pub request_lem' :
      segment base.packet_size base.cid (with_seq handshake_completion_request 1) req2 ≡ ok request'
  pub device_ack_lem' : segment packet_size cid (ack_for 1) [] ≡ ok device_ack'
  pub response_lem' :
      segment packet_size cid (with_seq handshake_completion_response 1) resp2 ≡ ok response'
  pub host_ack_lem' : segment base.packet_size base.cid (ack_for 1) [] ≡ ok host_ack'

module _ (base : Connection) (packet_size cid : ℕ) (cid_fits : cid < 2 ^ 16)
    (req1 resp1 req2 resp2 : Bytes) (f : Frames base packet_size cid req1 resp1 req2 resp2)
    (stale duplicates : ℕ) (more : List Arrival) (sent : List Bytes) where
  -- The reads of the second exchange, and of the whole handshake.
  abbrev pub second : List Arrival
  second =
      repeated stale f.device_ack
        (arrive f.device_ack' (repeated duplicates f.response (arrive f.response' more)))

  abbrev pub arrivals : List Arrival
  arrivals = arrive f.device_ack (arrive f.response second)

  -- The packets that the host writes.
  abbrev sent1 : List Bytes
  sent1 = sent ++ f.request

  abbrev sent2 : List Bytes
  sent2 = sent1 ++ ([] ++ f.host_ack)

  abbrev sent3 : List Bytes
  sent3 = sent2 ++ f.request'

  abbrev pub all_sent : List Bytes
  all_sent = sent3 ++ (copies duplicates f.host_ack ++ f.host_ack')

  init-IsData : IsData (with_seq handshake_init_response 0)
  unfolding with_seq is_ack
  init-IsData = ((omega arith, λ e. absurd (omega arith)), refl)

  completion-IsData : IsData (with_seq handshake_completion_response 1)
  unfolding with_seq is_ack
  completion-IsData = ((omega arith, λ e. absurd (omega arith)), refl)

  sent_first :
      send_data handshake_init_request req1 (at (start base) arrivals sent)
      ≡ done (ok tt) (at (record (start base) { send_seq = 1 }) (arrive f.response second) sent1)
  unfolding repeated
  sent_first =
      send_data-acknowledged 0 (start base) handshake_init_request req1 sent packet_size cid
        f.request f.device_ack f.device_ack' (arrive f.response second) (omega arith) f.request_lem
        f.device_ack_lem f.device_ack_lem' cid_fits

  received_first :
      recv_data (at (record (start base) { send_seq = 1 }) (arrive f.response second) sent1)
      ≡ done
          (ok (with_seq handshake_init_response 0, resp1))
          (at (record (start base) { send_seq = 1; recv_seq = 1 }) second sent2)
  unfolding repeated copies seq_of with_seq
  received_first =
      recv_data-fresh 0 (record (start base) { send_seq = 1 }) sent1 packet_size cid
        (with_seq handshake_completion_response 1) (with_seq handshake_init_response 0) resp2 resp1
        f.response' f.response f.host_ack' f.host_ack second refl completion-IsData
        (λ e. absurd (omega arith)) init-IsData refl f.response_lem' f.response_lem f.host_ack_lem'
        f.host_ack_lem cid_fits

  sent_second :
      send_data handshake_completion_request req2
        (at (record (start base) { send_seq = 1; recv_seq = 1 }) second sent2)
      ≡ done (ok tt) (
          at
            (record (start base) { recv_seq = 1 })
            (repeated duplicates f.response (arrive f.response' more))
            sent3)
  sent_second =
      send_data-acknowledged stale (record (start base) { send_seq = 1; recv_seq = 1 })
        handshake_completion_request req2 sent2 packet_size cid f.request' f.device_ack'
        f.device_ack (repeated duplicates f.response (arrive f.response' more)) (omega arith)
        f.request_lem' f.device_ack_lem' f.device_ack_lem cid_fits

  received_second :
      recv_data (
        at
          (record (start base) { recv_seq = 1 })
          (repeated duplicates f.response (arrive f.response' more))
          sent3)
      ≡ done (ok (with_seq handshake_completion_response 1, resp2)) (at (start base) more all_sent)
  unfolding seq_of with_seq
  received_second =
      recv_data-fresh duplicates (record (start base) { recv_seq = 1 }) sent3 packet_size cid
        (with_seq handshake_init_response 0) (with_seq handshake_completion_response 1) resp1 resp2
        f.response f.response' f.host_ack f.host_ack' more refl init-IsData
        (λ e. absurd (omega arith)) completion-IsData refl f.response_lem f.response_lem'
        f.host_ack_lem f.host_ack_lem' cid_fits

module _ (c : Crypto)
    (device_properties host_static host_ephemeral trezor_static trezor_ephemeral : Bytes)
    (credential : Option Bytes) where
  abbrev pub host_state : HostHandshake
  host_state = with_ephemeral c device_properties 0 host_static credential host_ephemeral

  -- The device's first answer, and its state behind it.
  abbrev pub device_answer : Bytes × TrezorResponder
  device_answer =
      handle_init_request c (new_responder c device_properties trezor_static) trezor_ephemeral
        (init_request_payload host_state)

  -- The device's keys are those that the host reads from its second answer.
  keys_of :
      (req2 : Bytes) (host' : HostHandshake) (out : ResponderResult)
      → read_init_response c host_state device_answer.0 ≡ ok (req2, host')
      → handle_completion_request c device_answer.1 req2 ≡ ok out
      → (ks : SessionKeys) × (read_completion_response c host' out.response ≡ ok ks)
        × (ks.key_request ≡ out.key_request)
        × (ks.key_response ≡ out.key_response)
  keys_of req2 host' out e1 e2 =
      let agreed =
        handshake_agrees c device_properties 0 host_static host_ephemeral credential trezor_static
          trezor_ephemeral in
      let (r, h, o, ks, i1, i2, i3, k1, k2, p1, p2, p3, p4, p5, p6) = agreed in
      let pair : (r, h) ≡ (req2, host') = ok_inj (sym i1 ∙ e1) in
      let same_out : o ≡ out =
        ok_inj (sym i2 ∙ ap (λ t. handle_completion_request c device_answer.1 t.0) pair ∙ e2) in
      (
        ks,
        ap (λ t. read_completion_response c t.1 out.response) (sym pair)
            ∙ ap (λ t. read_completion_response c h t.response) (sym same_out)
            ∙ i3,
        k1 ∙ ap (λ t. t.key_request) same_out,
        k2 ∙ ap (λ t. t.key_response) same_out,
      )
    where
      ok_inj : {A : Type 0} {a b : A} → ◌≡◌ {A = Result A} (ok a) (ok b) → a ≡ b
      ok_inj h = cc

  -- Right after allocation, over a transport that accepts what is written: the device acknowledges
  -- the first request and sends its response; then it acknowledges the second, after any number of
  -- repetitions of its first acknowledgement, and sends its second response, after any number of
  -- repetitions of its first. Then the handshake succeeds, with the very keys that the device
  -- computed. The host has written exactly its two requests and one acknowledgement for every
  -- response that came, both sequence bits are 0 again, and the reads behind are left.
  pub handshake-completes :
      (base : Connection) (packet_size cid : ℕ) (req2 : Bytes) (host' : HostHandshake)
      (out : ResponderResult)
      (f : Frames base packet_size cid
        (init_request_payload host_state)
        device_answer.0
        req2
        out.response)
      (stale duplicates : ℕ) (more : List Arrival) (sent : List Bytes)
      → cid < 2 ^ 16
      → read_init_response c host_state device_answer.0 ≡ ok (req2, host')
      → handle_completion_request c device_answer.1 req2 ≡ ok out
      → (ks : SessionKeys) × (ks.key_request ≡ out.key_request)
        × (ks.key_response ≡ out.key_response)
        × (handshake c device_properties host_static credential host_ephemeral (
              at
                (start base)
                (arrive f.device_ack (
                  arrive f.response (
                    repeated stale f.device_ack (
                      arrive f.device_ack'
                        (repeated duplicates f.response (arrive f.response' more))))))
                sent)
            ≡ done (ok ks) (
                at (start base) more (
                  (((sent ++ f.request) ++ f.host_ack) ++ f.request')
                  ++ (copies duplicates f.host_ack ++ f.host_ack'))))
  unfolding handshake
  handshake-completes base packet_size cid req2 host' out f stale duplicates more sent hc e1 e2 =
      let req1 : Bytes = init_request_payload host_state in
      let (ks, i3, k1, k2) = keys_of req2 host' out e1 e2 in
      (
        ks,
        k1,
        k2,
        rw
            (sent_first base packet_size cid hc req1 device_answer.0 req2 out.response f stale
              duplicates more sent)
            (rw
              (received_first base packet_size cid hc req1 device_answer.0 req2 out.response f stale
                duplicates more sent)
              (rw e1 (
                rw
                  (sent_second base packet_size cid hc req1 device_answer.0 req2 out.response f
                    stale duplicates more sent)
                  (rw
                    (received_second base packet_size cid hc req1 device_answer.0 req2 out.response
                      f stale duplicates more sent)
                    (rw i3 refl))))),
      )
