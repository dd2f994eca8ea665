-- ===== src/Thp/Connection/Runs.antt =====
-- Runs of the connection driver, and its theorems at concrete inputs.
use maknoon_trezor_core_rs.Prelude.{
  ◌+◌, ◌≡◌, refl, true, false, some, List, [], ◌∷◌, ◌++◌, Bytes, be32, arith, length,
}
use maknoon_trezor_core_rs.Error.{ok, err, io, thp, lit, num}
use maknoon_trezor_core_rs.Proto.{decoded}
use maknoon_trezor_core_rs.Outcome.{done, Yields}
use maknoon_trezor_core_rs.Thp.Control.{seq_of, is_ack, with_seq, ack_for, ack_seq_of}
use maknoon_trezor_core_rs.Thp.Crc.{crc32_ieee}
use maknoon_trezor_core_rs.Thp.Framing.{
  push_packet, packets_of, first_packet, cont_packet, cont_packets, crc_of, segment,
}
use maknoon_trezor_core_rs.Thp.Aead.{seal, open_sealed}
use maknoon_trezor_core_rs.Thp.Session.{
  iv_from_nonce, seal_message, opened, open_message, encode_app_message, decode_app_message,
}
use maknoon_trezor_core_rs.Thp.Channel.{build_allocation_request, parse_allocation_response}
use maknoon_trezor_core_rs.Thp.Toy.{toy_aes, toy_messages, toy_session, toy_answer, is_ok}
use maknoon_trezor_core_rs.Thp.Connection.{
  failed, Transport, Connection, new, decode_transport_error,
}
use maknoon_trezor_core_rs.Thp.Connection.Framed.{
  write_packets, write_framed, read_frame, read_framed,
}
use maknoon_trezor_core_rs.Thp.Connection.Abp.{
  send_ack, implicit_ack, await_ack, accept_data, await_data, send_data, recv_data, flip_send,
  flip_recv,
}
use maknoon_trezor_core_rs.Thp.Connection.Flow.{allocate, await_allocation}
use maknoon_trezor_core_rs.Thp.Connection.App.{send_app, recv_app, await_reply, transceive}
use maknoon_trezor_core_rs.Thp.Connection.Sync.{Sent, send_data-Sent, Received, recv_data-Received}
use maknoon_trezor_core_rs.Thp.Connection.Replies.{Replied, transceive-Replied}
use maknoon_trezor_core_rs.Thp.Connection.Setup.{Allocated, allocate-Allocated}
use maknoon_trezor_core_rs.Thp.Connection.Delivery.{arrive}
use maknoon_trezor_core_rs.Thp.Connection.Arrivals.{at, repeated}
use maknoon_trezor_core_rs.Thp.Connection.Liveness.{copies, send_data-acknowledged, recv_data-fresh}

abbrev quiet : Transport
quiet = record { incoming = []; write_results = []; sent = [] }

abbrev conn : Connection
conn = new quiet 64

-- The packets of a small message on the device's channel 3, and on the host's.
abbrev device_message : Bytes → List Bytes
device_message payload =
    packets_of 64 3 4 (length payload + 4)
      (payload ++ be32 (crc_of 4 3 (length payload + 4) payload))

abbrev old_message : List Bytes
old_message = packets_of 64 3 0x14 5 (7 ∷ be32 (crc_of 0x14 3 5 (7 ∷ [])))

abbrev device_ack : List Bytes
device_ack = packets_of 64 3 0x20 4 (be32 (crc_of 0x20 3 4 []))

abbrev device_stale : List Bytes
device_stale = packets_of 64 3 0x28 4 (be32 (crc_of 0x28 3 4 []))

abbrev host_message : List Bytes
host_message = packets_of 64 0xffff 4 6 (1 ∷ 2 ∷ be32 (crc_of 4 0xffff 6 (1 ∷ 2 ∷ [])))

abbrev host_ack : List Bytes
host_ack = packets_of 64 0xffff 0x20 4 (be32 (crc_of 0x20 0xffff 4 []))

abbrev host_old_ack : List Bytes
host_old_ack = packets_of 64 0xffff 0x28 4 (be32 (crc_of 0x28 0xffff 4 []))

send_data-acknowledged_example :
    send_data 4 (1 ∷ 2 ∷ []) (at conn (repeated 2 device_stale (arrive device_ack [])) [])
    ≡ done (ok tt) (at (flip_send conn) [] ([] ++ host_message))
unfolding segment with_seq ack_for
send_data-acknowledged_example =
    send_data-acknowledged 2 conn 4 (1 ∷ 2 ∷ []) [] 64 3 host_message device_ack device_stale []
      (omega arith) refl refl refl (omega arith)

recv_data-fresh_example :
    recv_data (at conn (repeated 1 old_message (arrive (device_message (9 ∷ [])) [])) [])
    ≡ done (ok (4, 9 ∷ [])) (at (flip_recv conn) [] ([] ++ (copies 1 host_old_ack ++ host_ack)))
unfolding segment seq_of is_ack ack_for
recv_data-fresh_example =
    recv_data-fresh 1 conn [] 64 3 0x14 4 (7 ∷ []) (9 ∷ []) old_message (device_message (9 ∷ []))
      host_old_ack host_ack [] refl ((omega arith, λ e. absurd (omega arith)), refl)
      (λ e. absurd (omega arith)) ((omega arith, λ e. absurd (omega arith)), refl) refl refl refl
      refl refl (omega arith)

-- A connection to a device that answers with one frame and then fails.
abbrev busy : Connection
busy = record conn {
  transport = record quiet {
    incoming = arrive (device_message (9 ∷ [])) (failed (io (lit "gone" ∷ [])) ∷ []);
  };
}

-- A device that acknowledges an older message, and then answers in the place of the
-- acknowledgement.
abbrev answering : Connection
answering = record conn {
  transport = record quiet { incoming = arrive device_stale (arrive (device_message (9 ∷ [])) []) };
}

send_data-Sent_example :
    Yields (λ u t. Sent answering 4 (1 ∷ 2 ∷ []) t) (send_data 4 (1 ∷ 2 ∷ []) answering)
send_data-Sent_example = send_data-Sent answering 4 (1 ∷ 2 ∷ [])

answering_lem : is_ok (send_data 4 (1 ∷ 2 ∷ []) answering) ≡ true
unfolding send_data await_ack implicit_ack send_ack read_framed read_frame write_framed
    write_packets segment push_packet packets_of cont_packets cont_packet first_packet crc32_ieee
    ack_for ack_seq_of is_ack seq_of with_seq
answering_lem = refl

recv_data-Received_example : Yields (Received busy) (recv_data busy)
recv_data-Received_example = recv_data-Received busy

-- A session with a device that asks for a button first, and then answers.
abbrev asking : Connection
asking = record conn {
  cid = 3;
  session = some toy_session;
  transport = record quiet {
    incoming = toy_answer 0x20 0x04 26 [] (toy_answer 0x28 0x14 17 (5 ∷ []) []);
  };
}

transceive-Replied_example :
    Yields (Replied toy_aes toy_messages asking) (transceive toy_aes toy_messages 55 [] asking)
transceive-Replied_example = transceive-Replied toy_aes toy_messages asking 55 []

asking_lem : is_ok (transceive toy_aes toy_messages 55 [] asking) ≡ true
unfolding transceive await_reply recv_app send_app recv_data await_data accept_data send_data
    await_ack implicit_ack send_ack read_framed read_frame write_framed write_packets segment
    push_packet packets_of cont_packets cont_packet first_packet crc32_ieee ack_for ack_seq_of
    is_ack seq_of with_seq decode_app_message encode_app_message open_message opened seal_message
    iv_from_nonce seal open_sealed
asking_lem = refl

abbrev nonce : Bytes
nonce = 1 ∷ 2 ∷ 3 ∷ 4 ∷ 5 ∷ 6 ∷ 7 ∷ 8 ∷ []

-- The payload of a response that gives the channel 7.
abbrev given : Bytes
given = nonce ++ (0 ∷ 7 ∷ 42 ∷ [])

-- A device that sends another frame before it gives the channel.
abbrev allocating : Connection
allocating = record conn {
  transport = record quiet {
    incoming =
        arrive (device_message (9 ∷ []))
          (arrive (packets_of 64 0xffff 0x41 15 (given ++ be32 (crc_of 0x41 0xffff 15 given))) []);
  };
}

allocate-Allocated_example :
    Yields (Allocated decoded nonce allocating) (allocate decoded nonce allocating)
allocate-Allocated_example = allocate-Allocated decoded nonce allocating

allocating_lem : is_ok (allocate decoded nonce allocating) ≡ true
unfolding allocate await_allocation parse_allocation_response build_allocation_request read_framed
    read_frame write_framed write_packets segment push_packet packets_of cont_packets cont_packet
    first_packet crc32_ieee
allocating_lem = refl

-- The test `locked_device_surfaces_decoded_error`: one transport error frame with the code 5.
locked_device :
    read_frame
      (arrive (packets_of 64 0xffff 0x42 5 (5 ∷ be32 (crc_of 0x42 0xffff 5 (5 ∷ [])))) [])
      (record { active = false; control_byte = 0; cid = 0; expected_len = 0; buf = [] })
      0
    ≡ some (
      err (
          thp (
            lit "THP transport error "
            ∷ num 5
            ∷ lit ": "
            ∷ lit
                "the device is locked — unlock your Trezor (enter your PIN on the device) and retry"
            ∷ [])),
      [],
    )
unfolding read_frame push_packet packets_of first_packet cont_packets crc32_ieee
    decode_transport_error
locked_device = refl
