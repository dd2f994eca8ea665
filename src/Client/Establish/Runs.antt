-- ===== src/Client/Establish/Runs.antt =====
-- The establishing of a session at a concrete input: the device takes the stored credential.
use maknoon_trezor_core_rs.Prelude.{true, ◌≡◌, refl, none, some, [], ◌∷◌, Bytes, replicate, take}
use maknoon_trezor_core_rs.Proto.{Decoded, decoded}
use maknoon_trezor_core_rs.Thp.Toy.{toy_crypto, toy_messages, toy_opening, toy_answer, is_ok}
use maknoon_trezor_core_rs.Thp.Control.{seq_of, is_ack, with_seq, ack_for, ack_seq_of}
use maknoon_trezor_core_rs.Thp.Crc.{crc32_ieee}
use maknoon_trezor_core_rs.Thp.Framing.{
  push_packet, packets_of, first_packet, cont_packet, cont_packets, segment,
}
use maknoon_trezor_core_rs.Thp.Aead.{seal, open_sealed}
use maknoon_trezor_core_rs.Thp.Noise.{
  read_init_response, read_completion_response, init_request_payload, with_ephemeral, as_array32,
}
use maknoon_trezor_core_rs.Thp.Session.{
  iv_from_nonce, seal_message, opened, open_message, encode_app_message, decode_app_message,
}
use maknoon_trezor_core_rs.Thp.Channel.{build_allocation_request, parse_allocation_response}
use maknoon_trezor_core_rs.Thp.Connection.Framed.{
  write_packets, write_framed, read_frame, read_framed,
}
use maknoon_trezor_core_rs.Thp.Connection.Abp.{
  send_ack, implicit_ack, await_ack, send_data, accept_data, await_data, recv_data,
}
use maknoon_trezor_core_rs.Thp.Connection.Flow.{allocate, await_allocation, handshake}
use maknoon_trezor_core_rs.Thp.Connection.App.{
  send_app, recv_app, await_reply, transceive, transceive_on,
}
use maknoon_trezor_core_rs.Thp.Connection.{new}
use maknoon_trezor_core_rs.Thp.Pairing.{PairingCodec, end_request, get_features}
use maknoon_trezor_core_rs.Thp.Pairing.CodeEntry.{CodeEntryCodec}
use maknoon_trezor_core_rs.Client.{Client, new_client, Entropy, to_array32}
use maknoon_trezor_core_rs.Client.Establish.{
  DeviceProperties, PairingEntropy, thp_probe, establish_paired_session,
}
use maknoon_trezor_core_rs.Client.Establish.Established.{
  KeepsSlot, Established, establish_paired_session-KeepsSlot,
}

abbrev sha512 : Bytes → Bytes
sha512 m = take 64 m

abbrev properties : Bytes → Decoded DeviceProperties
properties b = decoded (record {
  internal_model = b;
  protocol_version_major = 2;
  protocol_version_minor = 0;
  pairing_methods = 2 ∷ [];
})

abbrev codec : CodeEntryCodec
codec = record {
  pairing_request = λ host_name app_name. host_name;
  select_method = λ n. n ∷ [];
  commitment = decoded;
  challenge = λ b. b;
  cpace_trezor = decoded;
  cpace_host_tag = λ key tag. key;
  secret = decoded;
  credential_request = λ b. b;
  credential_response = decoded;
}

abbrev features : PairingCodec
features = record {
  get_features = [];
  features = λ b. decoded (record {
    device_id = some b;
    model = none;
    major_version = 2;
    minor_version = 8;
    patch_version = 0;
    initialized = none;
  });
}

abbrev entropy : Entropy
entropy = record { allocation_nonce = replicate 8 1; ephemeral_priv = replicate 32 2 }

abbrev pairing_entropy : PairingEntropy
pairing_entropy = record { challenge = replicate 16 3; host_priv = replicate 32 4; code_str = [] }

-- A device that opens a channel with a nonce, reports itself paired, ends the pairing phase and
-- sends its features.
abbrev client : Client
client = new_client (record {
  incoming =
      toy_opening (replicate 8 1) 1
        (toy_answer 0x20 0x04 1019 [] (toy_answer 0x28 0x14 17 (7 ∷ []) []));
  write_results = [];
  sent = [];
})

abbrev key32 : Bytes
key32 = replicate 32 9

establish_paired_session-KeepsSlot_example :
    KeepsSlot (λ r. Unit {0}) client (thp_probe toy_crypto properties key32 entropy client)
    × KeepsSlot
        (Established toy_crypto properties sha512 toy_messages codec features entropy
          pairing_entropy [] []
          (some (1 ∷ []))
          key32
          (new client.transport 244))
        client
        (establish_paired_session toy_crypto properties sha512 toy_messages codec features entropy
          pairing_entropy key32 [] []
          (some (1 ∷ []))
          client)
establish_paired_session-KeepsSlot_example =
    establish_paired_session-KeepsSlot toy_crypto properties sha512 toy_messages codec features
      entropy pairing_entropy [] [] (some (1 ∷ [])) client key32 key32

client_lem :
    is_ok (
      establish_paired_session toy_crypto properties sha512 toy_messages codec features entropy
        pairing_entropy key32 [] []
        (some (1 ∷ []))
        client)
    ≡ true
unfolding establish_paired_session to_array32 transceive_on end_request get_features handshake
    read_init_response read_completion_response init_request_payload with_ephemeral as_array32
    allocate await_allocation parse_allocation_response build_allocation_request transceive
    await_reply recv_app send_app recv_data await_data accept_data send_data await_ack implicit_ack
    send_ack read_framed read_frame write_framed write_packets segment push_packet packets_of
    cont_packets cont_packet first_packet crc32_ieee ack_for ack_seq_of is_ack seq_of with_seq
    decode_app_message encode_app_message open_message opened seal_message iv_from_nonce seal
    open_sealed
client_lem = refl
