-- ===== src/Thp/Pairing/Runs.antt =====
-- Runs of pairing with a device that approves, commits, reveals and issues a credential, and with one
-- that reveals another secret.
use maknoon_trezor_core_rs.Prelude.{ℕ, ◌≡◌, ◌↔◌, refl, some, [], ◌∷◌, Bytes, replicate, take}
use maknoon_trezor_core_rs.Error.{pairing, lit, ok, err}
use maknoon_trezor_core_rs.Proto.{decoded}
use maknoon_trezor_core_rs.Outcome.{done, Yields}
use maknoon_trezor_core_rs.Bip32.{Text, trim, trim_start, is_whitespace, parse_u32, parse_digits}
use maknoon_trezor_core_rs.Thp.Control.{seq_of, is_ack, with_seq, ack_for, ack_seq_of}
use maknoon_trezor_core_rs.Thp.Crc.{crc32_ieee}
use maknoon_trezor_core_rs.Thp.Framing.{
  push_packet, packets_of, first_packet, cont_packet, cont_packets, segment,
}
use maknoon_trezor_core_rs.Thp.Aead.{seal, open_sealed}
use maknoon_trezor_core_rs.Thp.Session.{
  iv_from_nonce, seal_message, opened, open_message, encode_app_message, decode_app_message,
}
use maknoon_trezor_core_rs.Thp.Toy.{
  state_of, toy_answer, toy_session, toy_aes, toy_crypto, toy_messages,
}
use maknoon_trezor_core_rs.Thp.Cpace.{HostCpace, format_code, host_cpace}
use maknoon_trezor_core_rs.Thp.Connection.{Connection, new}
use maknoon_trezor_core_rs.Thp.Connection.Framed.{
  write_packets, write_framed, read_frame, read_framed,
}
use maknoon_trezor_core_rs.Thp.Connection.Abp.{
  send_ack, implicit_ack, await_ack, send_data, accept_data, await_data, recv_data,
}
use maknoon_trezor_core_rs.Thp.Connection.App.{send_app, recv_app, await_reply, transceive}
use maknoon_trezor_core_rs.Thp.Connection.Exchange.{Returns}
use maknoon_trezor_core_rs.Thp.Pairing.CodeEntry.{
  CodeEntryCodec, entered_code, confirm_secret, run_codeentry_pairing,
}
use maknoon_trezor_core_rs.Thp.Pairing.Committed.{confirm_secret-Returns}
use maknoon_trezor_core_rs.Thp.Pairing.Choreography.{Answers, pairing_refused}
use maknoon_trezor_core_rs.Thp.Pairing.Transcript.{Course, run_codeentry_pairing_iff}

abbrev sha512 : Bytes → Bytes
sha512 m = take 64 m

-- Codecs that keep the one field of a message.
abbrev codec : CodeEntryCodec
codec = record {
  pairing_request = λ host_name app_name. host_name;
  select_method = λ n. n ∷ [];
  commitment = decoded;
  challenge = λ b. b;
  cpace_trezor = decoded;
  cpace_host_tag = λ key tag. key;
  secret = decoded;
  credential_request = λ b. b;
  credential_response = decoded;
}

abbrev key : Bytes
key = replicate 32 7

abbrev device : Bytes → Connection
device secret =
    record (new
      (record {
        incoming = toy_answer 0x20 0x04 1009 [] (
            toy_answer 0x28 0x14 1024 (1 ∷ 2 ∷ []) (
              toy_answer 0x20 0x04 1026 key
                (toy_answer 0x28 0x14 1028 secret (toy_answer 0x20 0x04 1017 (9 ∷ []) []))));
        write_results = [];
        sent = [];
      })
      64) { cid = 3; session = some toy_session }

abbrev exchange : ℕ → Bytes → Connection → Connection
exchange message_type body s = state_of (transceive toy_aes toy_messages message_type body s)

-- The text `000042`.
abbrev code_str : Text
code_str = 0x30 ∷ 0x30 ∷ 0x30 ∷ 0x30 ∷ 0x34 ∷ 0x32 ∷ []

abbrev host : HostCpace
host = host_cpace toy_crypto sha512 (format_code 42) (8 ∷ []) key (6 ∷ [])

abbrev committed_state : Bytes → Connection
committed_state secret = exchange 1010 (2 ∷ []) (exchange 1008 (0x68 ∷ []) (device secret))

abbrev keyed_state : Bytes → Connection
keyed_state secret = exchange 1025 (5 ∷ []) (committed_state secret)

abbrev revealed_state : Bytes → Connection
revealed_state secret = exchange 1027 host.host_public (keyed_state secret)

honest :
    Answers toy_crypto sha512 toy_messages codec
      (8 ∷ [])
      (0x68 ∷ [])
      []
      code_str
      (5 ∷ [])
      (6 ∷ [])
      (device (1 ∷ 2 ∷ []))
      (revealed_state (1 ∷ 2 ∷ []))
      (1 ∷ 2 ∷ [])
      (1 ∷ 2 ∷ [])
unfolding transceive await_reply recv_app send_app recv_data await_data accept_data send_data
    await_ack implicit_ack send_ack read_framed read_frame write_framed write_packets segment
    push_packet packets_of cont_packets cont_packet first_packet crc32_ieee ack_for ack_seq_of
    is_ack seq_of with_seq decode_app_message encode_app_message open_message opened seal_message
    iv_from_nonce seal open_sealed entered_code trim trim_start is_whitespace parse_u32 parse_digits
    host_cpace
honest = record {
  s1 = exchange 1008 (0x68 ∷ []) (device (1 ∷ 2 ∷ []));
  s2 = committed_state (1 ∷ 2 ∷ []);
  s3 = keyed_state (1 ∷ 2 ∷ []);
  approval = [];
  commitment_body = 1 ∷ 2 ∷ [];
  key_body = key;
  secret_body = (1 ∷ 2 ∷ []);
  key = key;
  code = 42;
  approved = refl;
  committed = refl;
  commitment_lem = refl;
  challenged = refl;
  key_lem = refl;
  key_length = refl;
  entered = refl;
  revealed = refl;
  secret_lem = refl;
}

liar :
    Answers toy_crypto sha512 toy_messages codec
      (8 ∷ [])
      (0x68 ∷ [])
      []
      code_str
      (5 ∷ [])
      (6 ∷ [])
      (device (3 ∷ []))
      (revealed_state (3 ∷ []))
      (1 ∷ 2 ∷ [])
      (3 ∷ [])
unfolding transceive await_reply recv_app send_app recv_data await_data accept_data send_data
    await_ack implicit_ack send_ack read_framed read_frame write_framed write_packets segment
    push_packet packets_of cont_packets cont_packet first_packet crc32_ieee ack_for ack_seq_of
    is_ack seq_of with_seq decode_app_message encode_app_message open_message opened seal_message
    iv_from_nonce seal open_sealed entered_code trim trim_start is_whitespace parse_u32 parse_digits
    host_cpace
liar = record {
  s1 = exchange 1008 (0x68 ∷ []) (device (3 ∷ []));
  s2 = committed_state (3 ∷ []);
  s3 = keyed_state (3 ∷ []);
  approval = [];
  commitment_body = 1 ∷ 2 ∷ [];
  key_body = key;
  secret_body = (3 ∷ []);
  key = key;
  code = 42;
  approved = refl;
  committed = refl;
  commitment_lem = refl;
  challenged = refl;
  key_lem = refl;
  key_length = refl;
  entered = refl;
  revealed = refl;
  secret_lem = refl;
}

pairing_refused_example :
    run_codeentry_pairing toy_crypto sha512 toy_messages codec
      (8 ∷ [])
      (4 ∷ [])
      (0x68 ∷ [])
      []
      code_str
      (5 ∷ [])
      (6 ∷ [])
      (device (3 ∷ []))
    ≡ done
        (err (pairing (lit "device secret does not match its commitment" ∷ [])))
        (revealed_state (3 ∷ []))
pairing_refused_example =
    pairing_refused toy_crypto sha512 toy_messages codec (8 ∷ []) (4 ∷ []) (0x68 ∷ []) [] code_str
      (5 ∷ []) (6 ∷ []) (device (3 ∷ [])) (revealed_state (3 ∷ [])) (1 ∷ 2 ∷ []) (3 ∷ []) liar
      (λ e. absurd (cc))

issued_lem :
    transceive toy_aes toy_messages 1016 (4 ∷ []) (revealed_state (1 ∷ 2 ∷ []))
    ≡ done (ok (1017, 9 ∷ [])) (exchange 1016 (4 ∷ []) (revealed_state (1 ∷ 2 ∷ [])))
unfolding transceive await_reply recv_app send_app recv_data await_data accept_data send_data
    await_ack implicit_ack send_ack read_framed read_frame write_framed write_packets segment
    push_packet packets_of cont_packets cont_packet first_packet crc32_ieee ack_for ack_seq_of
    is_ack seq_of with_seq decode_app_message encode_app_message open_message opened seal_message
    iv_from_nonce seal open_sealed entered_code trim trim_start is_whitespace parse_u32 parse_digits
    host_cpace
issued_lem = refl

run_codeentry_pairing_iff_example :
    (run_codeentry_pairing toy_crypto sha512 toy_messages codec
        (8 ∷ [])
        (4 ∷ [])
        (0x68 ∷ [])
        []
        code_str
        (5 ∷ [])
        (6 ∷ [])
        (device (1 ∷ 2 ∷ []))
      ≡ done (ok (9 ∷ [])) (exchange 1016 (4 ∷ []) (revealed_state (1 ∷ 2 ∷ []))))
    ↔ Course toy_crypto sha512 toy_messages codec
        (8 ∷ [])
        (4 ∷ [])
        (0x68 ∷ [])
        []
        code_str
        (5 ∷ [])
        (6 ∷ [])
        (device (1 ∷ 2 ∷ []))
        (9 ∷ [])
        (exchange 1016 (4 ∷ []) (revealed_state (1 ∷ 2 ∷ [])))
run_codeentry_pairing_iff_example =
    run_codeentry_pairing_iff toy_crypto sha512 toy_messages codec (8 ∷ []) (4 ∷ []) (0x68 ∷ []) []
      code_str (5 ∷ []) (6 ∷ []) (device (1 ∷ 2 ∷ []))
      (exchange 1016 (4 ∷ []) (revealed_state (1 ∷ 2 ∷ []))) (9 ∷ [])

-- The honest run is such a course.
honest-Course :
    Course toy_crypto sha512 toy_messages codec
      (8 ∷ [])
      (4 ∷ [])
      (0x68 ∷ [])
      []
      code_str
      (5 ∷ [])
      (6 ∷ [])
      (device (1 ∷ 2 ∷ []))
      (9 ∷ [])
      (exchange 1016 (4 ∷ []) (revealed_state (1 ∷ 2 ∷ [])))
honest-Course =
    (revealed_state (1 ∷ 2 ∷ []), 1 ∷ 2 ∷ [], 1 ∷ 2 ∷ [], 9 ∷ [], honest, refl, issued_lem, refl)

confirm_secret-Returns_example :
    Yields (Returns (λ secret. toy_crypto.sha256 secret ≡ 1 ∷ 2 ∷ []) (keyed_state (1 ∷ 2 ∷ []))) (
      confirm_secret toy_crypto sha512 toy_messages codec
        (1 ∷ 2 ∷ [])
        host
        (keyed_state (1 ∷ 2 ∷ [])))
confirm_secret-Returns_example =
    confirm_secret-Returns toy_crypto sha512 toy_messages codec (1 ∷ 2 ∷ []) host
      (keyed_state (1 ∷ 2 ∷ []))
