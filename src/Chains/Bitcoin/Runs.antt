-- ===== src/Chains/Bitcoin/Runs.antt =====
-- Runs of the signing of a PSBT: a device that asks for an input, two outputs and the previous
-- transaction, and returns a signature.
use maknoon_trezor_core_rs.Prelude.{◌≡◌, refl, true, Option, none, some, [], ◌∷◌, get_elem?}
use maknoon_trezor_core_rs.Error.{Result, ok}
use maknoon_trezor_core_rs.Outcome.{Outcome, done, waiting, out_of_fuel}
use maknoon_trezor_core_rs.Bip32.{Text}
use maknoon_trezor_core_rs.Thp.Control.{seq_of, is_ack, with_seq, ack_for, ack_seq_of}
use maknoon_trezor_core_rs.Thp.Crc.{crc32_ieee}
use maknoon_trezor_core_rs.Thp.Framing.{
  push_packet, packets_of, first_packet, cont_packet, cont_packets, segment,
}
use maknoon_trezor_core_rs.Thp.Aead.{seal, open_sealed}
use maknoon_trezor_core_rs.Thp.Session.{
  iv_from_nonce, seal_message, opened, open_message, encode_app_message, decode_app_message,
}
use maknoon_trezor_core_rs.Thp.Connection.Framed.{
  write_packets, write_framed, read_frame, read_framed,
}
use maknoon_trezor_core_rs.Thp.Connection.Abp.{
  send_ack, implicit_ack, await_ack, send_data, accept_data, await_data, recv_data,
}
use maknoon_trezor_core_rs.Thp.Connection.App.{
  send_app, recv_app, await_reply, transceive, transceive_on,
}
use maknoon_trezor_core_rs.Thp.Toy.{toy_aes, toy_messages, toy_answer_on, toy_session}
use maknoon_trezor_core_rs.Thp.Connection.{Connection, new}
use maknoon_trezor_core_rs.Chains.Toy.{toy_crate, toy_sign_tx, toy_psbt}
use maknoon_trezor_core_rs.Chains.Bitcoin.{coin_name, script_type_for_path}
use maknoon_trezor_core_rs.Chains.Bitcoin.Psbt.{TxOut, TxOutput, paytowitness}
use maknoon_trezor_core_rs.Chains.Bitcoin.Build.{
  amount_of, build_input_ack, find_among, find_prev_tx, build_output_ack, build_prev_meta_ack,
}
use maknoon_trezor_core_rs.Chains.Bitcoin.SignTx.{answer_requests, sign_psbt}
use maknoon_trezor_core_rs.Chains.Bitcoin.Requests.{insert, ack_of, merge, merge_at}
use maknoon_trezor_core_rs.Chains.Bitcoin.Acks.{
  Searched, find_prev_tx-Searched, Destination, build_output_ack-Destination,
}

-- The requests: input 0, output 0, output 1, the previous transaction's data, and the end with the
-- signature of input 0.
abbrev device : Connection
device =
    record (new
      (record {
        incoming = toy_answer_on 1 0x20 0x04 21 (0 ∷ 0 ∷ []) (
            toy_answer_on 1 0x28 0x14 21 (1 ∷ 0 ∷ []) (
              toy_answer_on 1 0x20 0x04 21 (1 ∷ 1 ∷ []) (
                toy_answer_on 1 0x28 0x14 21 (2 ∷ 0 ∷ 9 ∷ 8 ∷ [])
                  (toy_answer_on 1 0x20 0x04 21 (3 ∷ 0 ∷ 0x30 ∷ 0x31 ∷ []) []))));
        write_results = [];
        sent = [];
      })
      64) { cid = 3; session = some toy_session }

abbrev text_of : Outcome Connection Text → Option (Result Text)
text_of (done r s) = some r
text_of (waiting s) = none
text_of (out_of_fuel s) = none

-- The device's signature comes back under the first key of the input.
signed :
    text_of (sign_psbt toy_crate toy_sign_tx toy_aes toy_messages 1 [] 1 device)
    ≡ some (ok (2 ∷ 4 ∷ 0x30 ∷ 0x31 ∷ 1 ∷ []))
unfolding sign_psbt answer_requests merge merge_at ack_of insert build_input_ack amount_of
    build_output_ack build_prev_meta_ack find_prev_tx find_among coin_name script_type_for_path
    transceive_on transceive await_reply recv_app send_app recv_data await_data accept_data
    send_data await_ack implicit_ack send_ack read_framed read_frame write_framed write_packets
    segment push_packet packets_of cont_packets cont_packet first_packet crc32_ieee ack_for
    ack_seq_of is_ack seq_of with_seq decode_app_message encode_app_message open_message opened
    seal_message iv_from_nonce seal open_sealed
signed = refl

find_prev_tx-Searched_example :
    Searched toy_crate toy_psbt.inputs (9 ∷ 8 ∷ []) (find_prev_tx toy_crate toy_psbt (9 ∷ 8 ∷ []))
find_prev_tx-Searched_example = find_prev_tx-Searched toy_crate toy_psbt (9 ∷ 8 ∷ [])

abbrev change : TxOutput
change = record {
  address = none;
  address_n = 0x80000054 ∷ 5 ∷ [];
  amount = 30;
  script_type = paytowitness;
}

build_output_ack-Destination_example :
    (txout : TxOut) × (get_elem? toy_psbt.unsigned_tx.output 1 ≡ some txout)
    × (change.amount ≡ txout.value)
    × Destination toy_crate toy_psbt 1 true txout change
unfolding build_output_ack script_type_for_path
build_output_ack-Destination_example =
    build_output_ack-Destination toy_crate toy_psbt 1 true change refl
