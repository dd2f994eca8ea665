-- ===== src/Client/Runs.antt =====
-- The theorems on the client at concrete inputs: a slot that holds a connection of the standard
-- wallet, over a transport that fails at the first read, or to a device that opens a new session.
use maknoon_trezor_core_rs.Prelude.{
  ◌≡◌, refl, true, false, none, some, [], ◌∷◌, Bytes, replicate, codes,
}
use maknoon_trezor_core_rs.Error.{io, lit}
use maknoon_trezor_core_rs.Proto.{decoded}
use maknoon_trezor_core_rs.Outcome.{Yields, get}
use maknoon_trezor_core_rs.Thp.Toy.{
  toy_crypto, toy_messages, toy_opening, toy_answer, toy_answer_on, is_ok,
}
use maknoon_trezor_core_rs.Thp.Control.{seq_of, is_ack, with_seq, ack_for, ack_seq_of}
use maknoon_trezor_core_rs.Thp.Crc.{crc32_ieee}
use maknoon_trezor_core_rs.Thp.Framing.{
  push_packet, packets_of, first_packet, cont_packet, cont_packets, segment,
}
use maknoon_trezor_core_rs.Thp.Aead.{seal, open_sealed}
use maknoon_trezor_core_rs.Thp.Noise.{
  read_init_response, read_completion_response, init_request_payload, with_ephemeral, as_array32,
}
use maknoon_trezor_core_rs.Thp.Session.{
  iv_from_nonce, seal_message, opened, open_message, encode_app_message, decode_app_message,
}
use maknoon_trezor_core_rs.Thp.Channel.{build_allocation_request, parse_allocation_response}
use maknoon_trezor_core_rs.Thp.Connection.Framed.{
  write_packets, write_framed, read_frame, read_framed,
}
use maknoon_trezor_core_rs.Thp.Connection.Abp.{
  send_ack, implicit_ack, await_ack, send_data, accept_data, await_data, recv_data,
}
use maknoon_trezor_core_rs.Thp.Connection.Flow.{allocate, await_allocation, handshake}
use maknoon_trezor_core_rs.Thp.Connection.App.{
  send_app, recv_app, await_reply, transceive, create_seeded_session,
}
use maknoon_trezor_core_rs.Thp.Connection.{Transport, failed, Connection, new}
use maknoon_trezor_core_rs.Thp.Pairing.{Features, PairingCodec, end_request}
use maknoon_trezor_core_rs.Chains.Ethereum.Messages.{TxRequest, EthereumCodec, account_path}
use maknoon_trezor_core_rs.Chains.Bitcoin
use maknoon_trezor_core_rs.Chains.Solana
use maknoon_trezor_core_rs.Chains.Tron
use maknoon_trezor_core_rs.Client.Psbt.{sign_psbt, sign_psbt-Settles}
use maknoon_trezor_core_rs.Chains.Toy.{toy_crate, toy_sign_tx, toy_bitcoin, toy_solana, toy_tron}
use maknoon_trezor_core_rs.Client.{
  Client, standard, on_device, host, Entropy, ensure_conn, open_paired_connection, pinned_op,
}
use maknoon_trezor_core_rs.Client.Operations.{
  get_ethereum_address, sign_ethereum_tx, sign_ethereum_message,
}
use maknoon_trezor_core_rs.Client.Altcoins.{
  get_solana_address, sign_solana_tx, sign_solana_message, get_tron_address, sign_tron_tx,
}
use maknoon_trezor_core_rs.Client.AltcoinsSettled.{solana_account-Settles, tron_account-Settles}
use maknoon_trezor_core_rs.Client.Bitcoin.{
  get_bitcoin_account_xpub, get_bitcoin_master_fingerprint, sign_bitcoin_message,
}
use maknoon_trezor_core_rs.Client.BitcoinSettled.{bitcoin_account-Settles}
use maknoon_trezor_core_rs.Client.Wallet.{Settles, ForWallet, ensure_conn-seeded, pinned_op-Settles}
use maknoon_trezor_core_rs.Client.Paths.{PathOrSettles}
use maknoon_trezor_core_rs.Client.Settled.{ethereum_account-Settles}

abbrev broken : Transport
broken = record { incoming = failed (io (lit "gone" ∷ [])) ∷ []; write_results = []; sent = [] }

abbrev standard_conn : Connection
standard_conn = record (new broken 244) { cid = 3; seeded_with = some (none, false) }

abbrev client : Client
client = record { transport = broken; pinned = some standard_conn }

abbrev entropy : Entropy
entropy = record { allocation_nonce = replicate 8 1; ephemeral_priv = replicate 32 2 }

abbrev no_features : Features
no_features = record {
  device_id = none;
  model = none;
  major_version = 2;
  minor_version = 8;
  patch_version = 0;
  initialized = none;
}

abbrev toy_features : PairingCodec
toy_features = record { get_features = []; features = λ b. decoded no_features }

abbrev toy_request : TxRequest
toy_request = record { signature_v = some 28; signature_r = some []; signature_s = some [] }

abbrev toy_ethereum : EthereumCodec
toy_ethereum = record {
  get_address = λ path. [];
  address = λ b. decoded (some b);
  get_public_key = λ path. [];
  public_key = λ b. decoded b;
  sign_message = λ path m. m;
  message_signature = λ b. decoded b;
  sign_tx = λ tx. [];
  tx_request = λ b. decoded toy_request;
}

abbrev key32 : Bytes
key32 = replicate 32 9

-- A device that opens a channel, ends the pairing phase and creates the session of another wallet
-- than the one in the slot.
abbrev reopening : Client
reopening = record {
  transport = record {
    incoming =
        toy_opening (replicate 8 1) 1
          (toy_answer 0x20 0x04 1019 [] (toy_answer_on 1 0x28 0x14 2 [] []));
    write_results = [];
    sent = [];
  };
  pinned = some standard_conn;
}

ensure_conn-seeded_example :
    Yields
      (λ conn t.
        ForWallet toy_crypto decoded toy_messages key32 [] entropy (none, true) reopening conn)
      (ensure_conn toy_crypto decoded toy_messages key32 [] on_device entropy reopening)
ensure_conn-seeded_example =
    ensure_conn-seeded toy_crypto decoded toy_messages key32 [] entropy on_device reopening

reopening_lem :
    is_ok (ensure_conn toy_crypto decoded toy_messages key32 [] on_device entropy reopening) ≡ true
unfolding ensure_conn open_paired_connection end_request create_seeded_session handshake
    read_init_response read_completion_response init_request_payload with_ephemeral as_array32
    allocate await_allocation parse_allocation_response build_allocation_request transceive
    await_reply recv_app send_app recv_data await_data accept_data send_data await_ack implicit_ack
    send_ack read_framed read_frame write_framed write_packets segment push_packet packets_of
    cont_packets cont_packet first_packet crc32_ieee ack_for ack_seq_of is_ack seq_of with_seq
    decode_app_message encode_app_message open_message opened seal_message iv_from_nonce seal
    open_sealed
reopening_lem = refl

pinned_op-Settles_example :
    Settles
      (none, false)
      (pinned_op toy_crypto decoded toy_messages key32 [] standard entropy get client)
unfolding Yields
pinned_op-Settles_example =
    pinned_op-Settles toy_crypto decoded toy_messages key32 [] entropy standard get client
      (λ s. refl)

ethereum_account-Settles_example :
    PathOrSettles (some (codes "m/44'/60'/0'/0/1")) (account_path 0) (host (codes "a")) client (
      get_ethereum_address toy_crypto decoded toy_messages toy_features toy_ethereum key32 []
        entropy
        (host (codes "a"))
        0
        (some (codes "m/44'/60'/0'/0/1"))
        client)
    × PathOrSettles (some (codes "m/44'/60'/0'/0/1")) (account_path 0) (host (codes "a")) client (
        sign_ethereum_tx toy_crypto decoded toy_messages toy_features toy_ethereum key32 [] entropy
          (host (codes "a"))
          (2 ∷ [])
          0
          (some (codes "m/44'/60'/0'/0/1"))
          client)
    × PathOrSettles (some (codes "m/44'/60'/0'/0/1")) (account_path 0) (host (codes "a")) client (
        sign_ethereum_message toy_crypto decoded toy_messages toy_features toy_ethereum key32 []
          entropy
          (host (codes "a"))
          0
          (1 ∷ [])
          (some (codes "m/44'/60'/0'/0/1"))
          client)
ethereum_account-Settles_example =
    ethereum_account-Settles toy_crypto decoded toy_messages toy_features toy_ethereum key32 []
      entropy client (host (codes "a")) 0 (some (codes "m/44'/60'/0'/0/1")) (2 ∷ []) (1 ∷ [])

solana_account-Settles_example :
    PathOrSettles none (Solana.account_path 2) on_device client (
      get_solana_address toy_crypto decoded toy_messages key32 [] entropy toy_solana on_device 2
        none client)
    × PathOrSettles none (Solana.account_path 2) on_device client (
        sign_solana_tx toy_crypto decoded toy_messages key32 [] entropy toy_solana on_device
          (1 ∷ [])
          2
          none
          client)
    × PathOrSettles none (Solana.account_path 2) on_device client (
        sign_solana_message toy_crypto decoded toy_messages key32 [] entropy toy_solana on_device
          (1 ∷ [])
          2
          none
          client)
solana_account-Settles_example =
    solana_account-Settles toy_crypto decoded toy_messages key32 [] entropy toy_solana client
      on_device 2 none (1 ∷ [])

tron_account-Settles_example :
    PathOrSettles (some (codes "m/x")) (Tron.account_path 0) standard client (
      get_tron_address toy_crypto decoded toy_messages key32 [] entropy toy_tron standard 0
        (some (codes "m/x"))
        client)
    × PathOrSettles (some (codes "m/x")) (Tron.account_path 0) standard client (
        sign_tron_tx toy_crypto decoded toy_messages key32 [] entropy toy_tron standard
          (1 ∷ [])
          0
          (some (codes "m/x"))
          client)
tron_account-Settles_example =
    tron_account-Settles toy_crypto decoded toy_messages key32 [] entropy toy_tron client standard 0
      (some (codes "m/x")) (1 ∷ [])

bitcoin_account-Settles_example :
    PathOrSettles none (Bitcoin.account_path 0 1) on_device client (
      get_bitcoin_account_xpub toy_crypto decoded toy_messages toy_bitcoin key32 [] entropy
        on_device 0 1 none client)
    × Settles
        (none, true)
        (get_bitcoin_master_fingerprint toy_crypto decoded toy_messages toy_bitcoin key32 [] entropy
          on_device client)
    × Settles
        (none, true)
        (sign_bitcoin_message toy_crypto decoded toy_messages toy_bitcoin key32 [] entropy on_device
          (Bitcoin.account_path 0 1)
          (1 ∷ [])
          1
          client)
bitcoin_account-Settles_example =
    bitcoin_account-Settles toy_crypto decoded toy_messages toy_bitcoin key32 [] entropy client
      on_device 0 1 none (Bitcoin.account_path 0 1) (1 ∷ [])

sign_psbt-Settles_example :
    Settles
      (none, true)
      (sign_psbt toy_crypto decoded toy_messages toy_crate toy_sign_tx key32 [] entropy on_device []
        [] [] 0 1 none client)
sign_psbt-Settles_example =
    sign_psbt-Settles toy_crypto decoded toy_messages toy_crate toy_sign_tx key32 [] entropy client
      on_device [] [] [] 0 1 none
