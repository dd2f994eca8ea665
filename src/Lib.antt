-- ===== src/Lib.antt =====
-- The crate `trezor-core`: a host's client of a Trezor over the Trezor Host Protocol. A call of
-- the client goes through the connection in its slot (Client), which exchanges application
-- messages (Thp/Connection/App) in an encrypted session (Thp/Session), under an alternating-bit
-- protocol (Thp/Connection/Abp), as checksummed packets (Thp/Framing) over the host's
-- transport. A connection is opened by channel allocation (Thp/Channel) and a handshake
-- (Thp/Noise), and a device is paired by a code (Thp/Pairing), from which CPace (Thp/Cpace)
-- derives a point of Curve25519 (Thp/Elligator2).
--
-- Bytes and machine integers are native numbers; where the code can wrap around, the model
-- writes `% 2 ^ w`. Texts are lists of code points. An error is a value of `TrezorError`, whose
-- text is the list of the parts that the code formats.
--
--   Prelude                 shared names, list, bit and byte lemmas
--   Error, Proto            trezor-core/src/error.rs, transport.rs; what prost's decoders return
--   Outcome                 what an asynchronous call comes to; calls in sequence
--   Bip32                   trezor-core/src/bip32.rs
--   Thp/Control, Thp/Crc    `control` and `crc32_ieee` of trezor-core/src/thp/framing.rs
--   Thp/Framing             `segment`, `Reassembler` of trezor-core/src/thp/framing.rs
--   Thp/Aead, Thp/Session   trezor-core/src/thp/aead.rs, session.rs
--   Thp/Channel             trezor-core/src/thp/channel.rs
--   Thp/Noise               trezor-core/src/thp/noise.rs, the device's side of its tests included
--   Thp/Connection          trezor-core/src/thp/connection.rs
--   Thp/Elligator2          trezor-core/src/thp/elligator2.rs; Spec is the map on plain numbers
--   Thp/Cpace               trezor-core/src/thp/cpace.rs
--   Thp/Pairing             trezor-core/src/thp/pairing.rs, the CodeEntry phases in a child
--   Chains/Ethereum         trezor-core/src/chains/ethereum.rs, the encoder of its tests included
--   Chains/Bitcoin          trezor-core/src/chains/bitcoin.rs; Psbt, Build, Requests, SignTx are `sign_psbt`
--   Chains/Solana           trezor-core/src/chains/solana.rs
--   Chains/Tron             trezor-core/src/chains/tron.rs
--   Client                  trezor-core/src/client.rs, types.rs; the operations of each chain in its
--                           children, `thp_probe` and `establish_paired_session` in Establish
--   Thp/Toy, Chains/Toy, Runs  concrete functions for the parameters, and runs
--
-- The transport is the list of what its successive calls return, so every device and every
-- loss, duplication or failure is one such list. A call that reads behind the end of the list
-- waits. A call's outcome is a result with the new state, or waiting, or the cut-off of a loop.
--
-- The cryptographic crates and the generated protobuf codecs are parameters: records whose
-- fields are the operations and the laws that the code relies on. Random bytes are arguments.
-- The mutex of the client makes each of its calls one step; `thp_probe` and
-- `establish_paired_session`, which do not take it, are modelled as calls that no other call
-- runs beside. The types of the `bitcoin` crate are its public fields, and what the crate
-- computes is a parameter.
--
-- Fuel: `cont_packets` has as much as there are bytes, and a packet carries one at least. The
-- loops of `send_data` and `recv_data` have one more than there are reads, and a round takes a
-- read; that of `transceive` has two more, and the loop of `sign_psbt` one more, since each
-- exchange takes a read. `rlp_items` has as much as there are bytes, and an item has one at
-- least. `le_bytes` has the 8 bytes of a `usize`.
--
-- Not modelled: generated code, the bindings and the mobile packaging, which have no logic of
-- their own; a random generator that fails; the features that the Tron build flag turns off.
pub mod Bip32
pub mod Chains
pub mod Client
pub mod Error
pub mod Outcome
pub mod Prelude
pub mod Proto
pub mod Thp
