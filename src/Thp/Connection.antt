-- ===== src/Thp/Connection.antt =====
-- trezor-core/src/thp/connection.rs: the state of the connection driver. The transport
-- (trezor-core/src/transport.rs) is implemented by the host: it is what its successive calls
-- return, for any device and any interleaving, with a record of what was written.
pub mod Framed
pub mod Abp
pub mod Flow
pub mod App
pub mod Moves
pub mod Sync
pub mod Replies
pub mod Exchange
pub mod Delivery
pub mod Arrivals
pub mod Liveness
pub mod Setup
pub mod Handshake
mod HandshakeRuns
mod Runs
use maknoon_trezor_core_rs.Prelude.{
  ℕ, String, Bool, Option, none, some, List, [], ◌∷◌, ◌++◌, Bytes, get_or, ◌==◌, if◌then◌else◌,
}
use maknoon_trezor_core_rs.Error.{
  TransportError, TrezorError, thp, transport_busy, lit, num, from_transport_error, Result, ok, err,
}
use maknoon_trezor_core_rs.Outcome.{Op, done}
use maknoon_trezor_core_rs.Thp.Framing.{broadcast_cid}
use maknoon_trezor_core_rs.Thp.Session.{Session}

pub data Arrival : Type 0 where
  chunk : Bytes → Arrival
  failed : TransportError → Arrival

-- `read_chunk` returns the arrivals in order and waits after the last. `write_chunk` returns the
-- write results in order and succeeds after the last.
pub record Transport : Type 0 where
  pub incoming : List Arrival
  pub write_results : List (Option TransportError)
  pub sent : List Bytes

-- A passphrase, if the host has one, and whether it is entered on the device.
abbrev pub SeededKey : Type 0
SeededKey = Option (List ℕ) × Bool

pub record Connection : Type 0 where
  pub transport : Transport
  pub packet_size : ℕ
  pub cid : ℕ
  pub send_seq : ℕ
  pub recv_seq : ℕ
  pub session : Option Session
  pub active_session_id : ℕ
  pub seeded_with : Option SeededKey
  pub pending_data : Option (ℕ × Bytes)

abbrev pub management_session_id : ℕ
management_session_id = 0

abbrev pub seeded_session_id : ℕ
seeded_session_id = 1

abbrev pub new : Transport → ℕ → Connection
new transport packet_size = record {
  transport = transport;
  packet_size = packet_size;
  cid = broadcast_cid;
  send_seq = 0;
  recv_seq = 0;
  session = none;
  active_session_id = management_session_id;
  seeded_with = none;
  pending_data = none;
}

abbrev pub set_session : Session → Connection → Connection
set_session session self = record self { session = some session }

-- The state with the reads that are left, and with one more packet written.
abbrev pub with_incoming : List Arrival → Connection → Connection
with_incoming incoming self = record self {
  transport = record self.transport { incoming = incoming };
}

abbrev pub written : Bytes → List (Option TransportError) → Connection → Connection
written packet write_results self = record self {
  transport = record self.transport {
    write_results = write_results;
    sent = self.transport.sent ++ (packet ∷ []);
  };
}

abbrev pub write_chunk_result : List (Option TransportError) → Bytes → Op Connection (Unit {0})
write_chunk_result [] packet self = done (ok tt) (written packet [] self)
write_chunk_result (none ∷ rest) packet self = done (ok tt) (written packet rest self)
write_chunk_result (some e ∷ rest) packet self =
    done (err (from_transport_error e))
      (record self { transport = record self.transport { write_results = rest } })

abbrev pub write_chunk : Bytes → Op Connection (Unit {0})
write_chunk packet self = write_chunk_result self.transport.write_results packet self

abbrev pub transport_error_detail : ℕ → String
transport_error_detail code =
    if code == 2
    then "the channel is unallocated — the device released it; reconnect to allocate a new one"
    else if code == 3
    then "decryption failed (bad authentication tag); the channel must be re-established"
    else if code == 5
    then "the device is locked — unlock your Trezor (enter your PIN on the device) and retry"
    else "unrecognized THP transport error"

unfoldable pub decode_transport_error : Bytes → TrezorError
decode_transport_error payload =
    let code = get_or payload 0 0 in
    if code == 1
    then transport_busy
    else thp
        (lit "THP transport error " ∷ num code ∷ lit ": " ∷ lit (transport_error_detail code) ∷ [])
