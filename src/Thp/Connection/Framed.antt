-- ===== src/Thp/Connection/Framed.antt =====
-- `write_framed` and `read_framed` of trezor-core/src/thp/connection.rs.
use maknoon_trezor_core_rs.Prelude.{
  ℕ, Option, none, some, List, [], ◌∷◌, Bytes, bit_and, ◌==◌, if◌then◌else◌,
}
use maknoon_trezor_core_rs.Error.{Result, ok, err, from_transport_error}
use maknoon_trezor_core_rs.Outcome.{Outcome, Op, done, waiting, ◌>>=◌, ◌>>◌, lift, get}
use maknoon_trezor_core_rs.Thp.Control.{transport_error}
use maknoon_trezor_core_rs.Thp.Framing.{Reassembler, new, push_packet, segment}
use maknoon_trezor_core_rs.Thp.Connection.{
  Arrival, chunk, failed, Connection, with_incoming, write_chunk, decode_transport_error,
}

abbrev pub continuation_bit : ℕ
continuation_bit = 0x80

unfoldable pub write_packets : List Bytes → Op Connection (Unit {0})
write_packets [] = lift (ok tt)
write_packets (packet ∷ rest) = write_chunk packet >> write_packets rest

unfoldable pub write_framed : ℕ → Bytes → Op Connection (Unit {0})
unfolding write_packets
write_framed ctrl payload = do
  self ← get
  packets ← lift (segment self.packet_size self.cid ctrl payload)
  write_packets packets

-- The control byte of the latest initiation packet.
abbrev pub latest : ℕ → ℕ → ℕ
latest first ctrl = if bit_and first continuation_bit == 0 then first else ctrl

-- What a packet's outcome makes of the loop: `next` is the loop on the rest of the reads.
abbrev pub read_step :
    Result (Option Bytes)
    → ℕ
    → List Arrival
    → Option (Result (ℕ × Bytes) × List Arrival)
    → Option (Result (ℕ × Bytes) × List Arrival)
read_step (err e) ctrl rest next = some (err e, rest)
read_step (ok none) ctrl rest next = next
read_step (ok (some payload)) ctrl rest next =
    if ctrl == transport_error
    then some (err (decode_transport_error payload), rest)
    else some (ok (ctrl, payload), rest)

-- The loop of `read_framed`, with the reads that it leaves; `none` once it waits.
unfoldable pub read_frame :
    List Arrival → Reassembler → ℕ → Option (Result (ℕ × Bytes) × List Arrival)
read_frame [] reasm ctrl = none
read_frame (failed e ∷ rest) reasm ctrl = some (err (from_transport_error e), rest)
read_frame (chunk [] ∷ rest) reasm ctrl = read_frame rest reasm ctrl
read_frame (chunk (first ∷ bytes) ∷ rest) reasm ctrl =
    let pushed = push_packet reasm (first ∷ bytes) in
    read_step pushed.0 (latest first ctrl) rest (read_frame rest pushed.1 (latest first ctrl))

abbrev pub received :
    Connection → Option (Result (ℕ × Bytes) × List Arrival) → Outcome Connection (ℕ × Bytes)
received self none = waiting (with_incoming [] self)
received self (some (r, rest)) = done r (with_incoming rest self)

unfoldable pub read_framed : Op Connection (ℕ × Bytes)
unfolding read_frame
read_framed self = received self (read_frame self.transport.incoming new 0)
