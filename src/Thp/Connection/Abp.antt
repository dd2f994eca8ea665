-- ===== src/Thp/Connection/Abp.antt =====
-- The Alternating Bit Protocol of trezor-core/src/thp/connection.rs. The loops are on fuel: every
-- round takes a read at least.
use maknoon_trezor_core_rs.Prelude.{
  ℕ, zero, suc, Option, none, some, [], Bytes, length, bit_xor, ◌==◌, if◌then◌else◌,
}
use maknoon_trezor_core_rs.Error.{ok}
use maknoon_trezor_core_rs.Outcome.{Op, done, out_of_fuel, ◌>>=◌, ◌>>◌, lift, get, modify}
use maknoon_trezor_core_rs.Thp.Control.{with_seq, seq_of, is_ack, ack_seq_of, ack_for}
use maknoon_trezor_core_rs.Thp.Connection.{Connection}
use maknoon_trezor_core_rs.Thp.Connection.Framed.{write_framed, read_framed}

unfoldable pub send_ack : ℕ → Op Connection (Unit {0})
send_ack acked_seq = write_framed (ack_for acked_seq) []

abbrev pub flip_send : Connection → Connection
flip_send self = record self { send_seq = bit_xor self.send_seq 1 }

abbrev pub flip_recv : Connection → Connection
flip_recv self = record self { recv_seq = bit_xor self.recv_seq 1 }

-- The device sent data in the place of the ACK.
unfoldable pub implicit_ack : ℕ → Bytes → Op Connection (Unit {0})
unfolding send_ack
implicit_ack rctrl rpayload = do
  modify flip_send
  send_ack (seq_of rctrl)
  self ← get
  if seq_of rctrl == self.recv_seq
      then modify (λ s. record (flip_recv s) { pending_data = some (rctrl, rpayload) })
      else lift (ok tt)

-- The loop of `send_data`.
unfoldable pub await_ack : ℕ → Op Connection (Unit {0})
unfolding implicit_ack
await_ack zero = out_of_fuel
await_ack (suc fuel) = do
  (rctrl, rpayload) ← read_framed
  self ← get
  if is_ack rctrl
      then if ack_seq_of rctrl == self.send_seq then modify flip_send else await_ack fuel
      else implicit_ack rctrl rpayload

abbrev pub rounds : Connection → ℕ
rounds self = suc (length self.transport.incoming)

unfoldable pub send_data : ℕ → Bytes → Op Connection (Unit {0})
unfolding await_ack
send_data base_ctrl payload = do
  self ← get
  write_framed (with_seq base_ctrl self.send_seq) payload
  await_ack (rounds self)

-- A data message in `recv_data`: it is acknowledged, and returned when it is a fresh one.
unfoldable pub accept_data : ℕ → Bytes → Op Connection (ℕ × Bytes) → Op Connection (ℕ × Bytes)
unfolding send_ack
accept_data ctrl payload again = do
  send_ack (seq_of ctrl)
  self ← get
  if seq_of ctrl == self.recv_seq then (modify flip_recv >> lift (ok (ctrl, payload))) else again

-- The loop of `recv_data`.
unfoldable pub await_data : ℕ → Op Connection (ℕ × Bytes)
unfolding accept_data
await_data zero = out_of_fuel
await_data (suc fuel) = do
  (ctrl, payload) ← read_framed
  if is_ack ctrl then await_data fuel else accept_data ctrl payload (await_data fuel)

abbrev pub recv_pending : Option (ℕ × Bytes) → Op Connection (ℕ × Bytes)
recv_pending (some frame) self = done (ok frame) (record self { pending_data = none })
recv_pending none self = await_data (rounds self) self

-- A frame that `send_data` kept is taken first.
unfoldable pub recv_data : Op Connection (ℕ × Bytes)
unfolding await_data
recv_data self = recv_pending self.pending_data self
