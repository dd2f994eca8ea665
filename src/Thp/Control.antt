-- ===== src/Thp/Control.antt =====
-- The `control` module of trezor-core/src/thp/framing.rs: control bytes and their sync bits.
pub mod SyncBits
use maknoon_trezor_core_rs.Prelude.{
  ℕ, ◌/◌, ◌-◌, ◌^◌, Bool, bit_and, bit_or, ◌==◌, not, if◌then◌else◌,
}

abbrev pub channel_allocation_request : ℕ
channel_allocation_request = 0x40

abbrev pub channel_allocation_response : ℕ
channel_allocation_response = 0x41

abbrev pub transport_error : ℕ
transport_error = 0x42

abbrev pub ping : ℕ
ping = 0x43

abbrev pub pong : ℕ
pong = 0x44

abbrev pub ack : ℕ
ack = 0x20

abbrev pub ack_seq_bit : ℕ
ack_seq_bit = 0x08

abbrev pub handshake_init_request : ℕ
handshake_init_request = 0x00

abbrev pub handshake_init_response : ℕ
handshake_init_response = 0x01

abbrev pub handshake_completion_request : ℕ
handshake_completion_request = 0x02

abbrev pub handshake_completion_response : ℕ
handshake_completion_response = 0x03

abbrev pub encrypted_transport : ℕ
encrypted_transport = 0x04

abbrev pub seq_bit : ℕ
seq_bit = 0x10

abbrev pub ack_bit : ℕ
ack_bit = 0x08

abbrev pub ack_mask : ℕ
ack_mask = 0xf7

-- `!b` on a `u8`.
abbrev pub not_byte : ℕ → ℕ
not_byte b = 255 - b

unfoldable pub with_seq : ℕ → ℕ → ℕ
with_seq base seq = if not (seq == 0) then bit_or base seq_bit else bit_and base (not_byte seq_bit)

unfoldable pub seq_of : ℕ → ℕ
seq_of ctrl = bit_and ctrl seq_bit / 2 ^ 4

unfoldable pub is_ack : ℕ → Bool
is_ack ctrl = bit_and ctrl ack_mask == ack

unfoldable pub ack_seq_of : ℕ → ℕ
ack_seq_of ctrl = bit_and ctrl ack_bit / 2 ^ 3

unfoldable pub ack_for : ℕ → ℕ
ack_for seq = if not (seq == 0) then bit_or ack ack_bit else ack
