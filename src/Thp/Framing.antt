-- ===== src/Thp/Framing.antt =====
-- trezor-core/src/thp/framing.rs: a transport payload cut into wire packets (`segment`), and put
-- together again (`Reassembler`). Indexing inside a length that was tested is `get_or` and `slice`.
pub mod Packets
pub mod RoundTrip
pub mod Delivery
pub mod Soundness
mod Runs
use maknoon_trezor_core_rs.Prelude.{
  ℕ, zero, suc, ◌+◌, ◌-◌, ◌*◌, ◌/◌, ◌%◌, ◌^◌, min, Bool, true, false, not, Option, none, some, List,
  [], ◌∷◌, ◌++◌, Bytes, be16, be32, from_be16, from_be32, resize, slice, length, take, drop, get_or,
  bit_and, ltb, leb, ◌==◌, if◌then◌else◌,
}
use maknoon_trezor_core_rs.Error.{Result, ok, err, thp_error, ◌>>=◌, ◌>>◌, guard}
use maknoon_trezor_core_rs.Thp.Crc.{crc32_ieee}

abbrev pub ble_packet_size : ℕ
ble_packet_size = 244

abbrev pub usb_packet_size : ℕ
usb_packet_size = 64

abbrev pub init_header : ℕ
init_header = 5

abbrev pub cont_header : ℕ
cont_header = 3

abbrev pub crc_len : ℕ
crc_len = 4

abbrev pub continuation_control : ℕ
continuation_control = 0x80

abbrev pub continuation_mask : ℕ
continuation_mask = 0x80

abbrev pub broadcast_cid : ℕ
broadcast_cid = 0xffff

-- control || cid || length, big-endian.
abbrev pub header : ℕ → ℕ → ℕ → Bytes
header control_byte cid len = control_byte ∷ (be16 cid ++ be16 len)

-- The CRC that covers the header and the payload.
abbrev pub crc_of : ℕ → ℕ → ℕ → Bytes → ℕ
crc_of control_byte cid len payload = crc32_ieee (header control_byte cid len ++ payload)

unfoldable pub first_packet : ℕ → ℕ → ℕ → ℕ → Bytes → Bytes
first_packet packet_size cid control_byte len payload_with_crc =
    let n = min (packet_size - init_header) (length payload_with_crc) in
    resize packet_size (header control_byte cid len ++ slice 0 n payload_with_crc)

unfoldable pub cont_packet : ℕ → ℕ → Bytes → ℕ → ℕ → Bytes
cont_packet packet_size cid payload_with_crc cursor n =
    resize packet_size
      (continuation_control ∷ (be16 cid ++ slice cursor (cursor + n) payload_with_crc))

-- `while cursor < payload_with_crc.len()`, on fuel: a round takes a byte at least.
unfoldable pub cont_packets : ℕ → ℕ → ℕ → Bytes → ℕ → List Bytes
cont_packets zero packet_size cid payload_with_crc cursor = []
cont_packets (suc fuel) packet_size cid payload_with_crc cursor =
    let n = min (packet_size - cont_header) (length payload_with_crc - cursor) in
    let rest = cont_packets fuel packet_size cid payload_with_crc (cursor + n) in
    if ltb cursor (length payload_with_crc)
    then cont_packet packet_size cid payload_with_crc cursor n ∷ rest
    else []

unfoldable pub packets_of : ℕ → ℕ → ℕ → ℕ → Bytes → List Bytes
packets_of packet_size cid control_byte len payload_with_crc =
    first_packet packet_size cid control_byte len payload_with_crc
    ∷ cont_packets (length payload_with_crc) packet_size cid payload_with_crc
        (min (packet_size - init_header) (length payload_with_crc))

unfoldable pub segment : ℕ → ℕ → ℕ → Bytes → Result (List Bytes)
unfolding packets_of first_packet cont_packets cont_packet
segment packet_size cid init_control_byte transport_payload = do
  guard (not (leb packet_size init_header)) (thp_error "packet size too small for a THP header")
  let len = length transport_payload + crc_len
  guard (ltb len (2 ^ 16)) (thp_error "transport payload exceeds the 16-bit length field")
  let crc = crc_of init_control_byte cid len transport_payload
  ok (packets_of packet_size cid init_control_byte len (transport_payload ++ be32 crc))

pub record Reassembler : Type 0 where
  pub active : Bool
  pub control_byte : ℕ
  pub cid : ℕ
  pub expected_len : ℕ
  pub buf : Bytes

-- `Reassembler::new`, the derived `Default`.
abbrev pub new : Reassembler
new = record { active = false; control_byte = 0; cid = 0; expected_len = 0; buf = [] }

pub finish : Reassembler → Bytes → Result Bytes
finish self payload_with_crc =
    let split = self.expected_len - crc_len in
    let transport_payload = slice 0 split payload_with_crc in
    let crc_received =
      from_be32 (get_or payload_with_crc split 0) (get_or payload_with_crc (split + 1) 0)
        (get_or payload_with_crc (split + 2) 0) (get_or payload_with_crc (split + 3) 0) in
    let crc = crc_of self.control_byte self.cid (self.expected_len % 2 ^ 16) transport_payload in
    if crc == crc_received
    then ok transport_payload
    else err (thp_error "THP transport payload CRC mismatch")

-- The end of `push_packet`: a full buffer is taken out and checked.
pub complete : Reassembler → Result (Option Bytes) × Reassembler
unfolding finish
complete self =
    if leb self.expected_len (length self.buf)
    then (finish self self.buf >>= (λ p. ok (some p)), record self { active = false; buf = [] })
    else (ok none, self)

pub push_continuation : Reassembler → Bytes → Result (Option Bytes) × Reassembler
unfolding complete
push_continuation self packet =
    if not self.active
    then (ok none, self)
    else if leb (length packet) cont_header
    then (err (thp_error "continuation packet shorter than its header"), self)
    else (let n = min (self.expected_len - length self.buf) (length packet - cont_header) in
        complete (record self { buf = self.buf ++ slice cont_header (cont_header + n) packet }))

-- The state that an initiation packet starts.
pub started : Bytes → Reassembler
started packet =
    let len = from_be16 (get_or packet 3 0) (get_or packet 4 0) in
    let n = min len (length packet - init_header) in
    record {
      active = true;
      control_byte = get_or packet 0 0;
      cid = from_be16 (get_or packet 1 0) (get_or packet 2 0);
      expected_len = len;
      buf = slice init_header (init_header + n) packet;
    }

pub push_initiation : Reassembler → Bytes → Result (Option Bytes) × Reassembler
unfolding complete started
push_initiation self packet =
    if ltb (length packet) init_header
    then (err (thp_error "initiation packet shorter than its header"), self)
    else if ltb (from_be16 (get_or packet 3 0) (get_or packet 4 0)) crc_len
    then (err (thp_error "THP length field smaller than the CRC trailer"), self)
    else complete (started packet)

abbrev pub is_continuation : ℕ → Bool
is_continuation control_byte = bit_and control_byte continuation_mask == continuation_mask

unfoldable pub push_packet : Reassembler → Bytes → Result (Option Bytes) × Reassembler
unfolding push_continuation push_initiation
push_packet self [] = (err (thp_error "empty THP packet"), self)
push_packet self (control_byte ∷ rest) =
    if is_continuation control_byte
    then push_continuation self (control_byte ∷ rest)
    else push_initiation self (control_byte ∷ rest)
