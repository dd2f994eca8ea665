-- ===== src/Thp/Channel.antt =====
-- trezor-core/src/thp/channel.rs: the payloads of channel allocation. `ThpDeviceProperties` and its
-- decoder are generated code, a parameter.
pub mod Allocation
use maknoon_trezor_core_rs.Prelude.{
  ℕ, ◌+◌, Bool, not, Bytes, bytes_eq, from_be16, length, take, drop, get_or, ltb, if◌then◌else◌,
}
use maknoon_trezor_core_rs.Error.{Result, ok, err, thp_error, ◌>>=◌, ◌>>◌, guard}
use maknoon_trezor_core_rs.Proto.{Decoded, or_thp}

abbrev pub allocation_nonce_len : ℕ
allocation_nonce_len = 8

pub record ChannelAllocation (Props : Type 0) : Type 0 where
  pub cid : ℕ
  pub device_properties_raw : Bytes
  pub device_properties : Props

unfoldable pub build_allocation_request : Bytes → Bytes
build_allocation_request nonce = nonce

module _ {Props : Type 0} (decode : Bytes → Decoded Props) where
  unfoldable pub parse_allocation_response : Bytes → Bytes → Result (ChannelAllocation Props)
  parse_allocation_response sent_nonce payload = do
    guard (not (ltb (length payload) (allocation_nonce_len + 2)))
        (thp_error "channel allocation response too short")
    guard (bytes_eq (take allocation_nonce_len payload) sent_nonce)
        (thp_error "channel allocation nonce mismatch")
    let cid = from_be16 (get_or payload 8 0) (get_or payload 9 0)
    let raw = drop (allocation_nonce_len + 2) payload
    props ← or_thp "device properties decode failed: " (decode raw)
    ok (record { cid = cid; device_properties_raw = raw; device_properties = props })
