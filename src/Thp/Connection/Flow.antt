-- ===== src/Thp/Connection/Flow.antt =====
-- Channel allocation and the handshake over the connection: `allocate` and `handshake` of
-- trezor-core/src/thp/connection.rs. Random bytes are arguments.
use maknoon_trezor_core_rs.Prelude.{ℕ, zero, suc, Option, none, Bytes, ◌==◌, if◌then◌else◌}
use maknoon_trezor_core_rs.Error.{Result, ok, err, thp_error}
use maknoon_trezor_core_rs.Proto.{Decoded}
use maknoon_trezor_core_rs.Outcome.{Op, ◌>>=◌, ◌>>◌, lift, modify}
use maknoon_trezor_core_rs.Thp.Control.{
  channel_allocation_request, channel_allocation_response, handshake_init_request,
  handshake_completion_request,
}
use maknoon_trezor_core_rs.Thp.Framing.{broadcast_cid}
use maknoon_trezor_core_rs.Thp.Channel.{
  ChannelAllocation, build_allocation_request, parse_allocation_response,
}
use maknoon_trezor_core_rs.Thp.Keys.{SessionKeys}
use maknoon_trezor_core_rs.Thp.Noise.{
  Crypto, with_ephemeral, init_request_payload, read_init_response, read_completion_response,
}
use maknoon_trezor_core_rs.Thp.Connection.{Connection}
use maknoon_trezor_core_rs.Thp.Connection.Framed.{write_framed, read_framed}
use maknoon_trezor_core_rs.Thp.Connection.Abp.{send_data, recv_data}

abbrev pub max_alloc_reads : ℕ
max_alloc_reads = 8

-- The switch to the channel that was assigned.
abbrev pub assigned : ℕ → Connection → Connection
assigned cid self = record self { cid = cid; send_seq = 0; recv_seq = 0; pending_data = none }

module _ {Props : Type 0} (decode : Bytes → Decoded Props) where
  -- A response that does not parse is skipped.
  abbrev pub accept_allocation :
      Result (ChannelAllocation Props)
      → Op Connection (ChannelAllocation Props)
      → Op Connection (ChannelAllocation Props)
  accept_allocation (ok allocation) again = do
    modify (assigned allocation.cid)
    lift (ok allocation)
  accept_allocation (err e) again = again

  unfoldable pub await_allocation : ℕ → Bytes → Op Connection (ChannelAllocation Props)
  await_allocation zero nonce =
      lift (err (thp_error "no matching channel allocation response received"))
  await_allocation (suc reads) nonce = do
    (ctrl, payload) ← read_framed
    if ctrl == channel_allocation_response
        then accept_allocation (parse_allocation_response decode nonce payload)
            (await_allocation reads nonce)
        else await_allocation reads nonce

  unfoldable pub allocate : Bytes → Op Connection (ChannelAllocation Props)
  unfolding await_allocation
  allocate nonce = do
    modify (λ self. record self { cid = broadcast_cid })
    write_framed channel_allocation_request (build_allocation_request nonce)
    await_allocation max_alloc_reads nonce

module _ (c : Crypto) where
  unfoldable pub handshake : Bytes → Bytes → Option Bytes → Bytes → Op Connection SessionKeys
  handshake device_properties_raw host_static_priv credential ephemeral_priv = do
    let hs = with_ephemeral c device_properties_raw 0 host_static_priv credential ephemeral_priv
    send_data handshake_init_request (init_request_payload hs)
    (_, init_resp) ← recv_data
    (completion, hs') ← lift (read_init_response c hs init_resp)
    send_data handshake_completion_request completion
    (_, comp_resp) ← recv_data
    lift (read_completion_response c hs' comp_resp)
