-- ===== src/Thp/Connection/Setup.antt =====
-- Channel allocation and the handshake over the connection always end, and what they set.
use maknoon_trezor_core_rs.Prelude.{
  ℕ, zero, suc, ◌<◌, ◌≡◌, ◌≢◌, ◌⊎◌, inl, inr, refl, ◌∙◌, ap, false, Option, List, [], ◌∷◌, All,
  Bytes, bytes_eq→eq, length, take, ◌==◌, ==_iff, arith,
}
use maknoon_trezor_core_rs.Error.{TrezorError, Result, ok, err}
use maknoon_trezor_core_rs.Proto.{Decoded}
use maknoon_trezor_core_rs.Outcome.{
  done, Yields-run, lift, Yields, Yields-after, Yields-weaken, Yields-lift, Yields-if,
}
use maknoon_trezor_core_rs.Thp.Control.{
  channel_allocation_request, channel_allocation_response, handshake_init_request,
  handshake_completion_request,
}
use maknoon_trezor_core_rs.Thp.Framing.{broadcast_cid}
use maknoon_trezor_core_rs.Thp.Channel.{
  ChannelAllocation, build_allocation_request, parse_allocation_response,
}
use maknoon_trezor_core_rs.Thp.Keys.{SessionKeys}
use maknoon_trezor_core_rs.Thp.Noise.{
  Crypto, with_ephemeral, init_request_payload, read_init_response, read_completion_response,
}
use maknoon_trezor_core_rs.Thp.Connection.{Connection}
use maknoon_trezor_core_rs.Thp.Connection.Framed.{write_framed, read_framed}
use maknoon_trezor_core_rs.Thp.Connection.Moves.{
  Frames, on, Read, read_framed-Read, Wrote, write_framed-Wrote, on_trans,
}
use maknoon_trezor_core_rs.Thp.Connection.Sync.{
  Acked, send_data-Acked, Received, recv_data-Received,
}
use maknoon_trezor_core_rs.Thp.Connection.Flow.{
  assigned, accept_allocation, await_allocation, max_alloc_reads, allocate, handshake,
}

module _ {Props : Type 0} (decode : Bytes → Decoded Props) where
  -- The channel that an allocation gave.
  abbrev pub Assigned : Connection → ChannelAllocation Props → Connection → Type 0
  Assigned s allocation t = t ≡ on t.transport (assigned allocation.cid s)

  Assigned-after :
      (s t u : Connection) (a : ChannelAllocation Props)
      → t ≡ on t.transport s
      → Assigned t a u
      → Assigned s a u
  Assigned-after s t u a m e = on_trans (assigned a.cid s) (ap (assigned a.cid) m) e

  -- A frame that is no allocation response to the nonce.
  abbrev pub IsPassed : Bytes → ℕ × Bytes → Type 0
  IsPassed nonce frame =
      (frame.0 ≢ channel_allocation_response)
      ⊎ ((e : TrezorError) × (parse_allocation_response decode nonce frame.1 ≡ err e))

  -- The frames that an allocation reads: fewer than the limit that are passed over, and the response.
  abbrev pub Responded : ℕ → Bytes → Connection → ChannelAllocation Props → Connection → Type 0
  Responded limit nonce s a t =
      (passed : List (ℕ × Bytes)) × (w : Connection) × (payload : Bytes) × (v : Connection) × Frames
        s passed w
      × All (IsPassed nonce) passed
      × (length passed < limit)
      × (read_framed w ≡ done (ok (channel_allocation_response, payload)) v)
      × (parse_allocation_response decode nonce payload ≡ ok a)
      × (t ≡ assigned a.cid v)

  -- One more frame that is passed over.
  Responded-behind :
      (limit : ℕ) (nonce : Bytes) (s t u : Connection) (frame : ℕ × Bytes)
      (a : ChannelAllocation Props)
      → read_framed s ≡ done (ok frame) t
      → IsPassed nonce frame
      → Responded limit nonce t a u
      → Responded (suc limit) nonce s a u
  Responded-behind limit nonce s t u frame a run p
        (passed, w, payload, v, frames, all, few, read, parsed, e) =
      (frame ∷ passed, w, payload, v, (t, run, frames), (p, all), omega arith, read, parsed, e)

  -- The state after it, and the frames.
  abbrev Gave : ℕ → Bytes → Connection → ChannelAllocation Props → Connection → Type 0
  Gave limit nonce s a t = Assigned s a t × Responded limit nonce s a t

  await_allocation-Gave :
      (reads : ℕ) (nonce : Bytes) (s : Connection)
      → Yields (Gave reads nonce s) (await_allocation decode reads nonce s)
  unfolding await_allocation Yields
  await_allocation-Gave zero nonce s = tt
  await_allocation-Gave (suc reads) nonce s =
      Yields-after (λ frame t. Read s frame t × (read_framed s ≡ done (ok frame) t))
        (Gave (suc reads) nonce s) (read_framed s) _
        (Yields-run (Read s) (read_framed s) (read_framed-Read s))
        (λ frame t (h, run).
          let later : IsPassed nonce frame
              → Yields (Gave (suc reads) nonce s) (await_allocation decode reads nonce t) =
            λ p.
              Yields-weaken (Gave reads nonce t) _ _ (await_allocation-Gave reads nonce t)
                (λ a u (e, r). (
                  Assigned-after s t u a h.0 e,
                  Responded-behind reads nonce s t u frame a run p r,
                )) in
          Yields-if _ (frame.0 == channel_allocation_response) _ _ t
            (λ e.
              accepted t frame h.0 run ((==_iff _ _).0 e) (λ x q. later (inr (x, q)))
                (parse_allocation_response decode nonce frame.1) refl)
            (λ e. later (inl (ne_of e))))
    where
      ne_of : {a b : ℕ} → a == b ≡ false → a ≢ b
      ne_of ne = ground arith

      accepted :
          (t : Connection) (frame : ℕ × Bytes)
          → t ≡ on t.transport s
          → read_framed s ≡ done (ok frame) t
          → frame.0 ≡ channel_allocation_response
          → ((x : TrezorError)
              → parse_allocation_response decode nonce frame.1 ≡ err x
              → Yields (Gave (suc reads) nonce s) (await_allocation decode reads nonce t))
          → (r : Result (ChannelAllocation Props))
          → parse_allocation_response decode nonce frame.1 ≡ r
          → Yields
              (Gave (suc reads) nonce s)
              (accept_allocation decode r (await_allocation decode reads nonce) t)
      accepted t frame m run c later (ok a) q = (
        ap (assigned a.cid) m,
        (
          [],
          s,
          frame.1,
          t,
          refl,
          tt,
          omega arith,
          run ∙ ap (λ k. done (ok (k, frame.1)) t) c,
          q,
          refl,
        ),
      )
      accepted t frame m run c later (err x) q = later x q

  parse-nonce :
      (nonce payload : Bytes) (a : ChannelAllocation Props)
      → parse_allocation_response decode nonce payload ≡ ok a
      → take 8 payload ≡ nonce
  unfolding parse_allocation_response
  parse-nonce nonce payload a e = ground (arith, bytes_eq→eq (take 8 payload) nonce)

  -- A response with the nonce that was sent, to a request on the broadcast channel.
  abbrev pub Allocated : Bytes → Connection → ChannelAllocation Props → Connection → Type 0
  Allocated nonce s a t =
      (w : Connection) × (write_framed 0x40 nonce (record s { cid = 0xffff }) ≡ done (ok tt) w)
      × (passed : List (ℕ × Bytes)) × (x : Connection) × (payload : Bytes) × (v : Connection)
      × Frames w passed x
      × All (IsPassed nonce) passed
      × (length passed < 8)
      × (read_framed x ≡ done (ok (0x41, payload)) v)
      × (take 8 payload ≡ nonce)
      × (parse_allocation_response decode nonce payload ≡ ok a)
      × (t ≡ assigned a.cid v)
      × Assigned s a t

  -- Allocation ends, whatever arrives. When it succeeds, the nonce was written to the broadcast
  -- channel, and behind seven frames at most, none of which is an allocation response that parses,
  -- came one that begins with that nonce. Its parts are returned, the connection is on the channel
  -- that it gave, with both sequence bits 0 and no frame kept, and nothing else but the transport
  -- has changed.
  pub allocate-Allocated :
      (nonce : Bytes) (s : Connection) → Yields (Allocated nonce s) (allocate decode nonce s)
  unfolding allocate build_allocation_request
  allocate-Allocated nonce s =
      let b = record s { cid = broadcast_cid } in
      let run = write_framed channel_allocation_request (build_allocation_request nonce) b in
      Yields-after (λ u t. Wrote b u t × (run ≡ done (ok u) t)) (Allocated nonce s) run _
        (Yields-run (Wrote b) run
          (write_framed-Wrote channel_allocation_request (build_allocation_request nonce) b))
        (λ u t h.
          Yields-weaken (Gave max_alloc_reads nonce t) _ _
            (await_allocation-Gave max_alloc_reads nonce t)
            (λ a y (e, (passed, x, payload, v, frames, all, few, read, parsed, end)). (
              t,
              h.1,
              passed,
              x,
              payload,
              v,
              frames,
              all,
              few,
              read,
              parse-nonce nonce payload a parsed,
              parsed,
              end,
              Assigned-after b t y a h.0.0 e,
            )))

  pub allocate-Assigned :
      (nonce : Bytes) (s : Connection) → Yields (Assigned s) (allocate decode nonce s)
  allocate-Assigned nonce s =
      Yields-weaken (Allocated nonce s) _ _ (allocate-Allocated nonce s)
        (λ a t (w, wrote, passed, x, payload, v, frames, all, few, read, begins, parsed, end, e). e)

module _ (c : Crypto) where
  -- The handshake ends, whatever arrives.
  pub handshake-ends :
      (device_properties_raw host_static_priv : Bytes) (credential : Option Bytes)
      (ephemeral_priv : Bytes) (s : Connection)
      → Yields
          (λ keys t. Unit)
          (handshake c device_properties_raw host_static_priv credential ephemeral_priv s)
  unfolding handshake Yields
  handshake-ends device_properties_raw host_static_priv credential ephemeral_priv s =
      let hs =
        with_ephemeral c device_properties_raw 0 host_static_priv credential ephemeral_priv in
      Yields-after (Acked s) _ _ _
        (send_data-Acked s handshake_init_request (init_request_payload hs))
        (λ u t h. Yields-after (Received t) _ _ _ (recv_data-Received t) (λ frame w k.
          Yields-lift _ (read_init_response c hs frame.1) _ w (λ d e.
            Yields-after (Acked w) _ _ _ (send_data-Acked w handshake_completion_request d.0)
              (λ u' x a.
                Yields-after (Received x) _ _ _ (recv_data-Received x)
                  (λ frame' y b. ends (read_completion_response c d.1 frame'.1) y)))))
    where
      ends : (r : Result SessionKeys) (y : Connection) → Yields (λ keys t. Unit {0}) (lift r y)
      ends (ok keys) y = tt
      ends (err e) y = tt
