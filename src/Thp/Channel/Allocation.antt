-- ===== src/Thp/Channel/Allocation.antt =====
-- The allocation response: the parser accepts exactly the device's layout with the nonce sent.
use maknoon_trezor_core_rs.Prelude.{
  ℕ, ◌/◌, ◌%◌, ◌^◌, ◌≤◌, ◌<◌, ◌≡◌, sym, ap, ◌∙◌, ◌∷◌, ◌++◌, Bytes, IsByte, All, bytes_eq_refl,
  bytes_eq→eq, be16, from_be16, length, take, drop, get_or, get_or-append, arith, length-append,
  take-append_length, drop-append_length, append_assoc, le→ltb,
}
use maknoon_trezor_core_rs.Error.{ok}
use maknoon_trezor_core_rs.Proto.{Decoded, decoded}
use maknoon_trezor_core_rs.Thp.Channel.{ChannelAllocation, parse_allocation_response}

module _ {Props : Type 0} (decode : Bytes → Decoded Props) where
  -- A response of the layout nonce, channel id, properties, with properties that decode and a
  -- channel id of 16 bits, is accepted under the nonce that was sent, and gives those parts.
  pub parse_allocation_response-accepts :
      (nonce raw : Bytes) (cid : ℕ) (props : Props)
      → length nonce ≡ 8
      → cid < 2 ^ 16
      → decode raw ≡ decoded props
      → parse_allocation_response decode nonce (nonce ++ (be16 cid ++ raw))
        ≡ ok (record { cid = cid; device_properties_raw = raw; device_properties = props })
  unfolding parse_allocation_response
  parse_allocation_response-accepts nonce raw cid props hl hc hd =
      let payload : Bytes = nonce ++ (be16 cid ++ raw) in
      let ecid : from_be16 (cid / 256 % 256) (cid % 256) ≡ cid = omega arith in
      rw
        (
          le→ltb (length payload) 10 (omega (arith, length-append nonce (be16 cid ++ raw))),
          take-append_length 8 nonce (be16 cid ++ raw) hl,
          bytes_eq_refl nonce,
        )
        (rw (
          drop_raw,
          get_or-append nonce (be16 cid ++ raw) 8 0 0 (omega arith),
          get_or-append nonce (be16 cid ++ raw) 9 1 0 (omega arith),
          ecid,
          hd,
        ))
    where
      drop_raw : drop 10 (nonce ++ (be16 cid ++ raw)) ≡ raw
      drop_raw =
          ap (drop 10) (sym (append_assoc nonce (be16 cid) raw))
          ∙ drop-append_length 10 (nonce ++ be16 cid) raw
              (length-append nonce (be16 cid) ∙ omega arith)

  split_ten :
      (p : Bytes)
      → 10 ≤ length p
      → All IsByte p
      → p ≡ take 8 p ++ (be16 (from_be16 (get_or p 8 0) (get_or p 9 0)) ++ drop 10 p)
  split_ten (a ∷ b ∷ c ∷ d ∷ e ∷ f ∷ g ∷ h ∷ x ∷ y ∷ rest) l bytes = ground arith
  split_ten _ l bytes = absurd (omega arith)

  -- A response of bytes that is accepted has that layout, with the nonce that was sent.
  pub parse_allocation_response-layout :
      (nonce payload : Bytes) (a : ChannelAllocation Props)
      → All IsByte payload
      → parse_allocation_response decode nonce payload ≡ ok a
      → (payload ≡ nonce ++ (be16 a.cid ++ a.device_properties_raw))
        × (decode a.device_properties_raw ≡ decoded a.device_properties)
  unfolding parse_allocation_response
  parse_allocation_response-layout nonce payload a bytes e =
      ground (arith, split_ten payload, bytes_eq→eq (take 8 payload) nonce)
