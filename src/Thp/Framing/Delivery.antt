-- ===== src/Thp/Framing/Delivery.antt =====
-- What a reassembler makes of the packets of `segment`, intact and corrupted.
use maknoon_trezor_core_rs.Prelude.{
  ℕ, zero, suc, ◌+◌, ◌^◌, ◌≤◌, ◌<◌, ◌≡◌, ◌≢◌, refl, sym, ap, ◌∙◌, false, List, [], ◌∷◌, ◌++◌, Bytes,
  IsByte, All, All-append, be32, length, ltb, leb, ◌==◌, arith, length-resize, length-append,
  lt→leb, lt→ltb, Bool-cases, inl, inr, ◌⊎◌, ==_iff, append_assoc, ne→==,
}
use maknoon_trezor_core_rs.Error.{ok, err, thp_error}
use maknoon_trezor_core_rs.Thp.Crc.{crc32_ieee}
use maknoon_trezor_core_rs.Thp.Crc.Corruption.{crc32_ieee-lt, crc32_ieee-ne_of_byte}
use maknoon_trezor_core_rs.Thp.Framing.{
  Reassembler, header, crc_of, first_packet, cont_packet, cont_packets, packets_of, segment,
  init_header, crc_len,
}
use maknoon_trezor_core_rs.Thp.Framing.RoundTrip.{deliveries, deliveries_checked, idle}

pub segment_lem :
    (packet_size cid control_byte : ℕ) (payload : Bytes)
    → 5 < packet_size
    → length payload + crc_len < 2 ^ 16
    → segment packet_size cid control_byte payload
      ≡ ok (
          packets_of packet_size cid control_byte
            (length payload + crc_len)
            (payload ++ be32 (crc_of control_byte cid (length payload + crc_len) payload)))
unfolding segment
segment_lem packet_size cid control_byte payload hs hl =
    rw (lt→leb packet_size init_header (omega arith), lt→ltb (length payload + crc_len) (2 ^ 16) hl)

-- For a packet size above 5, a channel id below 2^16, a control byte below 128 and a payload of
-- at most 65531 bytes, `segment` succeeds, and a reassembler in any state that is fed its packets
-- delivers that payload, exactly once, and ends idle with an empty buffer.
pub deliveries-segment :
    (packet_size cid control_byte : ℕ) (payload : Bytes) (r : Reassembler)
    → 5 < packet_size
    → cid < 2 ^ 16
    → control_byte < 128
    → length payload + crc_len < 2 ^ 16
    → (ps : List Bytes) × (segment packet_size cid control_byte payload ≡ ok ps)
      × (deliveries r ps ≡ (ok (payload ∷ []), idle control_byte cid (length payload + crc_len)))
deliveries-segment packet_size cid control_byte payload r hs hc low hl =
    let crc : ℕ = crc_of control_byte cid (length payload + crc_len) payload in
    (
      _,
      segment_lem packet_size cid control_byte payload hs hl,
      deliveries_checked packet_size control_byte cid payload crc hs hl hc low (crc32_ieee-lt _) r
          ∙ rw ((==_iff crc crc).1 refl),
    )

-- Each packet that `segment` returns has the length of a report.
sized :
    (fuel packet_size cid : ℕ) (whole : Bytes) (cursor : ℕ)
    → All (λ p. length p ≡ packet_size) (cont_packets fuel packet_size cid whole cursor)
unfolding cont_packets cont_packet
sized zero packet_size cid whole cursor = tt
sized (suc fuel) packet_size cid whole cursor = elim (Bool-cases (ltb cursor (length whole))) [
  | inl e ↦ rw e (length-resize packet_size _, sized fuel packet_size cid whole _)
  | inr e ↦ rw e tt
]

packets_of-sized :
    (packet_size cid control_byte len : ℕ) (whole : Bytes)
    → All (λ p. length p ≡ packet_size) (packets_of packet_size cid control_byte len whole)
unfolding packets_of first_packet
packets_of-sized packet_size cid control_byte len whole =
    (length-resize packet_size _, sized (length whole) packet_size cid whole _)

-- `segment` fails on a packet size of 5 or less and on a payload of more than 65531 bytes; in
-- every other case it returns packets, and each has exactly `packet_size` bytes.
pub segment_sizes :
    (packet_size cid control_byte : ℕ) (payload : Bytes)
    → ((packet_size ≤ 5)
        × (segment packet_size cid control_byte payload
            ≡ err (thp_error "packet size too small for a THP header")))
      ⊎ ((5 < packet_size)
          × (65531 < length payload)
          × (segment packet_size cid control_byte payload
              ≡ err (thp_error "transport payload exceeds the 16-bit length field")))
      ⊎ ((5 < packet_size)
          × (length payload ≤ 65531)
          × ((ps : List Bytes) × (segment packet_size cid control_byte payload ≡ ok ps)
              × All (λ p. length p ≡ packet_size) ps))
unfolding segment
segment_sizes packet_size cid control_byte payload =
    elim (Bool-cases (leb packet_size init_header)) [
      | inl small ↦ inl (ground arith, rw small)
      | inr large ↦ elim (Bool-cases (ltb (length payload + crc_len) (2 ^ 16))) [
        | inl fits ↦ inr (
            inr (
              ground arith,
              ground arith,
              (
                packets_of packet_size cid control_byte (length payload + crc_len)
                    (payload ++ be32 (crc_of control_byte cid (length payload + crc_len) payload)),
                segment_lem packet_size cid control_byte payload (ground arith) (ground arith),
                packets_of-sized packet_size cid control_byte _ _,
              ),
            ))
        | inr long ↦ inr (inl (ground arith, ground arith, rw (large, long)))
      ]
    ]

checksum_differs :
    (a b : ℕ) (h front back : Bytes)
    → All IsByte h
    → All IsByte front
    → All IsByte back
    → a < 256
    → b < 256
    → a ≢ b
    → (crc32_ieee (h ++ (front ++ (b ∷ back))) == crc32_ieee (h ++ (front ++ (a ∷ back)))) ≡ false
checksum_differs a b h front back ph pf pb ha hb ne = ne→== _ _ λ e.
    crc32_ieee-ne_of_byte (h ++ front) back b a (All-append IsByte h front ph pf) pb hb ha
      (λ p. ne (sym p))
      (ap crc32_ieee (append_assoc h front (b ∷ back))
        ∙ e
        ∙ ap crc32_ieee (sym (append_assoc h front (a ∷ back))))

-- A byte of the payload changed on its way, under a control byte below 128, a channel id below
-- 2^16, a packet size above 5 and a payload of at most 65531 bytes: the packets are those of the
-- changed payload with the checksum that `segment` computed for the original, and a reassembler
-- in any state answers with the checksum error, delivers nothing and ends idle.
pub deliveries_corrupted :
    (packet_size cid control_byte a b : ℕ) (front back : Bytes) (r : Reassembler)
    → 5 < packet_size
    → cid < 2 ^ 16
    → control_byte < 128
    → length (front ++ (a ∷ back)) + crc_len < 2 ^ 16
    → All IsByte front
    → All IsByte back
    → a < 256
    → b < 256
    → a ≢ b
    → let len = length (front ++ (a ∷ back)) + crc_len in
      let trailer = be32 (crc_of control_byte cid len (front ++ (a ∷ back))) in
      (segment packet_size cid control_byte (front ++ (a ∷ back))
        ≡ ok (packets_of packet_size cid control_byte len ((front ++ (a ∷ back)) ++ trailer)))
      × (deliveries r
            (packets_of packet_size cid control_byte len ((front ++ (b ∷ back)) ++ trailer))
          ≡ (err (thp_error "THP transport payload CRC mismatch"), idle control_byte cid len))
deliveries_corrupted packet_size cid control_byte a b front back r hs hc low hl hf hb ha hb' ne =
    let len : ℕ = length (front ++ (a ∷ back)) + crc_len in
    let sent : Bytes = front ++ (a ∷ back) in
    let seen : Bytes = front ++ (b ∷ back) in
    let crc : ℕ = crc_of control_byte cid len sent in
    let same : length seen + crc_len ≡ len =
      omega (arith, length-append front (a ∷ back), length-append front (b ∷ back)) in
    (
      segment_lem packet_size cid control_byte sent hs hl,
      ap (λ k. deliveries r (packets_of packet_size cid control_byte k (seen ++ be32 crc)))
            (sym same)
          ∙ deliveries_checked packet_size control_byte cid seen crc hs (omega arith) hc low
              (crc32_ieee-lt _) r
          ∙ rw (
            same,
            checksum_differs a b (header control_byte cid len) front back (header-IsByte len) hf hb
                ha hb' ne,
          ),
    )
  where
    header-IsByte : (len : ℕ) → All IsByte (header control_byte cid len)
    header-IsByte len = omega arith
