-- ===== src/Thp/Framing/Runs.antt =====
-- Concrete runs of the framing layer, and its theorems at concrete inputs.
use maknoon_trezor_core_rs.Prelude.{◌≡◌, refl, none, some, List, [], ◌∷◌, Bytes, be32, arith}
use maknoon_trezor_core_rs.Error.{ok, err, thp_error}
use maknoon_trezor_core_rs.Thp.Crc.{crc32_ieee}
use maknoon_trezor_core_rs.Thp.Framing.{new, segment, push_packet, packets_of, crc_of}
use maknoon_trezor_core_rs.Thp.Framing.RoundTrip.{deliveries, idle}
use maknoon_trezor_core_rs.Thp.Framing.Delivery.{deliveries-segment, deliveries_corrupted}
use maknoon_trezor_core_rs.Thp.Framing.Soundness.{
  IsSound, new-IsSound, push_packet-IsSound, push_packet-any_channel,
}

-- The nine bytes of the check value, over packets of 8 bytes.
abbrev digits : Bytes
digits = b'1' ∷ b'2' ∷ b'3' ∷ b'4' ∷ b'5' ∷ b'6' ∷ b'7' ∷ b'8' ∷ b'9' ∷ []

deliveries-segment_example :
    (ps : List Bytes) × (segment 8 0x1234 4 digits ≡ ok ps)
    × (deliveries new ps ≡ (ok (digits ∷ []), idle 4 0x1234 13))
deliveries-segment_example =
    deliveries-segment 8 0x1234 4 digits new (omega arith) (omega arith) (omega arith) (omega arith)

deliveries_corrupted_example :
    (segment 8 2 4 (1 ∷ 2 ∷ 3 ∷ [])
      ≡ ok (packets_of 8 2 4 7 (1 ∷ 2 ∷ 3 ∷ be32 (crc_of 4 2 7 (1 ∷ 2 ∷ 3 ∷ [])))))
    × (deliveries new (packets_of 8 2 4 7 (1 ∷ 9 ∷ 3 ∷ be32 (crc_of 4 2 7 (1 ∷ 2 ∷ 3 ∷ []))))
        ≡ (err (thp_error "THP transport payload CRC mismatch"), idle 4 2 7))
deliveries_corrupted_example =
    deliveries_corrupted 8 2 4 2 9 (1 ∷ []) (3 ∷ []) new (omega arith) (omega arith) (omega arith)
      (omega arith) (omega arith) (omega arith) (omega arith) (omega arith) (omega arith)

push_packet-IsSound_example : IsSound (push_packet new (4 ∷ 0 ∷ 1 ∷ 0 ∷ 9 ∷ 7 ∷ [])).1
push_packet-IsSound_example =
    push_packet-IsSound new (4 ∷ 0 ∷ 1 ∷ 0 ∷ 9 ∷ 7 ∷ []) (omega arith) new-IsSound

push_packet-any_channel_example :
    push_packet (push_packet new (4 ∷ 0 ∷ 1 ∷ 0 ∷ 9 ∷ 7 ∷ [])).1 (0x80 ∷ 0 ∷ 1 ∷ 5 ∷ [])
    ≡ push_packet (push_packet new (4 ∷ 0 ∷ 1 ∷ 0 ∷ 9 ∷ 7 ∷ [])).1 (0x80 ∷ 0 ∷ 2 ∷ 5 ∷ [])
push_packet-any_channel_example =
    push_packet-any_channel (push_packet new (4 ∷ 0 ∷ 1 ∷ 0 ∷ 9 ∷ 7 ∷ [])).1 0x80 0 1 0 2 (5 ∷ [])
      refl

-- A continuation packet with no message in progress is dropped.
continuation_dropped : push_packet new (0x80 ∷ 0 ∷ 1 ∷ 0 ∷ []) ≡ (ok none, new)
unfolding push_packet
continuation_dropped = refl

-- A new initiation packet abandons the message in progress.
restarted :
    (push_packet
      (push_packet new (4 ∷ 0 ∷ 9 ∷ 1 ∷ 0 ∷ 1 ∷ 1 ∷ 1 ∷ [])).1
      (4 ∷ 0 ∷ 9 ∷ 0 ∷ 4 ∷ be32 (crc_of 4 9 4 []))).0
    ≡ ok (some [])
unfolding push_packet crc32_ieee
restarted = refl
