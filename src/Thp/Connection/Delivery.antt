-- ===== src/Thp/Connection/Delivery.antt =====
-- A framed message that arrives is read, whatever arrives behind it.
use maknoon_trezor_core_rs.Prelude.{
  ℕ, zero, suc, ◌+◌, ◌-◌, ◌<◌, ◌≤◌, ◌^◌, ◌≡◌, ◌≢◌, min, refl, sym, ap, ◌∙◌, Bool-cases, inl, inr,
  Option, none, some, List, [], ◌∷◌, ◌++◌, map, Bytes, be32, length, length-append, length-resize,
  get_or, bit_and, ltb, lt→ltb, ==_iff, ne→==, all_below, eq_below, arith,
}
use maknoon_trezor_core_rs.Error.{Result, ok, ◌>>=◌}
use maknoon_trezor_core_rs.Thp.Control.{transport_error}
use maknoon_trezor_core_rs.Thp.Crc.Corruption.{crc32_ieee-lt}
use maknoon_trezor_core_rs.Thp.Framing.{
  Reassembler, push_packet, complete, finish, first_packet, cont_packet, cont_packets, packets_of,
  segment, crc_of, crc_len, init_header, cont_header,
}
use maknoon_trezor_core_rs.Thp.Framing.Packets.{
  reading, push-cont_packet, push-first_packet, complete-waits,
}
use maknoon_trezor_core_rs.Thp.Framing.RoundTrip.{
  idle, complete-full, finish-whole, cont_packets_done,
}
use maknoon_trezor_core_rs.Thp.Framing.Delivery.{segment_lem}
use maknoon_trezor_core_rs.Thp.Connection.{Arrival, chunk}
use maknoon_trezor_core_rs.Thp.Connection.Framed.{read_frame, read_step, latest}

-- The packets of a message, as they arrive, before other reads.
abbrev pub arrive : List Bytes → List Arrival → List Arrival
arrive ps more = map chunk ps ++ more

latest_low : (c ctrl : ℕ) → c < 128 → latest c ctrl ≡ c
unfolding all_below
latest_low c ctrl h =
    let e : bit_and c 0x80 ≡ 0 = eq_below 128 (λ b. bit_and b 0x80) (λ b. 0) c refl h in rw e refl

read_frame-waits :
    (r r' : Reassembler) (p : Bytes) (rest : List Arrival) (ctrl : ℕ)
    → 0 < length p
    → push_packet r p ≡ (ok none, r')
    → read_frame (chunk p ∷ rest) r ctrl ≡ read_frame rest r' (latest (get_or p 0 0) ctrl)
unfolding read_frame
read_frame-waits r r' [] rest ctrl h e = absurd (omega arith)
read_frame-waits r r' (x ∷ xs) rest ctrl h e =
    ap (λ t. read_step t.0 (latest x ctrl) rest (read_frame rest t.1 (latest x ctrl))) e

read_frame-done :
    (r r' : Reassembler) (p d : Bytes) (rest : List Arrival) (ctrl : ℕ)
    → 0 < length p
    → latest (get_or p 0 0) ctrl ≢ transport_error
    → push_packet r p ≡ (ok (some d), r')
    → read_frame (chunk p ∷ rest) r ctrl ≡ some (ok (latest (get_or p 0 0) ctrl, d), rest)
unfolding read_frame
read_frame-done r r' [] d rest ctrl h ne e = absurd (omega arith)
read_frame-done r r' (x ∷ xs) d rest ctrl h ne e =
    ap (λ t. read_step t.0 (latest x ctrl) rest (read_frame rest t.1 (latest x ctrl))) e
    ∙ rw (ne→== (latest x ctrl) transport_error ne) refl

cont_packet-first :
    (packet_size cid : ℕ) (whole : Bytes) (cursor n : ℕ)
    → 0 < packet_size
    → get_or (cont_packet packet_size cid whole cursor n) 0 0 ≡ 0x80
unfolding cont_packet
cont_packet-first zero cid whole cursor n h = absurd (omega arith)
cont_packet-first (suc k) cid whole cursor n h = refl

first_packet-first :
    (packet_size cid control_byte len : ℕ) (whole : Bytes)
    → 0 < packet_size
    → get_or (first_packet packet_size cid control_byte len whole) 0 0 ≡ control_byte
unfolding first_packet
first_packet-first zero cid control_byte len whole h = absurd (omega arith)
first_packet-first (suc k) cid control_byte len whole h = refl

length-cont_packet :
    (packet_size cid : ℕ) (whole : Bytes) (cursor n : ℕ)
    → length (cont_packet packet_size cid whole cursor n) ≡ packet_size
unfolding cont_packet
length-cont_packet packet_size cid whole cursor n = length-resize packet_size _

length-first_packet :
    (packet_size cid control_byte len : ℕ) (whole : Bytes)
    → length (first_packet packet_size cid control_byte len whole) ≡ packet_size
unfolding first_packet
length-first_packet packet_size cid control_byte len whole = length-resize packet_size _

module _ (packet_size control_byte cid : ℕ) (payload whole : Bytes) (room : 5 < packet_size)
    (fits : length whole < 2 ^ 16) (long : 4 ≤ length whole) (cid_fits : cid < 2 ^ 16)
    (low : control_byte < 128) (no_error : control_byte ≢ transport_error)
    (checked : complete (reading control_byte cid whole (length whole))
      ≡ (ok (some payload), idle control_byte cid (length whole)))
    (more : List Arrival) where
  abbrev answer : Option (Result (ℕ × Bytes) × List Arrival)
  answer = some (ok (control_byte, payload), more)

  -- The packet that takes the buffer to `k` bytes, and the reads behind it.
  read_frame_step :
      (r : Reassembler) (p : Bytes) (rest : List Arrival) (ctrl k : ℕ)
      → k ≤ length whole
      → 0 < length p
      → latest (get_or p 0 0) ctrl ≡ control_byte
      → push_packet r p ≡ complete (reading control_byte cid whole k)
      → (k < length whole
          → read_frame rest (reading control_byte cid whole k) control_byte ≡ answer)
      → (length whole ≤ k → rest ≡ more)
      → read_frame (chunk p ∷ rest) r ctrl ≡ answer
  read_frame_step r p rest ctrl k h hp hc step next end = elim (Bool-cases (ltb k (length whole))) [
    | inl l ↦
        let lt : k < length whole = ground arith in
        read_frame-waits r (reading control_byte cid whole k) p rest ctrl hp
          (step ∙ complete-waits control_byte cid whole low cid_fits fits long k lt)
        ∙ ap (read_frame rest (reading control_byte cid whole k)) hc
        ∙ next lt
    | inr g ↦
        let eq : k ≡ length whole = ground arith in
        let same : latest (get_or p 0 0) ctrl ≢ transport_error = λ e. no_error (sym hc ∙ e) in
        read_frame-done r (idle control_byte cid (length whole)) p payload rest ctrl hp same
          (step ∙ ap (λ t. complete (reading control_byte cid whole t)) eq ∙ checked)
        ∙ rw (hc, end (ground arith)) refl
  ]

  read_frame-cont_packets :
      (fuel cursor : ℕ)
      → cursor < length whole
      → length whole ≤ fuel + cursor
      → read_frame
          (arrive (cont_packets fuel packet_size cid whole cursor) more)
          (reading control_byte cid whole cursor)
          control_byte
        ≡ answer
  unfolding cont_packets
  read_frame-cont_packets zero cursor h e = absurd (omega arith)
  read_frame-cont_packets (suc fuel) cursor h e =
      let n : ℕ = min (packet_size - cont_header) (length whole - cursor) in
      let p : Bytes = cont_packet packet_size cid whole cursor n in
      rw (lt→ltb cursor (length whole) h) (
        read_frame_step (reading control_byte cid whole cursor) p
          (arrive (cont_packets fuel packet_size cid whole (cursor + n)) more) control_byte
          (cursor + n) (omega arith)
          (omega (arith, length-cont_packet packet_size cid whole cursor n))
          (ap (λ t. latest t control_byte)
            (cont_packet-first packet_size cid whole cursor n (omega arith)))
          (push-cont_packet control_byte cid whole packet_size cursor n (omega arith) h refl)
          (λ lt. read_frame-cont_packets fuel (cursor + n) lt (omega arith))
          (λ le.
            ap (λ t. arrive t more)
              (cont_packets_done packet_size control_byte cid whole room fits long cid_fits low fuel
                (cursor + n) le)))

  pub read_frame-packets_of :
      (r : Reassembler) (ctrl : ℕ)
      → read_frame
          (arrive (packets_of packet_size cid control_byte (length whole) whole) more)
          r
          ctrl
        ≡ answer
  unfolding packets_of
  read_frame-packets_of r ctrl =
      let n : ℕ = min (packet_size - init_header) (length whole) in
      let p : Bytes = first_packet packet_size cid control_byte (length whole) whole in
      read_frame_step r p (arrive (cont_packets (length whole) packet_size cid whole n) more) ctrl n
        (omega arith)
        (omega (arith, length-first_packet packet_size cid control_byte (length whole) whole))
        (ap (λ t. latest t ctrl)
            (first_packet-first packet_size cid control_byte (length whole) whole (omega arith))
          ∙ latest_low control_byte ctrl low)
        (push-first_packet control_byte cid whole low cid_fits fits long r packet_size room)
        (λ lt. read_frame-cont_packets (length whole) n lt (omega arith))
        (λ le.
          ap (λ t. arrive t more)
            (cont_packets_done packet_size control_byte cid whole room fits long cid_fits low
              (length whole) n le))

-- The packets of a message, in any order of the reads before and behind it.
module _ (packet_size control_byte cid : ℕ) (payload : Bytes) (room : 5 < packet_size)
    (fits : length payload + crc_len < 2 ^ 16) (cid_fits : cid < 2 ^ 16) (low : control_byte < 128)
    (no_error : control_byte ≢ transport_error) where
  abbrev pub crc : ℕ
  crc = crc_of control_byte cid (length payload + crc_len) payload

  abbrev pub message : List Bytes
  message = packets_of packet_size cid control_byte (length payload + crc_len) (payload ++ be32 crc)

  message-checked :
      complete (reading control_byte cid (payload ++ be32 crc) (length (payload ++ be32 crc)))
      ≡ (ok (some payload), idle control_byte cid (length (payload ++ be32 crc)))
  message-checked =
      let whole : Bytes = payload ++ be32 crc in
      let checked : finish (reading control_byte cid whole (length whole)) whole ≡ ok payload =
        finish-whole packet_size control_byte cid payload crc room fits cid_fits low
          (crc32_ieee-lt _)
        ∙ rw ((==_iff crc crc).1 refl) refl in
      complete-full control_byte cid whole
      ∙ ap (λ t. (t >>= (λ p. ok (some p)), idle control_byte cid (length whole))) checked

  pub read_frame-message :
      (r : Reassembler) (ctrl : ℕ) (more : List Arrival)
      → read_frame (arrive message more) r ctrl ≡ some (ok (control_byte, payload), more)
  read_frame-message r ctrl more =
      let whole : Bytes = payload ++ be32 crc in
      let l : length whole ≡ length payload + crc_len = length-append payload (be32 crc) in
      ap (λ k. read_frame (arrive (packets_of packet_size cid control_byte k whole) more) r ctrl)
        (sym l)
      ∙ read_frame-packets_of packet_size control_byte cid payload whole room (omega arith)
          (omega arith) cid_fits low no_error message-checked more r ctrl

  pub segment-message : segment packet_size cid control_byte payload ≡ ok message
  segment-message = segment_lem packet_size cid control_byte payload room fits
