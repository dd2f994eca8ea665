-- ===== src/Thp/Framing/Packets.antt =====
-- What `push_packet` does with a packet that `segment` built.
use maknoon_trezor_core_rs.Prelude.{
  ℕ, ◌+◌, ◌-◌, ◌/◌, ◌%◌, ◌^◌, ◌≤◌, ◌<◌, ◌≡◌, refl, ap, ◌∙◌, min, Bool, true, false, not, none, ◌∷◌,
  ◌++◌, Bytes, be16, be32, from_be16, slice, length, take, drop, replicate, ◌==◌, if◌then◌else◌,
  arith, resize_pads, slice_from, slice_zero, length-slice_from, get_or-append, from_be32-be32,
  take-append_length, take-append-take, length-take, length-append, length-replicate, lt→leb,
  le→ltb, all_below, all_below-at,
}
use maknoon_trezor_core_rs.Error.{ok, err, thp_error}
use maknoon_trezor_core_rs.Thp.Framing.{
  Reassembler, header, crc_of, first_packet, cont_packet, complete, started, push_continuation,
  push_initiation, push_packet, is_continuation, init_header, cont_header, crc_len, finish,
}

-- The state in the middle of a message, with `cursor` bytes of it read.
abbrev pub reading : ℕ → ℕ → Bytes → ℕ → Reassembler
reading control_byte cid payload_with_crc cursor = record {
  active = true;
  control_byte = control_byte;
  cid = cid;
  expected_len = length payload_with_crc;
  buf = take cursor payload_with_crc;
}

module _ (control_byte cid : ℕ) (whole : Bytes) where
  -- The next `n` bytes join the buffer, and the padding does not.
  joined :
      (c x y cursor n : ℕ) (body pad : Bytes)
      → cursor ≤ length whole
      → n ≡ min (length whole - cursor) (length (body ++ pad))
      → body ≡ take n (drop cursor whole)
      → length body ≡ n
      → let packet = c ∷ x ∷ y ∷ (body ++ pad) in
        let m = min (length whole - length (take cursor whole)) (length packet - cont_header) in
        take cursor whole ++ slice cont_header (cont_header + m) packet ≡ take (cursor + n) whole
  joined c x y cursor n body pad hc hn hb hl =
      let packet : Bytes = c ∷ x ∷ y ∷ (body ++ pad) in
      let m : ℕ = min (length whole - length (take cursor whole)) (length packet - cont_header) in
      let e : m ≡ n = omega (arith, length-take cursor whole) in
      ap (λ t. take cursor whole ++ slice cont_header (cont_header + t) packet) e
      ∙ ap (λ t. take cursor whole ++ t)
          (slice_from cont_header n packet ∙ take-append_length n body pad hl ∙ hb)
      ∙ take-append-take cursor n (cursor + n) whole refl

  push_continuation-reading :
      (c x y cursor n : ℕ) (body pad : Bytes)
      → 0 < length (body ++ pad)
      → cursor ≤ length whole
      → n ≡ min (length whole - cursor) (length (body ++ pad))
      → body ≡ take n (drop cursor whole)
      → length body ≡ n
      → push_continuation (reading control_byte cid whole cursor) (c ∷ x ∷ y ∷ (body ++ pad))
        ≡ complete (reading control_byte cid whole (cursor + n))
  unfolding push_continuation
  push_continuation-reading c x y cursor n body pad hp hc hn hb hl =
      rw (lt→leb (length (c ∷ x ∷ y ∷ (body ++ pad))) cont_header (omega arith)) (
        ap (λ b. complete (record (reading control_byte cid whole cursor) { buf = b }))
          (joined c x y cursor n body pad hc hn hb hl))

  pub push-cont_packet :
      (packet_size cursor n : ℕ)
      → 3 < packet_size
      → cursor < length whole
      → n ≡ min (packet_size - cont_header) (length whole - cursor)
      → push_packet
          (reading control_byte cid whole cursor)
          (cont_packet packet_size cid whole cursor n)
        ≡ complete (reading control_byte cid whole (cursor + n))
  unfolding push_packet cont_packet
  push-cont_packet packet_size cursor n hs hc hn =
      let body : Bytes = slice cursor (cursor + n) whole in
      let hl : length body ≡ n = length-slice_from cursor n whole (omega arith) in
      let front : Bytes = 0x80 ∷ (be16 cid ++ body) in
      let pad : Bytes = replicate (packet_size - length front) 0 in
      let hp : length (body ++ pad) ≡ packet_size - 3 = omega (
        arith,
        length-append body pad,
        length-replicate {0} {A = ℕ} (packet_size - length front) 0,
      ) in
      rw (resize_pads packet_size front (omega arith)) (
        push_continuation-reading 0x80 (cid / 256 % 256) (cid % 256) cursor n body pad (omega arith)
          (omega arith) (omega arith) (slice_from cursor n whole) hl)

low_control : (c : ℕ) → c < 128 → is_continuation c ≡ false
unfolding all_below
low_control c h = not_true (all_below-at 128 (λ b. not (is_continuation b)) c refl h)
  where
    not_true : {b : Bool} → not b ≡ true → b ≡ false
    not_true {b} e = ground arith

module _ (control_byte cid : ℕ) (whole : Bytes) (low : control_byte < 128) (cid_fits : cid < 2 ^ 16)
    (len_fits : length whole < 2 ^ 16) (len_min : 4 ≤ length whole) where
  started-first :
      (n : ℕ) (body pad : Bytes)
      → n ≡ min (length whole) (length (body ++ pad))
      → body ≡ take n whole
      → length body ≡ n
      → started (header control_byte cid (length whole) ++ (body ++ pad))
        ≡ reading control_byte cid whole n
  unfolding started
  started-first n body pad hn hb hl =
      let rest : Bytes = body ++ pad in
      let packet : Bytes = header control_byte cid (length whole) ++ rest in
      let len : ℕ = from_be16 (length whole / 256 % 256) (length whole % 256) in
      let elen : len ≡ length whole = omega arith in
      let ecid : from_be16 (cid / 256 % 256) (cid % 256) ≡ cid = omega arith in
      let m : ℕ = min len (length packet - init_header) in
      let em : m ≡ n = omega arith in
      let ebuf : slice init_header (init_header + m) packet ≡ take n whole =
        ap (λ t. slice init_header (init_header + t) packet) em
        ∙ slice_from init_header n packet
        ∙ take-append_length n body pad hl
        ∙ hb in
      λ i. record {
        active = true;
        control_byte = control_byte;
        cid = ecid i;
        expected_len = elen i;
        buf = ebuf i;
      }

  push_initiation-first :
      (n : ℕ) (body pad : Bytes)
      → n ≡ min (length whole) (length (body ++ pad))
      → body ≡ take n whole
      → length body ≡ n
      → (r : Reassembler)
      → push_initiation r (header control_byte cid (length whole) ++ (body ++ pad))
        ≡ complete (reading control_byte cid whole n)
  unfolding push_initiation
  push_initiation-first n body pad hn hb hl r =
      let packet : Bytes = header control_byte cid (length whole) ++ (body ++ pad) in
      rw
        (
          le→ltb (length packet) init_header (omega arith),
          le→ltb (from_be16 (length whole / 256 % 256) (length whole % 256)) crc_len (omega arith),
        )
        (ap complete (started-first n body pad hn hb hl))

  -- The initiation packet starts the message whatever the reassembler was doing.
  pub push-first_packet :
      (r : Reassembler) (packet_size : ℕ)
      → 5 < packet_size
      → push_packet r (first_packet packet_size cid control_byte (length whole) whole)
        ≡ complete (reading control_byte cid whole (min (packet_size - init_header) (length whole)))
  unfolding push_packet first_packet
  push-first_packet r packet_size hs =
      let n : ℕ = min (packet_size - init_header) (length whole) in
      let body : Bytes = slice 0 n whole in
      let hl : length body ≡ n =
        ap length (slice_zero n whole) ∙ omega (arith, length-take n whole) in
      let front : Bytes = header control_byte cid (length whole) ++ body in
      let pad : Bytes = replicate (packet_size - length front) 0 in
      let hp : length (body ++ pad) ≡ packet_size - 5 = omega (
        arith,
        length-append body pad,
        length-replicate {0} {A = ℕ} (packet_size - length front) 0,
      ) in
      rw (resize_pads packet_size front (omega arith), low_control control_byte low)
        (push_initiation-first n body pad (omega arith) (slice_zero n whole) hl r)

  pub complete-waits :
      (cursor : ℕ)
      → cursor < length whole
      → complete (reading control_byte cid whole cursor)
        ≡ (ok none, reading control_byte cid whole cursor)
  unfolding complete
  complete-waits cursor h =
      rw (
        lt→leb (length whole) (length (take cursor whole))
          (omega (arith, length-take cursor whole)))

-- The check at the end compares the checksum of the payload with the four bytes behind it.
pub finish_lem :
    (r : Reassembler) (payload : Bytes) (crc : ℕ)
    → r.expected_len ≡ length payload + crc_len
    → r.expected_len < 2 ^ 16
    → crc < 2 ^ 32
    → finish r (payload ++ be32 crc) ≡ (
        if crc_of r.control_byte r.cid r.expected_len payload == crc
        then ok payload
        else err (thp_error "THP transport payload CRC mismatch"))
unfolding finish
finish_lem r payload crc he hl hc =
    let whole : Bytes = payload ++ be32 crc in
    let split : r.expected_len - crc_len ≡ length payload = omega arith in
    let wide : r.expected_len % 2 ^ 16 ≡ r.expected_len = omega arith in
    rw (
      split,
      wide,
      slice_zero (length payload) whole,
      take-append_length (length payload) payload (be32 crc) refl,
      get_or-append payload (be32 crc) (length payload) 0 0 (omega arith),
      get_or-append payload (be32 crc) (length payload + 1) 1 0 refl,
      get_or-append payload (be32 crc) (length payload + 2) 2 0 refl,
      get_or-append payload (be32 crc) (length payload + 3) 3 0 refl,
      from_be32-be32 crc hc,
    )
