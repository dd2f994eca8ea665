-- ===== src/Thp/Framing/RoundTrip.antt =====
-- `segment` and then `push_packet` on every packet, in order.
use maknoon_trezor_core_rs.Prelude.{
  ℕ, zero, suc, ◌+◌, ◌-◌, ◌^◌, ◌≤◌, ◌<◌, ◌≡◌, refl, sym, ap, ◌∙◌, min, Bool, true, false, Option,
  none, some, List, [], ◌∷◌, ◌++◌, Bytes, be32, length, ltb, ◌==◌, if◌then◌else◌, arith,
  length-append, le→leb, le→ltb, lt→ltb, take_all, Bool-cases, inl, inr,
}
use maknoon_trezor_core_rs.Error.{Result, ok, err, thp_error, ◌>>=◌}
use maknoon_trezor_core_rs.Thp.Framing.{
  Reassembler, crc_of, first_packet, cont_packet, cont_packets, packets_of, complete, finish,
  push_packet, init_header, cont_header, crc_len,
}
use maknoon_trezor_core_rs.Thp.Framing.Packets.{
  reading, push-cont_packet, push-first_packet, complete-waits, finish_lem,
}

-- A packet's answer, and what the packets behind it deliver.
deliver :
    Result (Option Bytes)
    → Reassembler
    → Result (List Bytes) × Reassembler
    → Result (List Bytes) × Reassembler
deliver (err e) r rest = (err e, r)
deliver (ok none) r rest = rest
deliver (ok (some d)) r rest = ((rest.0 >>= λ l. ok (d ∷ l)), rest.1)

-- Every payload that the packets deliver, in order, up to the first error.
unfoldable pub deliveries : Reassembler → List Bytes → Result (List Bytes) × Reassembler
unfolding deliver
deliveries r [] = (ok [], r)
deliveries r (p ∷ ps) = let (o, r') = push_packet r p in deliver o r' (deliveries r' ps)

abbrev pub idle : ℕ → ℕ → ℕ → Reassembler
idle control_byte cid len = record {
  active = false;
  control_byte = control_byte;
  cid = cid;
  expected_len = len;
  buf = [];
}

-- One packet that asks for more.
deliveries-waits :
    (r r' : Reassembler) (p : Bytes) (ps : List Bytes)
    → push_packet r p ≡ (ok none, r')
    → deliveries r (p ∷ ps) ≡ deliveries r' ps
unfolding deliveries
deliveries-waits r r' p ps e = ap (λ t. deliver t.0 t.1 (deliveries t.1 ps)) e

-- What the last packet's answer amounts to.
abbrev pub outcome : Result (Option Bytes) × Reassembler → Result (List Bytes) × Reassembler
outcome (err e, r) = (err e, r)
outcome (ok none, r) = (ok [], r)
outcome (ok (some d), r) = (ok (d ∷ []), r)

deliver-outcome :
    (o : Result (Option Bytes)) (r : Reassembler) → deliver o r (ok [], r) ≡ outcome (o, r)
unfolding deliver
deliver-outcome (err e) r = refl
deliver-outcome (ok none) r = refl
deliver-outcome (ok (some d)) r = refl

deliveries-last :
    (r : Reassembler) (p : Bytes) (q : Result (Option Bytes) × Reassembler)
    → push_packet r p ≡ q
    → deliveries r (p ∷ []) ≡ outcome q
unfolding deliveries
deliveries-last r p q e = ap (λ t. deliver t.0 t.1 (ok [], t.1)) e ∙ deliver-outcome q.0 q.1

module _ (packet_size control_byte cid : ℕ) (whole : Bytes) (room : 5 < packet_size)
    (fits : length whole < 2 ^ 16) (long : 4 ≤ length whole) (cid_fits : cid < 2 ^ 16)
    (low : control_byte < 128) where
  abbrev at_end : Result (List Bytes) × Reassembler
  at_end = outcome (complete (reading control_byte cid whole (length whole)))

  pub cont_packets_done :
      (fuel cursor : ℕ)
      → length whole ≤ cursor
      → cont_packets fuel packet_size cid whole cursor ≡ []
  unfolding cont_packets
  cont_packets_done zero cursor h = refl
  cont_packets_done (suc fuel) cursor h = rw (le→ltb cursor (length whole) h)

  -- The packet that takes the buffer to `k` bytes, and the packets behind it.
  deliveries_step :
      (r : Reassembler) (p : Bytes) (rest : List Bytes) (k : ℕ)
      → k ≤ length whole
      → push_packet r p ≡ complete (reading control_byte cid whole k)
      → (k < length whole → deliveries (reading control_byte cid whole k) rest ≡ at_end)
      → (length whole ≤ k → rest ≡ [])
      → deliveries r (p ∷ rest) ≡ at_end
  deliveries_step r p rest k h step more done = elim (Bool-cases (ltb k (length whole))) [
    | inl l ↦
        let lt : k < length whole = ground arith in
        deliveries-waits r (reading control_byte cid whole k) p rest
          (step ∙ complete-waits control_byte cid whole low cid_fits fits long k lt)
        ∙ more lt
    | inr g ↦
        let eq : k ≡ length whole = ground arith in
        rw (done (ground arith)) (
          deliveries-last r p (complete (reading control_byte cid whole (length whole)))
            (step ∙ ap (λ t. complete (reading control_byte cid whole t)) eq))
  ]

  -- From the middle of the message, what is left of the packets completes it.
  deliveries-cont_packets :
      (fuel cursor : ℕ)
      → cursor < length whole
      → length whole ≤ fuel + cursor
      → deliveries
          (reading control_byte cid whole cursor)
          (cont_packets fuel packet_size cid whole cursor)
        ≡ at_end
  unfolding cont_packets
  deliveries-cont_packets zero cursor h e = absurd (omega arith)
  deliveries-cont_packets (suc fuel) cursor h e =
      let n : ℕ = min (packet_size - cont_header) (length whole - cursor) in
      rw (lt→ltb cursor (length whole) h) (
        deliveries_step (reading control_byte cid whole cursor)
          (cont_packet packet_size cid whole cursor n)
          (cont_packets fuel packet_size cid whole (cursor + n)) (cursor + n) (omega arith)
          (push-cont_packet control_byte cid whole packet_size cursor n (omega arith) h refl)
          (λ lt. deliveries-cont_packets fuel (cursor + n) lt (omega arith))
          (cont_packets_done fuel (cursor + n)))

  pub deliveries-packets_of :
      (r : Reassembler)
      → deliveries r (packets_of packet_size cid control_byte (length whole) whole) ≡ at_end
  unfolding packets_of
  deliveries-packets_of r =
      let n : ℕ = min (packet_size - init_header) (length whole) in
      deliveries_step r (first_packet packet_size cid control_byte (length whole) whole)
        (cont_packets (length whole) packet_size cid whole n) n (omega arith)
        (push-first_packet control_byte cid whole low cid_fits fits long r packet_size room)
        (λ lt. deliveries-cont_packets (length whole) n lt (omega arith))
        (cont_packets_done (length whole) n)

pub complete-full :
    (control_byte cid : ℕ) (whole : Bytes)
    → complete (reading control_byte cid whole (length whole)) ≡ (
      finish (reading control_byte cid whole (length whole)) whole >>= (λ p. ok (some p)),
      idle control_byte cid (length whole),
    )
unfolding complete
complete-full control_byte cid whole = rw (
  take_all (length whole) whole (omega arith),
  le→leb (length whole) (length whole) (omega arith),
)

abbrev mismatch : {A : Type 0} → Result A
mismatch = err (thp_error "THP transport payload CRC mismatch")

module _ (packet_size control_byte cid : ℕ) (payload : Bytes) (crc : ℕ) (room : 5 < packet_size)
    (fits : length payload + crc_len < 2 ^ 16) (cid_fits : cid < 2 ^ 16) (low : control_byte < 128)
    (word : crc < 2 ^ 32) where
  abbrev len : ℕ
  len = length payload + crc_len

  abbrev whole : Bytes
  whole = payload ++ be32 crc

  length-whole : length whole ≡ len
  length-whole = length-append payload (be32 crc)

  abbrev verdict : ℕ → Bool
  verdict k = crc_of control_byte cid k payload == crc

  pub finish-whole :
      finish (reading control_byte cid whole (length whole)) whole
      ≡ (if verdict len then ok payload else mismatch)
  finish-whole =
      finish_lem (reading control_byte cid whole (length whole)) payload crc length-whole
        (omega (arith, length-whole)) word
      ∙ ap (λ k. if verdict k then ok payload else mismatch) length-whole

  outcome-verdict :
      (b : Bool) (k : ℕ)
      → outcome
          ((if b then ok payload else mismatch) >>= (λ p. ok (some p)), idle control_byte cid k)
        ≡ ((if b then ok (payload ∷ []) else mismatch), idle control_byte cid k)
  outcome-verdict true k = refl
  outcome-verdict false k = refl

  -- A payload with four bytes of checksum behind it: the answer turns on the checksum.
  pub deliveries_checked :
      (r : Reassembler)
      → deliveries r (packets_of packet_size cid control_byte len whole)
        ≡ ((if verdict len then ok (payload ∷ []) else mismatch), idle control_byte cid len)
  deliveries_checked r =
      ap (λ k. deliveries r (packets_of packet_size cid control_byte k whole)) (sym length-whole)
      ∙ deliveries-packets_of packet_size control_byte cid whole room (omega (arith, length-whole))
          (omega (arith, length-whole)) cid_fits low r
      ∙ ap outcome (complete-full control_byte cid whole)
      ∙ ap (λ t. outcome (t >>= (λ p. ok (some p)), idle control_byte cid (length whole)))
          finish-whole
      ∙ outcome-verdict (verdict len) (length whole)
      ∙ ap (λ k. ((if verdict len then ok (payload ∷ []) else mismatch), idle control_byte cid k))
          length-whole
