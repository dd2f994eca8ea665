-- ===== src/Thp/Connection/Arrivals.antt =====
-- Messages that are written, and that arrive, over a transport that accepts what is written.
use maknoon_trezor_core_rs.Prelude.{
  ℕ, zero, suc, ◌+◌, ◌<◌, ◌≤◌, ◌^◌, ◌≡◌, ◌≢◌, inl, inr, map, refl, sym, ap, ◌∙◌, some, List, [],
  ◌∷◌, ◌++◌, append-nil, append_assoc, Bytes, length, length-append, arith,
}
use maknoon_trezor_core_rs.Error.{TrezorError, Result, ok, err}
use maknoon_trezor_core_rs.Outcome.{done, after, lift}
use maknoon_trezor_core_rs.Thp.Control.{transport_error, ack_for}
use maknoon_trezor_core_rs.Thp.Framing.{new, segment, crc_len, packets_of}
use maknoon_trezor_core_rs.Thp.Framing.Delivery.{segment_sizes}
use maknoon_trezor_core_rs.Thp.Connection.{Arrival, chunk, Connection}
use maknoon_trezor_core_rs.Thp.Connection.Framed.{
  write_packets, write_framed, read_frame, received, read_framed,
}
use maknoon_trezor_core_rs.Thp.Connection.Delivery.{
  arrive, message, read_frame-message, segment-message,
}

-- The state with these reads to come and these packets written; writes succeed.
abbrev pub at : Connection → List Arrival → List Bytes → Connection
at s incoming sent = record s {
  transport = record { incoming = incoming; write_results = []; sent = sent };
}

write_packets-sends :
    (packets : List Bytes) (s : Connection) (incoming : List Arrival) (sent : List Bytes)
    → write_packets packets (at s incoming sent) ≡ done (ok tt) (at s incoming (sent ++ packets))
unfolding write_packets
write_packets-sends [] s incoming sent =
    ap (λ t. done (ok tt) (at s incoming t)) (sym (append-nil sent))
write_packets-sends (packet ∷ rest) s incoming sent =
    write_packets-sends rest s incoming (sent ++ (packet ∷ []))
    ∙ ap (λ t. done (ok tt) (at s incoming t)) (append_assoc sent (packet ∷ []) rest)

pub write_framed-sends :
    (ctrl : ℕ) (payload : Bytes) (ps : List Bytes) (s : Connection) (incoming : List Arrival)
    (sent : List Bytes)
    → segment s.packet_size s.cid ctrl payload ≡ ok ps
    → write_framed ctrl payload (at s incoming sent) ≡ done (ok tt) (at s incoming (sent ++ ps))
unfolding write_framed
write_framed-sends ctrl payload ps s incoming sent e =
    ap (λ t. after (lift t (at s incoming sent)) (λ packets. write_packets packets)) e
    ∙ write_packets-sends ps s incoming sent

-- What `segment` asks for.
segment-fits :
    (packet_size cid ctrl : ℕ) (payload : Bytes) {ps : List Bytes}
    → segment packet_size cid ctrl payload ≡ ok ps
    → (5 < packet_size) × (length payload + crc_len < 2 ^ 16)
segment-fits packet_size cid ctrl payload e = elim (segment_sizes packet_size cid ctrl payload) [
  | inl (small, f) ↦ absurd (clash (sym f ∙ e))
  | inr (inl (room, long, f)) ↦ absurd (clash (sym f ∙ e))
  | inr (inr (room, fits, sized)) ↦ (room, omega arith)
]
  where
    clash : {e : TrezorError} {ps : List Bytes} → err e ≡ ok ps → ⊥
    clash h = cc

-- A control byte that a reader takes as one of a message.
abbrev pub IsMessage : ℕ → Type 0
IsMessage ctrl = (ctrl < 128) × (ctrl ≢ transport_error)

pub segment-arrives :
    (packet_size cid ctrl : ℕ) (payload : Bytes) (ps : List Bytes) (more : List Arrival)
    → segment packet_size cid ctrl payload ≡ ok ps
    → cid < 2 ^ 16
    → IsMessage ctrl
    → (read_frame (arrive ps more) new 0 ≡ some (ok (ctrl, payload), more)) × (1 ≤ length ps)
unfolding packets_of
segment-arrives packet_size cid ctrl payload ps more e hc (low, ne) =
    let (room, fits) = segment-fits packet_size cid ctrl payload e in
    let ms : List Bytes = message packet_size ctrl cid payload room fits hc low ne in
    let same : ms ≡ ps =
      ok_inj (sym (segment-message packet_size ctrl cid payload room fits hc low ne) ∙ e) in
    (
      ap (λ t. read_frame (arrive t more) new 0) (sym same)
          ∙ read_frame-message packet_size ctrl cid payload room fits hc low ne new 0 more,
      nonempty ms ps same (omega arith),
    )
  where
    ok_inj : {a b : List Bytes} → ◌≡◌ {A = Result (List Bytes)} (ok a) (ok b) → a ≡ b
    ok_inj h = cc

    nonempty : (a b : List Bytes) → a ≡ b → 1 ≤ length a → 1 ≤ length b
    nonempty a b h k = omega (arith, ap length h)

pub read_framed-arrives :
    (s : Connection) (sent : List Bytes) (packet_size cid ctrl : ℕ) (payload : Bytes)
    (ps : List Bytes) (more : List Arrival)
    → segment packet_size cid ctrl payload ≡ ok ps
    → cid < 2 ^ 16
    → IsMessage ctrl
    → read_framed (at s (arrive ps more) sent) ≡ done (ok (ctrl, payload)) (at s more sent)
unfolding read_framed
read_framed-arrives s sent packet_size cid ctrl payload ps more e hc hm =
    ap (received (at s (arrive ps more) sent))
      (segment-arrives packet_size cid ctrl payload ps more e hc hm).0

-- A message that comes `n` times before the other reads.
unfoldable pub repeated : ℕ → List Bytes → List Arrival → List Arrival
repeated zero ps more = more
repeated (suc n) ps more = arrive ps (repeated n ps more)

pub length-repeated :
    (n : ℕ) (ps : List Bytes) (more : List Arrival)
    → 1 ≤ length ps
    → n ≤ length (repeated n ps more)
unfolding repeated
length-repeated zero ps more h = omega arith
length-repeated (suc n) ps more h = omega (
  arith,
  length-append (map chunk ps) (repeated n ps more),
  length-chunks ps,
  length-repeated n ps more h,
)
  where
    length-chunks : (xs : List Bytes) → length (map chunk xs) ≡ length xs
    length-chunks [] = refl
    length-chunks (x ∷ xs) = ap suc (length-chunks xs)

pub ack_for-IsMessage : (seq : ℕ) → seq < 2 → IsMessage (ack_for seq)
unfolding ack_for
ack_for-IsMessage zero h = (omega arith, λ e. absurd (omega arith))
ack_for-IsMessage (suc zero) h = (omega arith, λ e. absurd (omega arith))
ack_for-IsMessage (suc (suc seq)) h = absurd (omega arith)
