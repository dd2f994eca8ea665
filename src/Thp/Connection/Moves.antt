-- ===== src/Thp/Connection/Moves.antt =====
-- What reading and writing a framed message changes of the connection: the transport only.
use maknoon_trezor_core_rs.Prelude.{
  ℕ, ◌<◌, ◌≡◌, refl, ap, ◌∙◌, Option, none, some, List, [], ◌∷◌, Bytes, length, ◌==◌, Bool-cases,
  inl, inr, arith, ◌≤◌,
}
use maknoon_trezor_core_rs.Error.{TransportError, Result, ok, err}
use maknoon_trezor_core_rs.Outcome.{done, Yields, Yields-after, Yields-weaken, Yields-lift}
use maknoon_trezor_core_rs.Thp.Control.{transport_error}
use maknoon_trezor_core_rs.Thp.Framing.{Reassembler, new, segment}
use maknoon_trezor_core_rs.Thp.Connection.{
  Arrival, chunk, failed, Transport, Connection, write_chunk, write_chunk_result,
}
use maknoon_trezor_core_rs.Thp.Connection.Framed.{
  write_packets, write_framed, read_step, read_frame, received, read_framed, latest,
}

abbrev pub on : Transport → Connection → Connection
on transport self = record self { transport = transport }

abbrev pub left : Connection → ℕ
left self = length self.transport.incoming

-- The reads that are left after a frame.
Shorter : ℕ → Option (Result (ℕ × Bytes) × List Arrival) → Type 0
Shorter n none = Unit
Shorter n (some (r, rest)) = length rest < n

Shorter-step :
    (n : ℕ) (r : Result (Option Bytes)) (ctrl : ℕ) (rest : List Arrival)
    (next : Option (Result (ℕ × Bytes) × List Arrival))
    → length rest < n
    → Shorter n next
    → Shorter n (read_step r ctrl rest next)
unfolding Shorter
Shorter-step n (err e) ctrl rest next h k = h
Shorter-step n (ok none) ctrl rest next h k = k
Shorter-step n (ok (some payload)) ctrl rest next h k =
    elim (Bool-cases (ctrl == transport_error)) [ inl e ↦ rw e h | inr e ↦ rw e h ]

read_frame-Shorter :
    (incoming : List Arrival) (reasm : Reassembler) (ctrl n : ℕ)
    → length incoming ≤ n
    → Shorter n (read_frame incoming reasm ctrl)
unfolding read_frame Shorter
read_frame-Shorter [] reasm ctrl n h = tt
read_frame-Shorter (failed e ∷ rest) reasm ctrl n h = omega arith
read_frame-Shorter (chunk [] ∷ rest) reasm ctrl n h =
    read_frame-Shorter rest reasm ctrl n (omega arith)
read_frame-Shorter (chunk (first ∷ bytes) ∷ rest) reasm ctrl n h =
    Shorter-step n _ (latest first ctrl) rest _ (omega arith)
      (read_frame-Shorter rest _ (latest first ctrl) n (omega arith))

-- A frame that was read.
abbrev pub Read : Connection → ℕ × Bytes → Connection → Type 0
Read s frame t = (t ≡ on t.transport s) × (left t < left s)

received-Read :
    (s : Connection) (f : Option (Result (ℕ × Bytes) × List Arrival))
    → Shorter (left s) f
    → Yields (Read s) (received s f)
unfolding Yields Shorter
received-Read s none h = tt
received-Read s (some (ok frame, rest)) h = (refl, h)
received-Read s (some (err e, rest)) h = tt

pub read_framed-Read : (s : Connection) → Yields (Read s) (read_framed s)
unfolding read_framed
read_framed-Read s =
    received-Read s (read_frame s.transport.incoming new 0)
      (read_frame-Shorter s.transport.incoming new 0 (left s) (omega arith))

-- Packets that were written.
abbrev pub Wrote : Connection → Unit {0} → Connection → Type 0
Wrote s u t = (t ≡ on t.transport s) × (left t ≡ left s)

write_chunk-Wrote : (s : Connection) (packet : Bytes) → Yields (Wrote s) (write_chunk packet s)
unfolding Yields
write_chunk-Wrote s packet = go s.transport.write_results
  where
    go : (rs : List (Option TransportError)) → Yields (Wrote s) (write_chunk_result rs packet s)
    go [] = (refl, refl)
    go (none ∷ rs) = (refl, refl)
    go (some e ∷ rs) = tt

-- Two moves in a row are one.
pub on_trans :
    (s : Connection) {t u : Connection}
    → t ≡ on t.transport s
    → u ≡ on u.transport t
    → u ≡ on u.transport s
on_trans s {t} {u} p q = q ∙ ap (on u.transport) p

write_packets-Wrote :
    (packets : List Bytes) (s : Connection) → Yields (Wrote s) (write_packets packets s)
unfolding write_packets Yields
write_packets-Wrote [] s = (refl, refl)
write_packets-Wrote (packet ∷ rest) s =
    Yields-after (Wrote s) (Wrote s) (write_chunk packet s) _ (write_chunk-Wrote s packet) (λ u t h.
      Yields-weaken (Wrote t) (Wrote s) _ (write_packets-Wrote rest t)
        (λ u' t' h'. (on_trans s h.0 h'.0, h'.1 ∙ h.1)))

pub write_framed-Wrote :
    (ctrl : ℕ) (payload : Bytes) (s : Connection) → Yields (Wrote s) (write_framed ctrl payload s)
unfolding write_framed
write_framed-Wrote ctrl payload s =
    Yields-lift (Wrote s) (segment s.packet_size s.cid ctrl payload) _ s
      (λ packets e. write_packets-Wrote packets s)

-- Frames that are read one behind another.
abbrev pub Frames : Connection → List (ℕ × Bytes) → Connection → Type 0
Frames s [] u = s ≡ u
Frames s (frame ∷ frames) u =
    (t : Connection) × (read_framed s ≡ done (ok frame) t) × Frames t frames u
