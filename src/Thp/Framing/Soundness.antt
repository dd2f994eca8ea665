-- ===== src/Thp/Framing/Soundness.antt =====
-- The reassembler's invariant: the subtraction and the reads behind the buffer stay in range.
use maknoon_trezor_core_rs.Prelude.{
  ℕ, zero, suc, ◌^◌, ◌≤◌, ◌<◌, ◌≡◌, true, [], ◌∷◌, Bytes, IsByte, All, from_be16, length, get_or,
  ltb, leb, arith, Bool-cases, inl, inr,
}
use maknoon_trezor_core_rs.Thp.Framing.{
  Reassembler, new, complete, started, push_continuation, push_initiation, push_packet,
  is_continuation, init_header, cont_header, crc_len,
}

-- A message in progress lacks at least one byte, and its length field covers the checksum. What
-- `push_packet` subtracts, `expected_len - buf.len()`, is then at least 1.
pub record IsSound (r : Reassembler) : Type 0 where
  pub lacks : r.active ≡ true → length r.buf < r.expected_len
  pub covers : r.active ≡ true → crc_len ≤ r.expected_len
  pub narrow : r.active ≡ true → r.expected_len < 2 ^ 16

pub new-IsSound : IsSound new
new-IsSound = record { lacks = λ e. cc; covers = λ e. cc; narrow = λ e. cc }

complete-IsSound :
    (r : Reassembler) → crc_len ≤ r.expected_len → r.expected_len < 2 ^ 16 → IsSound (complete r).1
unfolding complete
complete-IsSound r hc hn = elim (Bool-cases (leb r.expected_len (length r.buf))) [
  | inl full ↦ rw full (record { lacks = λ e. cc; covers = λ e. cc; narrow = λ e. cc })
  | inr more ↦ rw more (record { lacks = λ e. ground arith; covers = λ e. hc; narrow = λ e. hn })
]

from_be16-lt : (a b : ℕ) → a < 256 → b < 256 → from_be16 a b < 2 ^ 16
from_be16-lt a b ha hb = omega arith

get_or-IsByte : (p : Bytes) (i : ℕ) → All IsByte p → get_or p i 0 < 256
get_or-IsByte [] i h = omega arith
get_or-IsByte (x ∷ p) zero h = h.0
get_or-IsByte (x ∷ p) (suc i) h = get_or-IsByte p i h.1

push_continuation-IsSound :
    (r : Reassembler) (p : Bytes) → IsSound r → IsSound (push_continuation r p).1
unfolding push_continuation
push_continuation-IsSound r p h = elim (Bool-cases r.active) [
  | inr idle ↦ simp idle h
  | inl busy ↦ elim (Bool-cases (leb (length p) cont_header)) [
    | inl short ↦ simp (busy, short) h
    | inr long ↦ simp (busy, long) (complete-IsSound _ (h.covers busy) (h.narrow busy))
  ]
]

push_initiation-IsSound :
    (r : Reassembler) (p : Bytes) → All IsByte p → IsSound r → IsSound (push_initiation r p).1
unfolding push_initiation
push_initiation-IsSound r p bytes h =
    let len : ℕ = from_be16 (get_or p 3 0) (get_or p 4 0) in
    elim (Bool-cases (ltb (length p) init_header)) [
      | inl short ↦ simp short h
      | inr long ↦ elim (Bool-cases (ltb len crc_len)) [
        | inl small ↦ simp (long, small) h
        | inr large ↦ simp (long, large) (started-IsSound p (ground arith) bytes)
      ]
    ]
  where
    started-IsSound :
        (q : Bytes)
        → crc_len ≤ from_be16 (get_or q 3 0) (get_or q 4 0)
        → All IsByte q
        → IsSound (complete (started q)).1
    started-IsSound q hq bs =
        unfold started in
        complete-IsSound (started q) hq
          (from_be16-lt _ _ (get_or-IsByte q 3 bs) (get_or-IsByte q 4 bs))

-- From a sound state, a packet of bytes leaves a sound state, whatever is answered: the buffer of
-- a message in progress is shorter than the length that its header gives, which covers the
-- checksum and fits 16 bits.
pub push_packet-IsSound :
    (r : Reassembler) (p : Bytes) → All IsByte p → IsSound r → IsSound (push_packet r p).1
unfolding push_packet
push_packet-IsSound r [] bytes h = h
push_packet-IsSound r (c ∷ p) bytes h = elim (Bool-cases (is_continuation c)) [
  | inl e ↦ rw e (push_continuation-IsSound r (c ∷ p) h)
  | inr e ↦ rw e (push_initiation-IsSound r (c ∷ p) bytes h)
]

-- A continuation packet's channel id is not looked at: two that differ only there have the same
-- answer and leave the same state, also in the middle of another channel's message.
pub push_packet-any_channel :
    (r : Reassembler) (c x y x' y' : ℕ) (rest : Bytes)
    → is_continuation c ≡ true
    → push_packet r (c ∷ x ∷ y ∷ rest) ≡ push_packet r (c ∷ x' ∷ y' ∷ rest)
unfolding push_packet push_continuation
push_packet-any_channel r c x y x' y' rest e = rw e
