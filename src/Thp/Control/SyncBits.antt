-- ===== src/Thp/Control/SyncBits.antt =====
-- The sync bits of control bytes: what is written is what is read back.
use maknoon_trezor_core_rs.Prelude.{
  ℕ, zero, suc, ◌<◌, ◌≡◌, refl, Bool, true, bit_and, ◌==◌, all_below, all_below-at, ==_iff, arith,
  if◌then◌else◌, ltb,
}
use maknoon_trezor_core_rs.Thp.Control.{
  with_seq, seq_of, is_ack, ack_seq_of, ack_for, seq_bit, not_byte,
}

-- Every base byte with either sequence bit, as one test each.
sync_ok : ℕ → ℕ → Bool
unfolding with_seq seq_of
sync_ok seq base = seq_of (with_seq base seq) == seq

kept_ok : ℕ → ℕ → Bool
unfolding with_seq
kept_ok seq base = bit_and (with_seq base seq) (not_byte seq_bit) == bit_and base (not_byte seq_bit)

byte_ok : ℕ → ℕ → Bool
unfolding with_seq
byte_ok seq base = ltb (with_seq base seq) 256

ack_ok : ℕ → Bool
unfolding is_ack ack_for ack_seq_of
ack_ok ctrl = if is_ack ctrl then ctrl == ack_for (ack_seq_of ctrl) else true

-- For a control byte and a sequence number 0 or 1: `with_seq` gives a byte, from which `seq_of`
-- reads the number back, and which agrees with the base byte in every other bit.
pub seq_of-with_seq :
    (base seq : ℕ)
    → base < 256
    → seq < 2
    → (seq_of (with_seq base seq) ≡ seq)
      × (bit_and (with_seq base seq) 0xef ≡ bit_and base 0xef)
      × (with_seq base seq < 256)
unfolding all_below sync_ok kept_ok byte_ok
seq_of-with_seq base zero h _ = (
  (==_iff _ _).0 (all_below-at 256 (sync_ok 0) base refl h),
  (==_iff _ _).0 (all_below-at 256 (kept_ok 0) base refl h),
  ground (arith, all_below-at 256 (byte_ok 0) base refl h),
)
seq_of-with_seq base (suc zero) h _ = (
  (==_iff _ _).0 (all_below-at 256 (sync_ok 1) base refl h),
  (==_iff _ _).0 (all_below-at 256 (kept_ok 1) base refl h),
  ground (arith, all_below-at 256 (byte_ok 1) base refl h),
)
seq_of-with_seq base (suc (suc seq)) h p = absurd (omega arith)

-- The control byte of an acknowledgement, for a sequence number 0 or 1.
pub ack_for-is_ack :
    (seq : ℕ)
    → seq < 2
    → (is_ack (ack_for seq) ≡ true) × (ack_seq_of (ack_for seq) ≡ seq) × (ack_for seq < 128)
unfolding is_ack ack_for ack_seq_of
ack_for-is_ack zero h = (refl, refl, omega arith)
ack_for-is_ack (suc zero) h = (refl, refl, omega arith)
ack_for-is_ack (suc (suc seq)) h = absurd (omega arith)

-- A byte passes `is_ack` exactly when it is the acknowledgement that `ack_for` builds for the
-- number that `ack_seq_of` reads from it.
pub is_ack-ack_for : (ctrl : ℕ) → ctrl < 256 → is_ack ctrl ≡ true → ctrl ≡ ack_for (ack_seq_of ctrl)
unfolding ack_ok all_below
is_ack-ack_for ctrl h e = ground (arith, all_below-at 256 ack_ok ctrl refl h)
