-- ===== src/Chains/Reply.antt =====
-- The test of a reply's type and the decoding of its body, which every message of
-- trezor-core/src/chains shares, and the types of trezor-core/src/types.rs.
use maknoon_trezor_core_rs.Prelude.{
  ℕ, String, Option, none, some, [], ◌∷◌, Bytes, ◌==◌, if◌then◌else◌,
}
use maknoon_trezor_core_rs.Error.{thp, lit, num, Result, ok, err, thp_error}

-- "expected {what} ({code}), got message type {rt}"
abbrev pub expect_type : String → ℕ → ℕ → Result (Unit {0})
expect_type what code rt =
    if rt == code
    then ok tt
    else err (
        thp (
          lit "expected "
          ∷ lit what
          ∷ lit " ("
          ∷ num code
          ∷ lit "), got message type "
          ∷ num rt
          ∷ []))

-- `Option::ok_or_else`
abbrev pub required : {A : Type 0} → String → Option A → Result A
required what none = err (thp_error what)
required what (some a) = ok a

pub record Secp256k1Signature : Type 0 where
  pub v : ℕ
  pub r : Bytes
  pub s : Bytes

-- `0x8000_0000 | n`
abbrev pub hardened_bit : ℕ
hardened_bit = 0x80000000
