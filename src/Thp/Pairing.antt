-- ===== src/Thp/Pairing.antt =====
-- The two exchanges of trezor-core/src/thp/pairing.rs that every connection to a paired device makes:
-- the end of the pairing phase, and the device's features. The codecs are a parameter.
pub mod CodeEntry
pub mod Committed
pub mod Choreography
pub mod Transcript
mod Runs
use maknoon_trezor_core_rs.Prelude.{
  ℕ, String, Bool, Option, List, [], ◌∷◌, Bytes, ◌==◌, if◌then◌else◌,
}
use maknoon_trezor_core_rs.Error.{thp, lit, num, Result, ok, err}
use maknoon_trezor_core_rs.Proto.{Decoded, or_thp}
use maknoon_trezor_core_rs.Outcome.{Op, ◌>>=◌, ◌>>◌, lift}
use maknoon_trezor_core_rs.Thp.Aead.{Aes256Gcm}
use maknoon_trezor_core_rs.Thp.Connection.{Connection}
use maknoon_trezor_core_rs.Thp.Connection.App.{Messages, transceive, transceive_on}

abbrev pub t_end_request : ℕ
t_end_request = 1018

abbrev pub t_end_response : ℕ
t_end_response = 1019

abbrev pub mgmt_get_features : ℕ
mgmt_get_features = 55

abbrev pub mgmt_features : ℕ
mgmt_features = 17

-- The fields of `Features` that the client reads.
pub record Features : Type 0 where
  pub device_id : Option (List ℕ)
  pub model : Option (List ℕ)
  pub major_version : ℕ
  pub minor_version : ℕ
  pub patch_version : ℕ
  pub initialized : Option Bool

pub record PairingCodec : Type 0 where
  pub get_features : Bytes
  pub features : Bytes → Decoded Features

abbrev pub expect_type : ℕ → ℕ → String → Result (Unit {0})
expect_type actual expected what =
    if actual == expected
    then ok tt
    else err (
        thp (
          lit "expected "
          ∷ lit what
          ∷ lit " ("
          ∷ num expected
          ∷ lit "), got message type "
          ∷ num actual
          ∷ []))

module _ (aes : Aes256Gcm) (msgs : Messages) where
  unfoldable pub end_request : Op Connection (Unit {0})
  end_request = do
    (rt, _) ← transceive aes msgs t_end_request []
    lift (expect_type rt t_end_response "ThpEndResponse")

  unfoldable pub get_features : PairingCodec → Op Connection Features
  get_features codec = do
    (rt, rp) ← transceive_on aes msgs 0 mgmt_get_features codec.get_features
    lift (expect_type rt mgmt_features "Features")
    lift (or_thp "features decode: " (codec.features rp))
