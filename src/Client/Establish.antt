-- ===== src/Client/Establish.antt =====
-- `thp_probe` and `establish_paired_session` of trezor-core/src/client.rs, each over a connection of
-- its own, and the methods that are not implemented. The two do not take the mutex: they are modelled
-- as calls that no other call of the client runs beside. A random generator that fails is not
-- modelled.
pub mod Established
mod Runs
use maknoon_trezor_core_rs.Prelude.{
  ℕ, Bool, true, false, not, ◌&&◌, Option, none, some, List, [], ◌∷◌, Bytes, get_elem?,
  if◌then◌else◌,
}
use maknoon_trezor_core_rs.Error.{Reason, lit, num, not_implemented, ok, err}
use maknoon_trezor_core_rs.Proto.{Decoded}
use maknoon_trezor_core_rs.Outcome.{
  Outcome, Op, done, waiting, out_of_fuel, ◌>>=◌, ◌>>◌, lift, modify,
}
use maknoon_trezor_core_rs.Bip32.{Text}
use maknoon_trezor_core_rs.Thp.Framing.{ble_packet_size}
use maknoon_trezor_core_rs.Thp.Keys.{SessionKeys}
use maknoon_trezor_core_rs.Thp.Session.{from_handshake}
use maknoon_trezor_core_rs.Thp.Noise.{Crypto}
use maknoon_trezor_core_rs.Thp.Connection.{Transport, Connection, new, set_session}
use maknoon_trezor_core_rs.Thp.Connection.Flow.{allocate, handshake}
use maknoon_trezor_core_rs.Thp.Connection.App.{Messages, or_empty}
use maknoon_trezor_core_rs.Thp.Pairing.{Features, PairingCodec, end_request, get_features}
use maknoon_trezor_core_rs.Thp.Pairing.CodeEntry.{CodeEntryCodec, run_codeentry_pairing}
use maknoon_trezor_core_rs.Client.{Client, Entropy, is_unpaired, to_array32}

-- The fields of `ThpDeviceProperties` that are read.
pub record DeviceProperties : Type 0 where
  pub internal_model : Text
  pub protocol_version_major : ℕ
  pub protocol_version_minor : ℕ
  pub pairing_methods : List ℕ

pub record ThpProbeResult : Type 0 where
  pub internal_model : Text
  pub protocol_version_major : ℕ
  pub protocol_version_minor : ℕ
  pub pairing_methods : List ℕ
  pub trezor_state : Bytes

-- The firmware's version is the text that `format!` joins.
pub record PairedSession : Type 0 where
  pub device_id : Text
  pub model : Text
  pub firmware_version : Reason
  pub initialized : Bool
  pub credential : Bytes

-- The random bytes of the pairing, and the text that the code provider returns.
pub record PairingEntropy : Type 0 where
  pub challenge : Bytes
  pub host_priv : Bytes
  pub code_str : Text

abbrev pub is_some : {A : Type 0} → Option A → Bool
is_some none = false
is_some (some a) = true

abbrev pub or_false : Option Bool → Bool
or_false none = false
or_false (some b) = b

-- A call on a new connection over the client's transport: the slot is not touched.
abbrev pub own_conn : {A : Type 0} → Outcome Connection A → Client → Outcome Client A
own_conn (done r conn) self = done r (record self { transport = conn.transport })
own_conn (waiting conn) self = waiting (record self { transport = conn.transport })
own_conn (out_of_fuel conn) self = out_of_fuel (record self { transport = conn.transport })

abbrev pub already_paired : Option Bytes → SessionKeys → Bool
already_paired stored_credential keys =
    is_some stored_credential && not (is_unpaired (get_elem? keys.trezor_state 0))

abbrev pub paired_session : Features → Bytes → PairedSession
paired_session features credential = record {
  device_id = or_empty features.device_id;
  model = or_empty features.model;
  firmware_version =
      num features.major_version
      ∷ lit "."
      ∷ num features.minor_version
      ∷ lit "."
      ∷ num features.patch_version
      ∷ [];
  initialized = or_false features.initialized;
  credential = credential;
}

-- The identity that `identify` is to return.
pub record TrezorFeatures : Type 0 where
  pub device_id : Text
  pub model : Text
  pub firmware_version : Text
  pub initialized : Bool

-- The four methods that are not implemented.
unfoldable pub identify : Op Client TrezorFeatures
identify = lift (err (not_implemented (lit "identify (THP handshake)" ∷ [])))

unfoldable pub pair : Op Client Bytes
pair = lift (err (not_implemented (lit "pair (secp256k1 attestor pubkey)" ∷ [])))

unfoldable pub sign_message : Bytes → Op Client Bytes
sign_message message = lift (err (not_implemented (lit "sign_message (secp256k1 R||S)" ∷ [])))

unfoldable pub get_tron_pubkey : ℕ → Op Client Bytes
get_tron_pubkey account =
    lift
      (err (not_implemented (lit "get_tron_pubkey (Trezor Tron has no public-key message)" ∷ [])))

module _ (c : Crypto) (decode : Bytes → Decoded DeviceProperties) where
  unfoldable pub probe : Bytes → Entropy → Op Connection ThpProbeResult
  probe host_static entropy = do
    allocation ← allocate decode entropy.allocation_nonce
    keys ← handshake c allocation.device_properties_raw host_static none entropy.ephemeral_priv
    let props = allocation.device_properties
    lift (
        ok (record {
          internal_model = props.internal_model;
          protocol_version_major = props.protocol_version_major;
          protocol_version_minor = props.protocol_version_minor;
          pairing_methods = props.pairing_methods;
          trezor_state = keys.trezor_state;
        }))

  unfoldable pub thp_probe : Bytes → Entropy → Op Client ThpProbeResult
  unfolding probe
  thp_probe host_static entropy self =
      own_conn (probe host_static entropy (new self.transport ble_packet_size)) self

  module _ (sha512 : Bytes → Bytes) (msgs : Messages) (codec : CodeEntryCodec)
      (features : PairingCodec) (entropy : Entropy) (pairing_entropy : PairingEntropy) where
    -- A stored credential that the device accepts is kept; otherwise the device is paired by a code.
    unfoldable pub obtain_credential :
        Option Bytes → SessionKeys → Text → Text → Op Connection Bytes
    obtain_credential stored_credential keys host_name app_name =
        if already_paired stored_credential keys
        then lift (ok (or_empty stored_credential))
        else run_codeentry_pairing c sha512 msgs codec keys.handshake_hash keys.host_static_pubkey
            host_name app_name pairing_entropy.code_str pairing_entropy.challenge
            pairing_entropy.host_priv

    -- `establish_paired_session` on its connection.
    unfoldable pub establish : Bytes → Text → Text → Option Bytes → Op Connection PairedSession
    unfolding obtain_credential
    establish host_static host_name app_name stored_credential = do
      allocation ← allocate decode entropy.allocation_nonce
      keys ←
          handshake c allocation.device_properties_raw host_static stored_credential
            entropy.ephemeral_priv
      modify (set_session (from_handshake keys))
      credential ← obtain_credential stored_credential keys host_name app_name
      end_request c.aes msgs
      f ← get_features c.aes msgs features
      lift (ok (paired_session f credential))

    unfoldable pub establish_paired_session :
        Bytes → Text → Text → Option Bytes → Op Client PairedSession
    unfolding establish
    establish_paired_session host_static_priv host_name app_name stored_credential = do
      host_static ← lift (to_array32 host_static_priv)
      λ self.
          own_conn
            (establish host_static host_name app_name stored_credential
              (new self.transport ble_packet_size))
            self
