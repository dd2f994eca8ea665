-- ===== src/Client.antt =====
-- trezor-core/src/client.rs: the client, whose pinned connection every operation goes through. The
-- mutex serialises the operations, so each is one step on the client's state. Random bytes are
-- arguments.
pub mod Operations
pub mod Wallet
pub mod Paths
pub mod Settled
pub mod Altcoins
pub mod Bitcoin
pub mod BitcoinSettled
pub mod Psbt
pub mod Establish
pub mod AltcoinsSettled
mod Runs
use maknoon_trezor_core_rs.Prelude.{
  ℕ, Bool, true, false, not, ◌&&◌, Option, none, some, List, [], ◌∷◌, Bytes, bytes_eq, length,
  get_elem?, ◌==◌, if◌then◌else◌,
}
use maknoon_trezor_core_rs.Error.{TrezorError, pairing, lit, Result, ok, err, thp_error, guard}
use maknoon_trezor_core_rs.Proto.{Decoded}
use maknoon_trezor_core_rs.Outcome.{
  Outcome, Op, done, waiting, out_of_fuel, after, ◌>>=◌, ◌>>◌, lift, modify,
}
use maknoon_trezor_core_rs.Bip32.{Text, parse_path}
use maknoon_trezor_core_rs.Thp.Framing.{ble_packet_size}
use maknoon_trezor_core_rs.Thp.Session.{from_handshake}
use maknoon_trezor_core_rs.Thp.Noise.{Crypto}
use maknoon_trezor_core_rs.Thp.Connection.{Transport, Connection, SeededKey, new, set_session}
use maknoon_trezor_core_rs.Thp.Connection.Flow.{allocate, handshake}
use maknoon_trezor_core_rs.Thp.Connection.App.{Messages, create_seeded_session}
use maknoon_trezor_core_rs.Thp.Pairing.{end_request}

pub data PassphraseSpec : Type 0 where
  standard : PassphraseSpec
  on_device : PassphraseSpec
  host : Text → PassphraseSpec

-- The passphrase and `on_device` that `ensure_conn` asks for.
abbrev pub key_of : PassphraseSpec → SeededKey
key_of standard = (none, false)
key_of on_device = (none, true)
key_of (host passphrase) = (some passphrase, false)

unfoldable pub to_array32 : Bytes → Result Bytes
to_array32 v = if length v == 32 then ok v else err (thp_error "expected a 32-byte host static key")

abbrev pub resolve_path : Option Text → List ℕ → Result (List ℕ)
resolve_path (some p) fallback = parse_path p
resolve_path none fallback = ok fallback

-- The transport, which the connections share, and the slot.
pub record Client : Type 0 where
  pub transport : Transport
  pub pinned : Option Connection

-- `TrezorClient::new`
abbrev pub new_client : Transport → Client
new_client transport = record { transport = transport; pinned = none }

-- Whether two keys are equal.
abbrev pub same_bool : Bool → Bool → Bool
same_bool true b = b
same_bool false b = not b

abbrev pub same_passphrase : Option Text → Option Text → Bool
same_passphrase none none = true
same_passphrase none (some q) = false
same_passphrase (some p) none = false
same_passphrase (some p) (some q) = bytes_eq p q

abbrev pub is_seeded_with : Option SeededKey → SeededKey → Bool
is_seeded_with none key = false
is_seeded_with (some k) key = same_passphrase k.0 key.0 && same_bool k.1 key.1

-- The slot, emptied when its connection was seeded for another wallet.
abbrev pub kept : SeededKey → Option Connection → Option Connection
kept key none = none
kept key (some conn) = if is_seeded_with conn.seeded_with key then some conn else none

-- What a call on a connection leaves of the client: the transport as the call left it, and the
-- connection in the slot, which an error empties.
abbrev pub settle : {A : Type 0} → Outcome Connection A → Outcome Client A
settle (done (ok a) conn) = done (ok a) (record { transport = conn.transport; pinned = some conn })
settle (done (err e) conn) = done (err e) (record { transport = conn.transport; pinned = none })
settle (waiting conn) = waiting (record { transport = conn.transport; pinned = some conn })
settle (out_of_fuel conn) = out_of_fuel (record { transport = conn.transport; pinned = some conn })

-- What connecting leaves of the client: the slot holds the connection only when it succeeded.
abbrev pub settle_new : {A : Type 0} → Outcome Connection A → Outcome Client A
settle_new (done (ok a) conn) =
    done (ok a) (record { transport = conn.transport; pinned = some conn })
settle_new (done (err e) conn) = done (err e) (record { transport = conn.transport; pinned = none })
settle_new (waiting conn) = waiting (record { transport = conn.transport; pinned = none })
settle_new (out_of_fuel conn) = out_of_fuel (record { transport = conn.transport; pinned = none })

-- The random bytes of one connection.
pub record Entropy : Type 0 where
  pub allocation_nonce : Bytes
  pub ephemeral_priv : Bytes

abbrev pub is_unpaired : Option ℕ → Bool
is_unpaired none = false
is_unpaired (some state) = state == 0

module _ (c : Crypto) {Props : Type 0} (decode : Bytes → Decoded Props) (msgs : Messages) where
  unfoldable pub open_paired_connection : Bytes → Bytes → Entropy → Op Connection (Unit {0})
  open_paired_connection host_static_priv credential entropy = do
    allocation ← allocate decode entropy.allocation_nonce
    keys ←
        handshake c allocation.device_properties_raw host_static_priv (some credential)
          entropy.ephemeral_priv
    lift (
        guard (not (is_unpaired (get_elem? keys.trezor_state 0)))
          (pairing (lit "stored credential was rejected; re-pair the Trezor" ∷ [])))
    modify (set_session (from_handshake keys))
    end_request c.aes msgs

  -- A paired and seeded connection over the transport.
  unfoldable pub connect :
      Bytes → Bytes → SeededKey → Entropy → Transport → Outcome Connection (Unit {0})
  unfolding open_paired_connection
  connect hsp credential key entropy transport =
      (open_paired_connection hsp credential entropy
          >> create_seeded_session c.aes msgs key.0 key.1)
        (new transport ble_packet_size)

  -- The connection that a later call mutates through the slot.
  abbrev pub pinned_conn : Client → Option Connection → Outcome Client Connection
  pinned_conn self none = done (err (thp_error "connection just established")) self
  pinned_conn self (some conn) = done (ok (record conn { transport = self.transport })) self

  -- The slot is empty: a connection is opened into it.
  unfoldable pub reconnect : Bytes → Bytes → SeededKey → Entropy → Op Client Connection
  unfolding connect to_array32
  reconnect host_static_priv credential key entropy self =
      after (lift (to_array32 host_static_priv) (record self { pinned = none })) (λ hsp s.
        after (settle_new (connect hsp credential key entropy s.transport))
          (λ u t. pinned_conn t t.pinned))

  abbrev pub ensure_slot :
      Bytes → Bytes → SeededKey → Entropy → Option Connection → Op Client Connection
  ensure_slot host_static_priv credential key entropy (some conn) self =
      done (ok (record conn { transport = self.transport })) self
  ensure_slot host_static_priv credential key entropy none self =
      reconnect host_static_priv credential key entropy self

  unfoldable pub ensure_conn : Bytes → Bytes → PassphraseSpec → Entropy → Op Client Connection
  unfolding reconnect
  ensure_conn host_static_priv credential passphrase entropy self =
      ensure_slot host_static_priv credential (key_of passphrase) entropy
        (kept (key_of passphrase) self.pinned) self

  -- An operation on the pinned connection; an error empties the slot.
  abbrev pub run_on : {A : Type 0} → Op Connection A → Outcome Client Connection → Outcome Client A
  run_on op (done (ok conn) self) = settle (op conn)
  run_on op (done (err e) self) = done (err e) (record self { pinned = none })
  run_on op (waiting self) = waiting self
  run_on op (out_of_fuel self) = out_of_fuel self

  unfoldable pub pinned_op :
      {A : Type 0} → Bytes → Bytes → PassphraseSpec → Entropy → Op Connection A → Op Client A
  unfolding ensure_conn
  pinned_op host_static_priv credential passphrase entropy op self =
      run_on op (ensure_conn host_static_priv credential passphrase entropy self)
