-- ===== src/Client/Establish/Established.antt =====
-- What a session that is established comes to.
use maknoon_trezor_core_rs.Prelude.{
  ◌≢◌, ℕ, arith, ap, Bool-cases, ◌==◌, ==_iff, ◌≡◌, ◌⊎◌, inl, inr, refl, true, false, not, ◌&&◌,
  Option, none, some, [], Bytes, get_elem?,
}
use maknoon_trezor_core_rs.Error.{Result, ok, err}
use maknoon_trezor_core_rs.Proto.{Decoded, or_thp}
use maknoon_trezor_core_rs.Outcome.{
  Yields-run, Outcome, done, waiting, out_of_fuel, after, lift, Yields, Yields-after, Yields-weaken,
  Yields-lift, Yields-if,
}
use maknoon_trezor_core_rs.Bip32.{Text}
use maknoon_trezor_core_rs.Thp.Framing.{ble_packet_size}
use mathlib.Core.Option.{some-injective}
use maknoon_trezor_core_rs.Thp.Channel.{ChannelAllocation}
use maknoon_trezor_core_rs.Thp.Keys.{SessionKeys}
use maknoon_trezor_core_rs.Thp.Session.{from_handshake}
use maknoon_trezor_core_rs.Thp.Noise.{Crypto}
use maknoon_trezor_core_rs.Thp.Connection.{Connection, new, set_session}
use maknoon_trezor_core_rs.Thp.Connection.Flow.{allocate, handshake}
use maknoon_trezor_core_rs.Thp.Connection.App.{Messages, or_empty, transceive_on}
use maknoon_trezor_core_rs.Thp.Connection.Setup.{Assigned, allocate-Assigned, handshake-ends}
use maknoon_trezor_core_rs.Thp.Connection.Replies.{
  Replied, transceive-Replied, transceive_on-Replied,
}
use maknoon_trezor_core_rs.Thp.Pairing.{
  Features, PairingCodec, end_request, get_features, expect_type, t_end_request, t_end_response,
  mgmt_get_features, mgmt_features,
}
use maknoon_trezor_core_rs.Thp.Pairing.CodeEntry.{CodeEntryCodec, run_codeentry_pairing}
use maknoon_trezor_core_rs.Thp.Pairing.Committed.{run_codeentry_pairing-Returns}
use maknoon_trezor_core_rs.Client.{Client, Entropy, is_unpaired, to_array32}
use maknoon_trezor_core_rs.Client.Wallet.{Yields-result}
use maknoon_trezor_core_rs.Client.Establish.{
  DeviceProperties, PairedSession, PairingEntropy, is_some, own_conn, already_paired,
  paired_session, probe, thp_probe, obtain_credential, establish, establish_paired_session,
}

-- How a call over its own connection leaves the client: it ends, the slot is as it was, and a result
-- meets P.
pub KeepsSlot : {A : Type 0} (P : A → Type 0) (self : Client) (o : Outcome Client A) → Type 0
KeepsSlot P self (done (ok a) t) = P a × (t.pinned ≡ self.pinned)
KeepsSlot P self (done (err e) t) = t.pinned ≡ self.pinned
KeepsSlot P self (waiting t) = t.pinned ≡ self.pinned
KeepsSlot P self (out_of_fuel t) = ⊥

own_conn-KeepsSlot :
    {A : Type 0} (P : A → Type 0) (self : Client) (o : Outcome Connection A)
    → Yields (λ a t. P a) o
    → KeepsSlot P self (own_conn o self)
unfolding KeepsSlot Yields
own_conn-KeepsSlot P self (done (ok a) t) h = (h, refl)
own_conn-KeepsSlot P self (done (err e) t) h = refl
own_conn-KeepsSlot P self (waiting t) h = refl
own_conn-KeepsSlot P self (out_of_fuel t) h = h

-- The state byte that stands for an unpaired device.
is_unpaired_cases :
    (o : Option ℕ)
    → ((is_unpaired o ≡ true) × (o ≡ some 0)) ⊎ ((is_unpaired o ≡ false) × (o ≢ some 0))
is_unpaired_cases none = inr (refl, λ e. cc)
is_unpaired_cases (some n) = elim (Bool-cases (n == 0)) [
  | inl e ↦ inl (e, ap some ((==_iff n 0).0 e))
  | inr e ↦ inr (e, λ q. ne_of e (some-injective n 0 q))
]
  where
    ne_of : {a b : ℕ} → a == b ≡ false → a ≢ b
    ne_of ne = ground arith

to_array32-same : (v key : Bytes) → to_array32 v ≡ ok key → key ≡ v
unfolding to_array32
to_array32-same v key e = ground arith

module _ (c : Crypto) (decode : Bytes → Decoded DeviceProperties) where
  probe-ends :
      (host_static : Bytes) (entropy : Entropy) (s : Connection)
      → Yields (λ r t. Unit {0}) (probe c decode host_static entropy s)
  unfolding probe Yields
  probe-ends host_static entropy s =
      Yields-after (Assigned decode s) _ _ _ (allocate-Assigned decode entropy.allocation_nonce s)
        (λ a t h.
          Yields-after (λ keys w. Unit {0}) _ _ _
            (handshake-ends c a.device_properties_raw host_static none entropy.ephemeral_priv t)
            (λ keys w k. tt))

  module _ (sha512 : Bytes → Bytes) (msgs : Messages) (codec : CodeEntryCodec)
      (features : PairingCodec) (entropy : Entropy) (pairing_entropy : PairingEntropy)
      (host_name app_name : Text) (stored_credential : Option Bytes) where
    -- The credential is the stored one, if there is one and the device did not report itself unpaired;
    -- otherwise a run of the pairing issued it.
    abbrev pub KeptOrIssued : SessionKeys → Connection → Bytes → Connection → Type 0
    KeptOrIssued keys s credential t =
        ((stored_credential ≡ some credential) × (get_elem? keys.trezor_state 0 ≢ some 0) × (t ≡ s))
        ⊎ (((stored_credential ≡ none) ⊎ (get_elem? keys.trezor_state 0 ≡ some 0))
            × (run_codeentry_pairing c sha512 msgs codec keys.handshake_hash keys.host_static_pubkey
                  host_name app_name pairing_entropy.code_str pairing_entropy.challenge
                  pairing_entropy.host_priv s
                ≡ done (ok credential) t))

    -- The run of a session that was established, from the new connection on.
    abbrev pub Established : Bytes → Connection → PairedSession → Type 0
    Established host_static s session =
        (a : ChannelAllocation DeviceProperties) × (t : Connection) × (keys : SessionKeys)
        × (w : Connection) × (credential : Bytes) × (x : Connection) × (f : Features)
        × (y : Connection) × (z : Connection) × (allocate decode entropy.allocation_nonce s
            ≡ done (ok a) t)
        × (handshake c a.device_properties_raw host_static stored_credential entropy.ephemeral_priv
              t
            ≡ done (ok keys) w)
        × KeptOrIssued keys (set_session (from_handshake keys) w) credential x
        × (end_request c.aes msgs x ≡ done (ok tt) y)
        × (get_features c.aes msgs features y ≡ done (ok f) z)
        × (session ≡ paired_session f credential)

    choice :
        (o : Option Bytes) (state : Option ℕ)
        → ((is_some o && not (is_unpaired state)) ≡ true
            → (o ≡ some (or_empty o)) × (state ≢ some 0))
          × ((is_some o && not (is_unpaired state)) ≡ false → (o ≡ none) ⊎ (state ≡ some 0))
    choice none state = ((λ e. cc), (λ e. inl refl))
    choice (some x) state = elim (is_unpaired_cases state) [
      | inl (u, e) ↦ rw u ((λ q. cc), (λ q. inr e))
      | inr (u, e) ↦ rw u ((λ q. (refl, e)), (λ q. cc))
    ]

    obtain_credential-KeptOrIssued :
        (keys : SessionKeys) (s : Connection)
        → Yields (KeptOrIssued keys s) (
            obtain_credential c decode sha512 msgs codec features entropy pairing_entropy
              stored_credential keys host_name app_name s)
    unfolding obtain_credential Yields
    obtain_credential-KeptOrIssued keys s =
        let run =
          run_codeentry_pairing c sha512 msgs codec keys.handshake_hash keys.host_static_pubkey
            host_name app_name pairing_entropy.code_str pairing_entropy.challenge
            pairing_entropy.host_priv in
        let choices = choice stored_credential (get_elem? keys.trezor_state 0) in
        Yields-if _ (already_paired stored_credential keys) _ run s
          (λ e. inl ((choices.0 e).0, (choices.0 e).1, refl))
          (λ e.
            Yields-weaken _ _ (run s)
              (Yields-run _ (run s) (
                run_codeentry_pairing-Returns c sha512 msgs codec keys.handshake_hash
                  keys.host_static_pubkey host_name app_name pairing_entropy.code_str
                  pairing_entropy.challenge pairing_entropy.host_priv s))
              (λ credential t r. inr (choices.1 e, r.1)))

    end_request-ends : (s : Connection) → Yields (λ u t. Unit {0}) (end_request c.aes msgs s)
    unfolding end_request
    end_request-ends s =
        Yields-after (Replied c.aes msgs s) _ _ _ (transceive-Replied c.aes msgs s t_end_request [])
          (λ m t r. Yields-result _ (expect_type m.0 t_end_response "ThpEndResponse") t (λ u. tt))

    get_features-ends :
        (s : Connection) → Yields (λ f t. Unit {0}) (get_features c.aes msgs features s)
    unfolding get_features
    get_features-ends s =
        Yields-after {A = ℕ × Bytes} (Replied c.aes msgs (record s { active_session_id = 0 })) _
          (transceive_on c.aes msgs 0 mgmt_get_features features.get_features s) _
          (transceive_on-Replied c.aes msgs s 0 mgmt_get_features features.get_features)
          (λ m w r. Yields-lift _ (expect_type m.0 mgmt_features "Features") _ w (λ u' e.
            Yields-result _ (or_thp "features decode: " (features.features m.1)) w (λ f. tt)))

    establish-Established :
        (host_static : Bytes) (s : Connection)
        → Yields
            (λ p t. Established host_static s p)
            (establish c decode sha512 msgs codec features entropy pairing_entropy host_static
              host_name app_name stored_credential s)
    unfolding establish Yields
    establish-Established host_static s =
        let allocation = allocate decode entropy.allocation_nonce s in
        Yields-after _ _ allocation _
          (Yields-run _ allocation (allocate-Assigned decode entropy.allocation_nonce s))
          (λ a t r.
            let shake =
              handshake c a.device_properties_raw host_static stored_credential
                entropy.ephemeral_priv t in
            Yields-after _ _ shake _
              (Yields-run _ shake (
                handshake-ends c a.device_properties_raw host_static stored_credential
                  entropy.ephemeral_priv t))
              (λ keys w k.
                Yields-after (KeptOrIssued keys (set_session (from_handshake keys) w)) _ _ _
                  (obtain_credential-KeptOrIssued keys (set_session (from_handshake keys) w))
                  (λ credential x q.
                    Yields-after _ _ (end_request c.aes msgs x) _
                      (Yields-run _ (end_request c.aes msgs x) (end_request-ends x))
                      (λ u y e.
                        Yields-after _ _ (get_features c.aes msgs features y) _
                          (Yields-run _ (get_features c.aes msgs features y) (get_features-ends y))
                          (λ f z g. (
                            a, t, keys, w, credential, x, f, y, z, r.1, k.1, q, e.1, g.1, refl,
                          ))))))

    -- Probing a device and establishing a session with it end, whatever arrives, and leave the
    -- connection in the slot alone, on errors too. When a session is established, it is over a
    -- channel that was allocated on a new connection and a handshake with the host's key on it. Its
    -- credential is the stored one exactly when there is one and the state that the device reported
    -- in that handshake does not begin with 0; otherwise it is the one that the run of the pairing
    -- on that connection returned. Then the device ended the pairing phase, and the session has the
    -- features that it sent.
    pub establish_paired_session-KeepsSlot :
        (self : Client) (host_static host_static_priv : Bytes)
        → KeepsSlot (λ r. Unit {0}) self (thp_probe c decode host_static entropy self)
          × KeepsSlot (Established host_static_priv (new self.transport ble_packet_size)) self (
              establish_paired_session c decode sha512 msgs codec features entropy pairing_entropy
                host_static_priv host_name app_name stored_credential self)
    unfolding thp_probe establish_paired_session KeepsSlot
    establish_paired_session-KeepsSlot self host_static host_static_priv = (
      own_conn-KeepsSlot _ self _
          (probe-ends host_static entropy (new self.transport ble_packet_size)),
      checked (to_array32 host_static_priv) refl,
    )
      where
        checked :
            (r : Result Bytes)
            → to_array32 host_static_priv ≡ r
            → KeepsSlot (Established host_static_priv (new self.transport ble_packet_size)) self (
                after (lift r self) (λ key t.
                  own_conn
                    (establish c decode sha512 msgs codec features entropy pairing_entropy key
                      host_name app_name stored_credential
                      (new t.transport ble_packet_size))
                    t))
        checked (ok key) e = rw (to_array32-same host_static_priv key e) (
            own_conn-KeepsSlot _ self _
              (establish-Established host_static_priv (new self.transport ble_packet_size)))
        checked (err x) e = refl
