-- ===== src/Client/Wallet.antt =====
-- An operation works on a session of the wallet that was asked for, and never leaves a connection
-- that failed in the slot.
use maknoon_trezor_core_rs.Prelude.{
  ◌⊎◌, inl, inr, ◌≡◌, ◌≢◌, bytes_eq_refl, refl, sym, ap, ◌∙◌, Bool, true, false, not, ◌&&◌, Option,
  none, some, [], Bytes, bytes_eq→eq, get_elem?, if◌then◌else◌,
}
use maknoon_trezor_core_rs.Error.{Result, ok, err, guard}
use maknoon_trezor_core_rs.Proto.{Decoded}
use maknoon_trezor_core_rs.Outcome.{
  Outcome, Op, done, waiting, out_of_fuel, after, lift, Yields, Yields-run, Yields-after,
  Yields-weaken, Yields-lift,
}
use maknoon_trezor_core_rs.Bip32.{Text}
use maknoon_trezor_core_rs.Thp.Framing.{ble_packet_size}
use maknoon_trezor_core_rs.Thp.Session.{from_handshake}
use maknoon_trezor_core_rs.Thp.Noise.{Crypto}
use maknoon_trezor_core_rs.Thp.Connection.{Connection, SeededKey, new, set_session}
use maknoon_trezor_core_rs.Thp.Connection.Setup.{Assigned, allocate-Assigned, handshake-ends}
use maknoon_trezor_core_rs.Thp.Connection.App.{Messages}
use maknoon_trezor_core_rs.Thp.Connection.Replies.{
  Replied, transceive-Replied, Opened, create_seeded_session-Opened,
}
use maknoon_trezor_core_rs.Thp.Pairing.{end_request, t_end_request, t_end_response, expect_type}
use maknoon_trezor_core_rs.Client.{
  Client, PassphraseSpec, key_of, same_bool, same_passphrase, is_seeded_with, kept, settle,
  settle_new, Entropy, is_unpaired, open_paired_connection, connect, pinned_conn, to_array32,
  reconnect, ensure_slot, ensure_conn, run_on, pinned_op,
}

-- A result that a call returns as it is.
pub Yields-result :
    {S A : Type 0} (Q : A → S → Type 0) (r : Result A) (s : S)
    → ((a : A) → Q a s)
    → Yields Q (lift r s)
unfolding Yields
Yields-result Q (ok a) s h = h a
Yields-result Q (err e) s h = tt

-- The test of the slot finds equal keys only.
same_bool-eq : (a b : Bool) → same_bool a b ≡ true → a ≡ b
same_bool-eq true true h = refl
same_bool-eq true false h = cc
same_bool-eq false true h = cc
same_bool-eq false false h = refl

same_passphrase-eq : (p q : Option Text) → same_passphrase p q ≡ true → p ≡ q
same_passphrase-eq none none h = refl
same_passphrase-eq none (some q) h = cc
same_passphrase-eq (some p) none h = cc
same_passphrase-eq (some p) (some q) h = ap some (bytes_eq→eq p q h)

is_seeded_with-eq :
    (o : Option SeededKey) (key : SeededKey) → is_seeded_with o key ≡ true → o ≡ some key
is_seeded_with-eq none key h = cc
is_seeded_with-eq (some (p, b)) (q, d) h =
    let (same_p, same_b) = both (same_passphrase p q) (same_bool b d) h in
    ap (λ t. some (t, b)) (same_passphrase-eq p q same_p)
    ∙ ap (λ t. some (q, t)) (same_bool-eq b d same_b)
  where
    both : (x y : Bool) → (x && y) ≡ true → (x ≡ true) × (y ≡ true)
    both true true e = (refl, refl)
    both true false e = cc
    both false y e = cc

is_seeded_with_refl : (key : SeededKey) → is_seeded_with (some key) key ≡ true
is_seeded_with_refl (none, true) = refl
is_seeded_with_refl (none, false) = refl
is_seeded_with_refl (some p, true) = rw (bytes_eq_refl p) refl
is_seeded_with_refl (some p, false) = rw (bytes_eq_refl p) refl

-- No connection of the wallet is in the slot.
abbrev pub IsAbsent : SeededKey → Option Connection → Type 0
IsAbsent key slot = (old : Connection) → slot ≡ some old → old.seeded_with ≢ some key

kept-IsAbsent :
    (key : SeededKey) (slot : Option Connection) → kept key slot ≡ none → IsAbsent key slot
kept-IsAbsent key none e old h = λ q. absurd (differ h)
  where
    differ : {x : Connection} → ◌≡◌ {A = Option Connection} none (some x) → ⊥
    differ k = cc
kept-IsAbsent key (some conn) e old h = λ q.
    let same : conn ≡ old = cc in
    let hit : is_seeded_with conn.seeded_with key ≡ true =
      ap (λ x. is_seeded_with x key) (ap (λ x. x.seeded_with) same ∙ q) ∙ is_seeded_with_refl key in
    absurd (differ (rw hit at e))
  where
    differ : {x : Connection} → ◌≡◌ {A = Option Connection} (some x) none → ⊥
    differ k = cc

-- A connection that was seeded for a wallet.
abbrev pub Seeded : {A : Type 0} → SeededKey → A → Connection → Type 0
Seeded key a conn = conn.seeded_with ≡ some key

-- How an operation leaves the client: with the connection of the wallet in the slot, or with the
-- slot empty on an error; and it is no loop that was cut off.
pub Settles : {A : Type 0} (key : SeededKey) (o : Outcome Client A) → Type 0
Settles key (done (ok a) s) =
    (conn : Connection) × (s.pinned ≡ some conn) × (conn.seeded_with ≡ some key)
Settles key (done (err e) s) = s.pinned ≡ none
Settles key (waiting s) = Unit
Settles key (out_of_fuel s) = ⊥

settle-Settles :
    {A : Type 0} (key : SeededKey) (o : Outcome Connection A)
    → Yields (Seeded key) o
    → Settles key (settle o)
unfolding Settles Yields
settle-Settles key (done (ok a) conn) h = (conn, refl, h)
settle-Settles key (done (err e) conn) h = refl
settle-Settles key (waiting conn) h = tt
settle-Settles key (out_of_fuel conn) h = h

module _ (c : Crypto) {Props : Type 0} (decode : Bytes → Decoded Props) (msgs : Messages)
    (host_static_priv credential : Bytes) (entropy : Entropy) where
  open_paired_connection-ends :
      (hsp : Bytes) (s : Connection)
      → Yields (λ u t. Unit) (open_paired_connection c decode msgs hsp credential entropy s)
  unfolding open_paired_connection end_request Yields
  open_paired_connection-ends hsp s =
      Yields-after (Assigned decode s) _ _ _ (allocate-Assigned decode entropy.allocation_nonce s)
        (λ a t h.
          Yields-after (λ keys t'. Unit {0}) _ _ _
            (handshake-ends c a.device_properties_raw hsp (some credential) entropy.ephemeral_priv
              t)
            (λ keys w k.
              Yields-lift _ (guard (not (is_unpaired (get_elem? keys.trezor_state 0))) _) _ w
                (λ u e.
                  Yields-after (Replied c.aes msgs (set_session (from_handshake keys) w)) _ _ _
                    (transceive-Replied c.aes msgs (set_session (from_handshake keys) w)
                      t_end_request [])
                    (λ m x r.
                      Yields-result (λ u' x'. Unit {0})
                        (expect_type m.0 t_end_response "ThpEndResponse") x (λ u'. tt)))))

  -- A connection that was made over the client's transport: it was opened with the credential, and
  -- the device answered the request of a session for exactly this wallet with a success.
  abbrev pub Made : SeededKey → Client → Connection → Type 0
  Made key self conn =
      (hsp : Bytes) × (s : Connection) × (to_array32 host_static_priv ≡ ok hsp)
      × (open_paired_connection c decode msgs hsp credential entropy
            (new self.transport ble_packet_size)
          ≡ done (ok tt) s)
      × Opened c.aes msgs key.0 key.1 s conn

  -- The connection that was in the slot.
  abbrev pub Kept : SeededKey → Client → Connection → Type 0
  Kept key self conn =
      (old : Connection) × (self.pinned ≡ some old)
      × (old.seeded_with ≡ some key)
      × (conn ≡ record old { transport = self.transport })

  abbrev pub ForWallet : SeededKey → Client → Connection → Type 0
  ForWallet key self conn =
      (conn.seeded_with ≡ some key)
      × (Kept key self conn ⊎ (IsAbsent key self.pinned × Made key self conn))

  connect-Made :
      (hsp : Bytes) (key : SeededKey) (self : Client)
      → to_array32 host_static_priv ≡ ok hsp
      → Yields
          (λ u conn. Made key self conn)
          (connect c decode msgs hsp credential key entropy self.transport)
  unfolding connect
  connect-Made hsp key self same =
      let run =
        open_paired_connection c decode msgs hsp credential entropy
          (new self.transport ble_packet_size) in
      Yields-after (λ u t. Unit {0} × (run ≡ done (ok u) t)) _ run _
        (Yields-run (λ u t. Unit {0}) run
          (open_paired_connection-ends hsp (new self.transport ble_packet_size)))
        (λ u t h.
          Yields-weaken _ _ _ (create_seeded_session-Opened c.aes msgs t key.0 key.1)
            (λ u' w opened. (hsp, t, same, h.1, opened)))

  -- The connection for an operation: of the wallet, and an error has emptied the slot.
  abbrev Ready : SeededKey → Client → Outcome Client Connection → Type 0
  Ready key self o = Yields (λ conn t. ForWallet key self conn) o

  Opened-seeded :
      (key : SeededKey) (s t : Connection)
      → Opened c.aes msgs key.0 key.1 s t
      → t.seeded_with ≡ some key
  Opened-seeded key s t (body, w, run, e) = ap (λ x. x.seeded_with) e

  pinned_conn-Ready :
      (key : SeededKey) (self : Client) (o : Outcome Connection (Unit {0}))
      → IsAbsent key self.pinned
      → Yields (λ u conn. Made key self conn) o
      → Ready key self (after (settle_new o) (λ u t. pinned_conn c decode msgs t t.pinned))
  unfolding Yields
  pinned_conn-Ready key self (done (ok u) conn) absent (hsp, s, same, run, opened) =
      (Opened-seeded key s conn opened, inr (absent, (hsp, s, same, run, opened)))
  pinned_conn-Ready key self (done (err e) t) absent h = tt
  pinned_conn-Ready key self (waiting t) absent h = tt
  pinned_conn-Ready key self (out_of_fuel t) absent h = absurd h

  ensure_slot-Ready :
      (key : SeededKey) (self : Client) (slot : Option Connection)
      → ((conn : Connection)
          → slot ≡ some conn
          → (self.pinned ≡ some conn) × (conn.seeded_with ≡ some key))
      → (slot ≡ none → IsAbsent key self.pinned)
      → Ready key self (ensure_slot c decode msgs host_static_priv credential key entropy slot self)
  unfolding reconnect Yields
  ensure_slot-Ready key self (some conn) h absent =
      let (held, seeded) = h conn refl in (seeded, inl (conn, held, seeded, refl))
  ensure_slot-Ready key self none h absent =
      Yields-lift _ (to_array32 host_static_priv) _ (record self { pinned = none })
        (λ hsp e.
          pinned_conn-Ready key self
            (connect c decode msgs hsp credential key entropy self.transport) (absent refl)
            (connect-Made hsp key self e))

  kept-seeded :
      (key : SeededKey) (slot : Option Connection) (conn : Connection)
      → kept key slot ≡ some conn
      → (slot ≡ some conn) × (conn.seeded_with ≡ some key)
  kept-seeded key none conn e = cc
  kept-seeded key (some old) conn e = go (is_seeded_with old.seeded_with key) refl e
    where
      go :
          (b : Bool)
          → is_seeded_with old.seeded_with key ≡ b
          → (if b then some old else none) ≡ some conn
          → (some old ≡ some conn) × (conn.seeded_with ≡ some key)
      go true t f =
          let same : old ≡ conn = cc in
          (f, sym (ap (λ x. x.seeded_with) same) ∙ is_seeded_with-eq old.seeded_with key t)
      go false t f = cc

  -- Whatever the slot holds and whatever arrives, preparing the connection for a wallet ends. The
  -- connection that it gives is the one in the slot, if that records exactly the passphrase and place
  -- of entry that the wallet names; otherwise it was opened anew over the client's transport with the
  -- credential, after which the device answered the request to create a session for exactly that
  -- passphrase and place of entry with a success, and it records them.
  pub ensure_conn-seeded :
      (passphrase : PassphraseSpec) (self : Client)
      → Yields
          (λ conn t. ForWallet (key_of passphrase) self conn)
          (ensure_conn c decode msgs host_static_priv credential passphrase entropy self)
  unfolding ensure_conn
  ensure_conn-seeded passphrase self =
      ensure_slot-Ready (key_of passphrase) self (kept (key_of passphrase) self.pinned)
        (kept-seeded (key_of passphrase) self.pinned)
        (kept-IsAbsent (key_of passphrase) self.pinned)

  -- For an operation that ends and does not reseed the connection: it leaves the connection of the
  -- wallet that was asked for in the slot when it succeeds, and an empty slot when it, or the
  -- preparation of the connection, fails.
  pub pinned_op-Settles :
      {A : Type 0} (passphrase : PassphraseSpec) (op : Op Connection A) (self : Client)
      → ((s : Connection) → Yields (λ a t. t.seeded_with ≡ s.seeded_with) (op s))
      → Settles
          (key_of passphrase)
          (pinned_op c decode msgs host_static_priv credential passphrase entropy op self)
  unfolding pinned_op Settles Yields
  pinned_op-Settles passphrase op self keeps =
      run (ensure_conn c decode msgs host_static_priv credential passphrase entropy self)
        (ensure_conn-seeded passphrase self)
    where
      run :
          (o : Outcome Client Connection)
          → Ready (key_of passphrase) self o
          → Settles (key_of passphrase) (run_on c decode msgs op o)
      run (done (ok conn) t) h =
          settle-Settles (key_of passphrase) (op conn)
            (Yields-weaken _ (Seeded (key_of passphrase)) (op conn) (keeps conn) (λ a w k. k ∙ h.0))
      run (done (err e) t) h = refl
      run (waiting t) h = tt
      run (out_of_fuel t) h = h
