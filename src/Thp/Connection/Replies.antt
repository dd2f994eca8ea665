-- ===== src/Thp/Connection/Replies.antt =====
-- What `transceive` returns, and that its loop ends.
use maknoon_trezor_core_rs.Prelude.{
  ℕ, zero, suc, ◌<◌, ◌≤◌, ◌≡◌, ◌≢◌, inl, inr, refl, ap, ◌∙◌, Bool, false, Option, none, some, List,
  Bytes, ◌==◌, ==_iff, arith,
}
use maknoon_trezor_core_rs.Error.{ok}
use maknoon_trezor_core_rs.Outcome.{
  done, Yields-run, after, lift, ◌>>=◌, Yields, Yields-after, Yields-weaken, Yields-lift, Yields-if,
}
use maknoon_trezor_core_rs.Thp.Aead.{Aes256Gcm}
use maknoon_trezor_core_rs.Thp.Control.{encrypted_transport}
use maknoon_trezor_core_rs.Thp.Session.{
  Session, seal_message, open_message, encode_app_message, decode_app_message,
}
use maknoon_trezor_core_rs.Thp.Connection.{Connection, set_session}
use maknoon_trezor_core_rs.Thp.Connection.Abp.{send_data, recv_data}
use maknoon_trezor_core_rs.Thp.Connection.Moves.{left}
use maknoon_trezor_core_rs.Thp.Connection.Sync.{
  Acked, send_data-Acked, Received, recv_data-Received,
}
use maknoon_trezor_core_rs.Thp.Connection.App.{
  Messages, msg_success, msg_failure, msg_button_request, msg_button_ack, msg_create_new_session,
  seal_app, send_app, open_app, recv_app, await_reply, reply_rounds, transceive, transceive_on,
  create_seeded_session,
}

-- What application messages leave alone.
pub record IsKept (s t : Connection) : Type 0 where
  pub fewer : left t ≤ left s
  pub cid : t.cid ≡ s.cid
  pub packet_size : t.packet_size ≡ s.packet_size
  pub active : t.active_session_id ≡ s.active_session_id
  pub seeded : t.seeded_with ≡ s.seeded_with

pub IsKept-trans : (s t u : Connection) → IsKept s t → IsKept t u → IsKept s u
IsKept-trans s t u p q = record {
  fewer = omega (arith, p.fewer, q.fewer);
  cid = q.cid ∙ p.cid;
  packet_size = q.packet_size ∙ p.packet_size;
  active = q.active ∙ p.active;
  seeded = q.seeded ∙ p.seeded;
}

-- From a state that agrees with the earlier one in what is kept.
IsKept-on :
    (s t u : Connection)
    → left t ≤ left s
    → u.cid ≡ s.cid
    → u.packet_size ≡ s.packet_size
    → u.active_session_id ≡ s.active_session_id
    → u.seeded_with ≡ s.seeded_with
    → t ≡ u
    → IsKept s t
IsKept-on s t u l c p a k e = record {
  fewer = l;
  cid = ap (λ x. x.cid) e ∙ c;
  packet_size = ap (λ x. x.packet_size) e ∙ p;
  active = ap (λ x. x.active_session_id) e ∙ a;
  seeded = ap (λ x. x.seeded_with) e ∙ k;
}

Acked-IsKept : (s t : Connection) → Acked s tt t → IsKept s t
Acked-IsKept s t (fewer, inl e) = IsKept-on s t _ (omega arith) refl refl refl refl e
Acked-IsKept s t (fewer, inr (frame, fresh, e)) =
    IsKept-on s t _ (omega arith) refl refl refl refl e

Received-IsKept : (s t : Connection) (frame : ℕ × Bytes) → Received s frame t → IsKept s t
Received-IsKept s t frame (fewer, inl (p, e)) = IsKept-on s t _ fewer refl refl refl refl e
Received-IsKept s t frame (fewer, inr (p, fresh, e)) = IsKept-on s t _ fewer refl refl refl refl e

module _ (aes : Aes256Gcm) where
  send_app-IsKept :
      (s : Connection) (message_type : ℕ) (protobuf : Bytes)
      → Yields (λ u t. IsKept s t × (left t < left s)) (send_app aes message_type protobuf s)
  unfolding send_app Yields
  send_app-IsKept s message_type protobuf =
      go s.session (encode_app_message s.active_session_id message_type protobuf)
    where
      go :
          (o : Option Session) (payload : Bytes)
          → Yields
              (λ u t. IsKept s t × (left t < left s))
              (after (seal_app aes o payload s) (λ ct. send_data encrypted_transport ct))
      go none payload = tt
      go (some session) payload =
          let sealed = seal_message aes session payload in
          let t = set_session sealed.1 s in
          Yields-weaken (Acked t) _ (send_data encrypted_transport sealed.0 t)
            (send_data-Acked t encrypted_transport sealed.0)
            (λ u w a. (
              IsKept-trans s t w (IsKept-on s t t (omega arith) refl refl refl refl refl)
                  (Acked-IsKept t w a),
              a.0,
            ))

  recv_app-IsKept : (s : Connection) → Yields (λ m t. IsKept s t) (recv_app aes s)
  unfolding recv_app Yields
  recv_app-IsKept s =
      Yields-after (Received s) (λ m t. IsKept s t) (recv_data s) _ (recv_data-Received s)
        (λ frame t h. go t (Received-IsKept s t frame h) frame.1 t.session)
    where
      go :
          (t : Connection)
          → IsKept s t
          → (ct : Bytes) (o : Option Session)
          → Yields {A = ℕ × Bytes}
              (λ m t. IsKept s t)
              (after
                (open_app aes o ct t)
                (λ pt. lift (decode_app_message pt) >>= λ d. lift (ok (d.1, d.2))))
      go t k ct none = tt
      go t k ct (some session) =
          let opened = open_message aes session ct in
          let w = set_session opened.1 t in
          Yields-lift (λ m t. IsKept s t) opened.0 _ w
            (λ pt e.
              Yields-lift (λ m t. IsKept s t) (decode_app_message pt) _ w
                (λ d e'.
                  IsKept-trans s t w k (IsKept-on t w w (omega arith) refl refl refl refl refl)))

  module _ (msgs : Messages) where
    -- A reply to the caller.
    abbrev pub Replied : Connection → ℕ × Bytes → Connection → Type 0
    Replied s reply t = (reply.0 ≢ msg_button_request) × (reply.0 ≢ msg_failure) × IsKept s t

    Replied-after :
        (s t u : Connection) (reply : ℕ × Bytes)
        → IsKept s t
        → Replied t reply u
        → Replied s reply u
    Replied-after s t u reply k (b, f, k') = (b, f, IsKept-trans s t u k k')

    await_reply-Replied :
        (fuel : ℕ) (s : Connection)
        → left s < fuel
        → Yields (Replied s) (await_reply aes msgs fuel s)
    unfolding await_reply Yields
    await_reply-Replied zero s h = absurd (omega arith)
    await_reply-Replied (suc fuel) s h =
        Yields-after (λ m t. IsKept s t) (Replied s) (recv_app aes s) _ (recv_app-IsKept s)
          (λ m t k.
            Yields-if (Replied s) (m.0 == msg_button_request) _ _ t
              (λ e.
                Yields-after (λ u w. IsKept t w × (left w < left t)) (Replied s)
                  (send_app aes msg_button_ack msgs.button_ack t) _
                  (send_app-IsKept t msg_button_ack msgs.button_ack)
                  (λ u w q.
                    Yields-weaken (Replied w) (Replied s) _
                      (await_reply-Replied fuel w (omega (arith, q.1, k.fewer)))
                      (λ m' x r. Replied-after s w x m' (IsKept-trans s t w k q.0) r)))
              (λ ne.
                Yields-if (Replied s) (m.0 == msg_failure) _ _ t (λ e. tt)
                  (λ ne'. (ne_of ne, ne_of ne', k))))
      where
        ne_of : {a b : ℕ} → a == b ≡ false → a ≢ b
        ne_of ne = ground arith

    -- An exchange takes a read at least.
    pub transceive-Consumes :
        (s : Connection) (message_type : ℕ) (protobuf : Bytes)
        → Yields
            (λ m t. Replied s m t × (left t < left s))
            (transceive aes msgs message_type protobuf s)
    unfolding transceive
    transceive-Consumes s message_type protobuf =
        Yields-after (λ u t. IsKept s t × (left t < left s)) _
          (send_app aes message_type protobuf s) _ (send_app-IsKept s message_type protobuf)
          (λ u t h.
            Yields-weaken (Replied t) _ _
              (await_reply-Replied (reply_rounds aes msgs t) t (omega arith))
              (λ m w r. (Replied-after s t w m h.0 r, omega (arith, h.1, r.2.fewer))))

    -- An exchange ends, from any state and for whatever arrives: its loop, which acknowledges any
    -- number of button requests, is never cut off. What it returns is neither a button request nor
    -- a failure, and it leaves the channel, the session id and the record of the wallet as they were.
    pub transceive-Replied :
        (s : Connection) (message_type : ℕ) (protobuf : Bytes)
        → Yields (Replied s) (transceive aes msgs message_type protobuf s)
    transceive-Replied s message_type protobuf =
        Yields-weaken _ (Replied s) (transceive aes msgs message_type protobuf s)
          (transceive-Consumes s message_type protobuf) (λ m t r. r.0)

    -- The same on a session that the caller names, which becomes the active one.
    pub transceive_on-Replied :
        (s : Connection) (session_id message_type : ℕ) (protobuf : Bytes)
        → Yields
            (Replied (record s { active_session_id = session_id }))
            (transceive_on aes msgs session_id message_type protobuf s)
    unfolding transceive_on
    transceive_on-Replied s session_id message_type protobuf =
        transceive-Replied (record s { active_session_id = session_id }) message_type protobuf

    -- A seeded session that was opened: the device answered the request for exactly this wallet, on
    -- the seeded session id, with a success, and the connection records the wallet.
    abbrev pub Opened : Option (List ℕ) → Bool → Connection → Connection → Type 0
    Opened passphrase on_device s t =
        (body : Bytes) × (w : Connection) × (transceive aes msgs 1000
            (msgs.create_new_session passphrase on_device false)
            (record s { active_session_id = 1 })
          ≡ done (ok (2, body)) w)
        × (t ≡ record w { seeded_with = some (passphrase, on_device) })

    -- When a seeded session is opened without an error, it was opened for the wallet that was asked
    -- for. It always ends.
    pub create_seeded_session-Opened :
        (s : Connection) (passphrase : Option (List ℕ)) (on_device : Bool)
        → Yields
            (λ u t. Opened passphrase on_device s t)
            (create_seeded_session aes msgs passphrase on_device s)
    unfolding create_seeded_session Yields
    create_seeded_session-Opened s passphrase on_device =
        let start = record s { active_session_id = 1 } in
        let body = msgs.create_new_session passphrase on_device false in
        let run = transceive aes msgs msg_create_new_session body start in
        Yields-after (λ m t. Replied start m t × (run ≡ done (ok m) t)) _ run _
          (Yields-run (Replied start) run (transceive-Replied start msg_create_new_session body))
          (λ m t r.
            Yields-if _ (m.0 == msg_success) _ _ t
              (λ e.
                let success : m.0 ≡ 2 = (==_iff m.0 msg_success).0 e in
                (m.1, t, r.1 ∙ ap (λ k. done (ok (k, m.1)) t) success, refl))
              (λ e. tt))
