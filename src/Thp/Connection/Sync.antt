-- ===== src/Thp/Connection/Sync.antt =====
-- The sequence bits under the Alternating Bit Protocol.
use maknoon_trezor_core_rs.Prelude.{
  ℕ, zero, suc, ◌<◌, ◌≤◌, ◌≡◌, ◌≢◌, ◌⊎◌, inl, inr, refl, sym, ap, ◌∙◌, Option, none, some, List, [],
  ◌∷◌, All, true, Bytes, ◌==◌, ==_iff, false, arith,
}
use maknoon_trezor_core_rs.Error.{ok}
use maknoon_trezor_core_rs.Outcome.{
  done, Yields-run, Op, Yields, Yields-after, Yields-weaken, Yields-if,
}
use maknoon_trezor_core_rs.Thp.Control.{with_seq, seq_of, is_ack, ack_seq_of, ack_for}
use maknoon_trezor_core_rs.Thp.Connection.{Connection}
use maknoon_trezor_core_rs.Thp.Connection.Framed.{write_framed, read_framed}
use maknoon_trezor_core_rs.Thp.Connection.Abp.{
  send_ack, flip_send, flip_recv, implicit_ack, await_ack, rounds, send_data, accept_data,
  await_data, recv_pending, recv_data,
}
use maknoon_trezor_core_rs.Thp.Connection.Moves.{
  Frames, on, left, Read, read_framed-Read, Wrote, write_framed-Wrote, on_trans,
}

-- A frame that carries fresh data.
abbrev pub Fresh : Connection → ℕ × Bytes → Type 0
Fresh s frame = (is_ack frame.0 ≡ false) × (seq_of frame.0 ≡ s.recv_seq)

-- A message was acknowledged: the send bit changes, and a fresh frame that came in the place of
-- the ACK is kept and changes the receive bit.
abbrev pub stashed : ℕ × Bytes → Connection → Connection
stashed frame self = record (flip_recv (flip_send self)) { pending_data = some frame }

abbrev pub Acked : Connection → Unit {0} → Connection → Type 0
Acked s u t =
    (left t < left s)
    × ((t ≡ on t.transport (flip_send s))
        ⊎ ((frame : ℕ × Bytes) × Fresh s frame × (t ≡ on t.transport (stashed frame s))))

-- An acknowledgement of another message.
abbrev pub IsStale : Connection → ℕ × Bytes → Type 0
IsStale s frame = (is_ack frame.0 ≡ true) × (ack_seq_of frame.0 ≢ s.send_seq)

-- What the frame that ends the wait makes of the state: it is the acknowledgement of the message, or
-- fresh data, which is kept, or data that has been received before.
abbrev pub Settled : Connection → ℕ × Bytes → Connection → Type 0
Settled s frame t =
    ((is_ack frame.0 ≡ true)
      × (ack_seq_of frame.0 ≡ s.send_seq)
      × (t ≡ on t.transport (flip_send s)))
    ⊎ (Fresh s frame × (t ≡ on t.transport (stashed frame s)))
    ⊎ ((is_ack frame.0 ≡ false)
        × (seq_of frame.0 ≢ s.recv_seq)
        × (t ≡ on t.transport (flip_send s)))

-- The transport behind the frame that ends the wait: as the read of it left it, or, for data, as
-- the writing of its acknowledgement left it.
abbrev pub Answered : ℕ × Bytes → Connection → Connection → Type 0
Answered frame v t =
    ((is_ack frame.0 ≡ true) × (t.transport ≡ v.transport))
    ⊎ ((is_ack frame.0 ≡ false)
        × (z : Connection) × (write_framed (ack_for (seq_of frame.0)) [] (flip_send v)
            ≡ done (ok tt) z)
        × (t.transport ≡ z.transport))

-- The frames that a wait reads: stale acknowledgements, and the one that ends it.
abbrev pub Awaits : Connection → Connection → Type 0
Awaits s t =
    (stale : List (ℕ × Bytes)) × (w : Connection) × (frame : ℕ × Bytes) × (v : Connection) × Frames
      s stale w
    × All (IsStale s) stale
    × (read_framed w ≡ done (ok frame) v)
    × Settled s frame t
    × Answered frame v t

abbrev Waited : Connection → Unit {0} → Connection → Type 0
Waited s u t = (left t < left s) × Awaits s t

ne_of : {a b : ℕ} → a == b ≡ false → a ≢ b
ne_of ne = ground arith

implicit_ack-Settled :
    (s t : Connection) (rctrl : ℕ) (rpayload : Bytes)
    → is_ack rctrl ≡ false
    → Read s (rctrl, rpayload) t
    → Yields
        (λ u w. (left w < left s) × Settled s (rctrl, rpayload) w × Answered (rctrl, rpayload) t w)
        (implicit_ack rctrl rpayload t)
unfolding implicit_ack send_ack Yields
implicit_ack-Settled s t rctrl rpayload na h =
    let run = write_framed (ack_for (seq_of rctrl)) [] (flip_send t) in
    Yields-after (λ u w. Wrote (flip_send t) u w × (run ≡ done (ok u) w)) _ run _
      (Yields-run (Wrote (flip_send t)) run
        (write_framed-Wrote (ack_for (seq_of rctrl)) [] (flip_send t)))
      (λ u w (k, wrote).
        let moved : w ≡ on w.transport (flip_send s) =
          on_trans (flip_send s) (ap flip_send h.0) k.0 in
        let fewer : left w < left s = omega (arith, k.1, h.1) in
        let same : w.recv_seq ≡ s.recv_seq = ap (λ x. x.recv_seq) moved in
        let answered : Answered (rctrl, rpayload) t w = inr (na, w, wrote, refl) in
        Yields-if _ (seq_of rctrl == w.recv_seq) _ _ w
          (λ e. (
            fewer,
            inr (
                inl (
                  (na, (==_iff _ _).0 e ∙ same),
                  ap (λ x. record (flip_recv x) { pending_data = some (rctrl, rpayload) }) moved,
                )),
            inr (na, w, wrote, refl),
          ))
          (λ e. (fewer, inr (inr (na, (λ q. ne_of e (q ∙ sym same)), moved)), answered)))

-- What holds of a later state holds of an earlier one that it moved from.
Settled-after :
    (s t u : Connection) (frame : ℕ × Bytes)
    → t ≡ on t.transport s
    → Settled t frame u
    → Settled s frame u
Settled-after s t u frame m (inl (a, seq, e)) =
    inl (a, seq ∙ ap (λ x. x.send_seq) m, on_trans (flip_send s) (ap flip_send m) e)
Settled-after s t u frame m (inr (inl (fresh, e))) = inr (
    inl (
      (fresh.0, fresh.1 ∙ ap (λ x. x.recv_seq) m),
      on_trans (stashed frame s) (ap (stashed frame) m) e,
    ))
Settled-after s t u frame m (inr (inr (na, ne, e))) = inr (
    inr
      (na, (λ q. ne (q ∙ sym (ap (λ x. x.recv_seq) m))), on_trans (flip_send s) (ap flip_send m) e))

IsStale-after :
    (s t : Connection) (frames : List (ℕ × Bytes))
    → t ≡ on t.transport s
    → All (IsStale t) frames
    → All (IsStale s) frames
IsStale-after s t [] m h = tt
IsStale-after s t (frame ∷ frames) m h =
    ((h.0.0, (λ q. h.0.1 (q ∙ sym (ap (λ x. x.send_seq) m)))), IsStale-after s t frames m h.1)

await_ack-Waited :
    (fuel : ℕ) (s : Connection) → left s < fuel → Yields (Waited s) (await_ack fuel s)
unfolding await_ack Yields
await_ack-Waited zero s h = absurd (omega arith)
await_ack-Waited (suc fuel) s h =
    Yields-after (λ frame t. Read s frame t × (read_framed s ≡ done (ok frame) t)) (Waited s)
      (read_framed s) _ (Yields-run (Read s) (read_framed s) (read_framed-Read s))
      (λ frame t (k, run).
        Yields-if (Waited s) (is_ack frame.0) _ _ t
          (λ e.
            Yields-if (Waited s) (ack_seq_of frame.0 == t.send_seq) _ _ t
              (λ hit. (
                k.1,
                (
                  [],
                  s,
                  frame,
                  t,
                  refl,
                  tt,
                  run,
                  inl (e, (==_iff _ _).0 hit ∙ ap (λ x. x.send_seq) k.0, ap flip_send k.0),
                  inl (e, refl),
                ),
              ))
              (λ old.
                Yields-weaken (Waited t) (Waited s) _ (await_ack-Waited fuel t (omega (arith, k.1)))
                  (λ u w (fewer, (stale, x, last, v, frames, all, read, settled, answered)). (
                    omega (arith, k.1, fewer),
                    (
                      frame ∷ stale,
                      x,
                      last,
                      v,
                      (t, run, frames),
                      (
                        (e, (λ q. ne_of old (q ∙ sym (ap (λ y. y.send_seq) k.0)))),
                        IsStale-after s t stale k.0 all,
                      ),
                      read,
                      Settled-after s t w last k.0 settled,
                      answered,
                    ),
                  ))))
          (λ e.
            Yields-weaken _ (Waited s) _ (implicit_ack-Settled s t frame.0 frame.1 e k)
              (λ u w a. (a.0, ([], s, frame, t, refl, tt, run, a.1, a.2)))))

-- The message was written, and the wait for its acknowledgement ended.
abbrev pub Sent : Connection → ℕ → Bytes → Connection → Type 0
Sent s base_ctrl payload t =
    (w : Connection) × (write_framed (with_seq base_ctrl s.send_seq) payload s ≡ done (ok tt) w)
    × (w ≡ on w.transport s)
    × (left t < left s)
    × Awaits w t

-- From any state and for whatever arrives, sending a message ends: it returns, with an error or
-- not, or waits for a read that does not come; its loop is never cut off. When it returns without
-- an error, the message was written under the send bit, and behind any number of acknowledgements
-- of the other bit a frame ended the wait: the acknowledgement of the message, upon which the send
-- bit has changed and nothing else but the transport; or data with the sequence bit that is
-- expected, which is kept, and the receive bit has changed too; or data with the other bit, which
-- is not kept. Data of either kind was acknowledged with its own bit.
pub send_data-Sent :
    (s : Connection) (base_ctrl : ℕ) (payload : Bytes)
    → Yields (λ u t. Sent s base_ctrl payload t) (send_data base_ctrl payload s)
unfolding send_data
send_data-Sent s base_ctrl payload =
    let run = write_framed (with_seq base_ctrl s.send_seq) payload s in
    Yields-after (λ u t. Wrote s u t × (run ≡ done (ok u) t)) _ run _
      (Yields-run (Wrote s) run (write_framed-Wrote (with_seq base_ctrl s.send_seq) payload s))
      (λ u t h.
        Yields-weaken (Waited t) _ _ (await_ack-Waited (rounds s) t (omega (arith, h.0.1)))
          (λ u' w a. (t, h.1, h.0.0, omega (arith, a.0, h.0.1), a.1)))

-- The coarse view of it.
pub send_data-Acked :
    (s : Connection) (base_ctrl : ℕ) (payload : Bytes)
    → Yields (Acked s) (send_data base_ctrl payload s)
send_data-Acked s base_ctrl payload =
    Yields-weaken _ (Acked s) (send_data base_ctrl payload s) (send_data-Sent s base_ctrl payload)
      (λ u t (w, run, m, fewer, (stale, x, frame, v, frames, all, read, settled, answered)).
        (fewer, coarse w t frame (Settled-after s w t frame m settled)))
  where
    coarse :
        (w t : Connection) (frame : ℕ × Bytes)
        → Settled s frame t
        → (t ≡ on t.transport (flip_send s))
          ⊎ ((frame : ℕ × Bytes) × Fresh s frame × (t ≡ on t.transport (stashed frame s)))
    coarse w t frame (inl (a, b, e)) = inl e
    coarse w t frame (inr (inl (fresh, e))) = inr (frame, fresh, e)
    coarse w t frame (inr (inr (a, b, e))) = inl e

-- A message that was received: the frame that was kept, or a fresh one that was read.
abbrev pub Received : Connection → ℕ × Bytes → Connection → Type 0
Received s frame t =
    (left t ≤ left s)
    × (((s.pending_data ≡ some frame) × (t ≡ record s { pending_data = none }))
        ⊎ ((s.pending_data ≡ none) × Fresh s frame × (t ≡ on t.transport (flip_recv s))))

-- A fresh frame out of the loop.
abbrev Awaited : Connection → ℕ × Bytes → Connection → Type 0
Awaited s frame t = (left t ≤ left s) × Fresh s frame × (t ≡ on t.transport (flip_recv s))

Awaited-after :
    (s t u : Connection) (frame : ℕ × Bytes)
    → t ≡ on t.transport s
    → left t ≤ left s
    → Awaited t frame u
    → Awaited s frame u
Awaited-after s t u frame m l (fewer, (na, seq), e) =
    (omega arith, (na, seq ∙ ap (λ x. x.recv_seq) m), on_trans (flip_recv s) (ap flip_recv m) e)

accept_data-Awaited :
    (s : Connection) (ctrl : ℕ) (payload : Bytes) (again : Op Connection (ℕ × Bytes))
    → is_ack ctrl ≡ false
    → ((t : Connection) → left t ≤ left s → Yields (Awaited t) (again t))
    → Yields (Awaited s) (accept_data ctrl payload again s)
unfolding accept_data send_ack Yields
accept_data-Awaited s ctrl payload again na k =
    Yields-after (Wrote s) (Awaited s) (write_framed (ack_for (seq_of ctrl)) [] s) _
      (write_framed-Wrote (ack_for (seq_of ctrl)) [] s)
      (λ u t h.
        Yields-if (Awaited s) (seq_of ctrl == t.recv_seq) _ _ t
          (λ e. (
            omega (arith, h.1),
            (na, (==_iff _ _).0 e ∙ ap (λ x. x.recv_seq) h.0),
            ap flip_recv h.0,
          ))
          (λ e.
            Yields-weaken (Awaited t) (Awaited s) _ (k t (omega (arith, h.1)))
              (λ frame w a. Awaited-after s t w frame h.0 (omega (arith, h.1)) a)))

await_data-Awaited :
    (fuel : ℕ) (s : Connection) → left s < fuel → Yields (Awaited s) (await_data fuel s)
unfolding await_data
await_data-Awaited zero s h = absurd (omega arith)
await_data-Awaited (suc fuel) s h =
    Yields-after (Read s) (Awaited s) (read_framed s) _ (read_framed-Read s) (λ frame t k.
      let later : (x : ℕ × Bytes) (w : Connection) → Awaited t x w → Awaited s x w =
        λ x w a. Awaited-after s t w x k.0 (omega (arith, k.1)) a in
      Yields-if (Awaited s) (is_ack frame.0) _ _ t
        (λ e.
          Yields-weaken (Awaited t) (Awaited s) _ (await_data-Awaited fuel t (omega (arith, k.1)))
            later)
        (λ e.
          Yields-weaken (Awaited t) (Awaited s) _
            (accept_data-Awaited t frame.0 frame.1 (await_data fuel) e
              (λ w l. await_data-Awaited fuel w (omega (arith, k.1))))
            later))

-- From any state and for whatever arrives, receiving a message ends likewise. The frame that it
-- returns is the one that was kept, which is taken out; or, when none was, it is no ACK and has
-- the sequence bit that is expected, and the receive bit has changed and nothing else but the
-- transport. So a frame is never returned a second time while the bit has not changed again.
pub recv_data-Received : (s : Connection) → Yields (Received s) (recv_data s)
unfolding recv_data Yields
recv_data-Received s = go s.pending_data refl
  where
    go : (p : Option (ℕ × Bytes)) → s.pending_data ≡ p → Yields (Received s) (recv_pending p s)
    go none e =
        Yields-weaken (Awaited s) (Received s) _ (await_data-Awaited (rounds s) s (omega arith))
          (λ frame t a. (a.0, inr (e, a.1, a.2)))
    go (some frame) e = (omega arith, inl (e, refl))
