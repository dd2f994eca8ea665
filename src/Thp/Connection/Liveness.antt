-- ===== src/Thp/Connection/Liveness.antt =====
-- Over a transport that accepts what is written, a message is sent and acknowledged, and a message
-- is received, whatever number of stale acknowledgements or duplicates come first.
use maknoon_trezor_core_rs.Prelude.{
  ℕ, zero, suc, ◌-◌, ◌<◌, ◌≤◌, ◌^◌, ◌≡◌, ◌≢◌, refl, sym, ap, ◌∙◌, false, none, List, [], ◌++◌,
  append_assoc, Bytes, length, ==_iff, ne→==, arith,
}
use maknoon_trezor_core_rs.Error.{ok}
use maknoon_trezor_core_rs.Outcome.{done, after}
use maknoon_trezor_core_rs.Thp.Control.{with_seq, seq_of, is_ack, ack_for}
use maknoon_trezor_core_rs.Thp.Control.SyncBits.{ack_for-is_ack}
use maknoon_trezor_core_rs.Thp.Framing.{segment}
use maknoon_trezor_core_rs.Thp.Connection.{Arrival, Connection}
use maknoon_trezor_core_rs.Thp.Connection.Framed.{read_framed}
use maknoon_trezor_core_rs.Thp.Connection.Abp.{
  send_ack, flip_send, flip_recv, await_ack, send_data, accept_data, await_data, recv_data,
  recv_pending,
}
use maknoon_trezor_core_rs.Thp.Connection.Delivery.{arrive}
use maknoon_trezor_core_rs.Thp.Connection.Arrivals.{
  at, IsMessage, repeated, length-repeated, write_framed-sends, segment-arrives,
  read_framed-arrives, ack_for-IsMessage,
}

-- One round of the wait for an acknowledgement.
await_ack-hit :
    (fuel seq : ℕ) (payload : Bytes) (s t : Connection)
    → seq < 2
    → t.send_seq ≡ seq
    → read_framed s ≡ done (ok (ack_for seq, payload)) t
    → await_ack (suc fuel) s ≡ done (ok tt) (flip_send t)
unfolding await_ack
await_ack-hit fuel seq payload s t h e r =
    let a = ack_for-is_ack seq h in rw r (rw a.0 (rw (a.1, e, (==_iff seq seq).1 refl) refl))

await_ack-stale :
    (fuel seq : ℕ) (payload : Bytes) (s t : Connection)
    → seq < 2
    → seq ≢ t.send_seq
    → read_framed s ≡ done (ok (ack_for seq, payload)) t
    → await_ack (suc fuel) s ≡ await_ack fuel t
unfolding await_ack
await_ack-stale fuel seq payload s t h ne r =
    let a = ack_for-is_ack seq h in rw r (rw a.0 (rw (a.1, ne→== seq t.send_seq ne) refl))

await_ack-stales :
    (n fuel : ℕ) (s : Connection) (sent : List Bytes) (packet_size cid : ℕ)
    (acks stale : List Bytes) (more : List Arrival)
    → n < fuel
    → s.send_seq < 2
    → segment packet_size cid (ack_for s.send_seq) [] ≡ ok acks
    → segment packet_size cid (ack_for (1 - s.send_seq)) [] ≡ ok stale
    → cid < 2 ^ 16
    → await_ack fuel (at s (repeated n stale (arrive acks more)) sent)
      ≡ done (ok tt) (at (flip_send s) more sent)
unfolding repeated
await_ack-stales n zero s sent packet_size cid acks stale more h b ea es hc = absurd (omega arith)
await_ack-stales zero (suc fuel) s sent packet_size cid acks stale more h b ea es hc =
    await_ack-hit fuel s.send_seq [] (at s (arrive acks more) sent) (at s more sent) b refl (
      read_framed-arrives s sent packet_size cid (ack_for s.send_seq) [] acks more ea hc
        (ack_for-IsMessage s.send_seq b))
await_ack-stales (suc n) (suc fuel) s sent packet_size cid acks stale more h b ea es hc =
    let rest : List Arrival = repeated n stale (arrive acks more) in
    await_ack-stale fuel (1 - s.send_seq) [] (at s (arrive stale rest) sent) (at s rest sent)
      (omega arith) (λ e. absurd (omega arith))
      (read_framed-arrives s sent packet_size cid (ack_for (1 - s.send_seq)) [] stale rest es hc
        (ack_for-IsMessage (1 - s.send_seq) (omega arith)))
    ∙ await_ack-stales n fuel s sent packet_size cid acks stale more (omega arith) b ea es hc

-- Over a transport that accepts what is written: when the message can be framed, and what
-- arrives is any number of acknowledgements of the other sequence bit and then one of the bit that
-- the message carries, sending succeeds. Exactly the message's packets were written, the send bit
-- has changed, and the reads behind the acknowledgement are left.
pub send_data-acknowledged :
    (n : ℕ) (s : Connection) (base_ctrl : ℕ) (payload : Bytes) (sent : List Bytes)
    (packet_size cid : ℕ) (ps acks stale : List Bytes) (more : List Arrival)
    → s.send_seq < 2
    → segment s.packet_size s.cid (with_seq base_ctrl s.send_seq) payload ≡ ok ps
    → segment packet_size cid (ack_for s.send_seq) [] ≡ ok acks
    → segment packet_size cid (ack_for (1 - s.send_seq)) [] ≡ ok stale
    → cid < 2 ^ 16
    → send_data base_ctrl payload (at s (repeated n stale (arrive acks more)) sent)
      ≡ done (ok tt) (at (flip_send s) more (sent ++ ps))
unfolding send_data
send_data-acknowledged n s base_ctrl payload sent packet_size cid ps acks stale more b ep ea es hc =
    let incoming : List Arrival = repeated n stale (arrive acks more) in
    let some_stale : 1 ≤ length stale =
      (segment-arrives packet_size cid (ack_for (1 - s.send_seq)) [] stale [] es hc
        (ack_for-IsMessage (1 - s.send_seq) (omega arith))).1 in
    ap (λ o. after o (λ u. await_ack (suc (length incoming))))
      (write_framed-sends (with_seq base_ctrl s.send_seq) payload ps s incoming sent ep)
    ∙ await_ack-stales n (suc (length incoming)) s (sent ++ ps) packet_size cid acks stale more
        (omega (arith, length-repeated n stale (arrive acks more) some_stale)) b ea es hc

-- Packets that are written `n` times.
unfoldable pub copies : ℕ → List Bytes → List Bytes
copies zero ps = []
copies (suc n) ps = ps ++ copies n ps

-- A data frame that is read is acknowledged, whether it is fresh or a duplicate.
await_data-fresh :
    (fuel ctrl : ℕ) (payload : Bytes) (s : Connection) (incoming more : List Arrival)
    (sent acks : List Bytes)
    → is_ack ctrl ≡ false
    → seq_of ctrl ≡ s.recv_seq
    → segment s.packet_size s.cid (ack_for (seq_of ctrl)) [] ≡ ok acks
    → read_framed (at s incoming sent) ≡ done (ok (ctrl, payload)) (at s more sent)
    → await_data (suc fuel) (at s incoming sent)
      ≡ done (ok (ctrl, payload)) (at (flip_recv s) more (sent ++ acks))
unfolding await_data accept_data send_ack
await_data-fresh fuel ctrl payload s incoming more sent acks na e ea r = rw r (
    rw na (
      rw (write_framed-sends (ack_for (seq_of ctrl)) [] acks s more sent ea)
        (rw ((==_iff (seq_of ctrl) s.recv_seq).1 e) refl)))

await_data-duplicate :
    (fuel ctrl : ℕ) (payload : Bytes) (s : Connection) (incoming more : List Arrival)
    (sent acks : List Bytes)
    → is_ack ctrl ≡ false
    → seq_of ctrl ≢ s.recv_seq
    → segment s.packet_size s.cid (ack_for (seq_of ctrl)) [] ≡ ok acks
    → read_framed (at s incoming sent) ≡ done (ok (ctrl, payload)) (at s more sent)
    → await_data (suc fuel) (at s incoming sent) ≡ await_data fuel (at s more (sent ++ acks))
unfolding await_data accept_data send_ack
await_data-duplicate fuel ctrl payload s incoming more sent acks na ne ea r = rw r (
    rw na (
      rw (write_framed-sends (ack_for (seq_of ctrl)) [] acks s more sent ea)
        (rw (ne→== (seq_of ctrl) s.recv_seq ne) refl)))

-- A control byte of data with a sequence bit.
abbrev pub IsData : ℕ → Type 0
IsData ctrl = IsMessage ctrl × (is_ack ctrl ≡ false)

await_data-duplicates :
    (n fuel : ℕ) (s : Connection) (sent : List Bytes) (packet_size cid old_ctrl ctrl : ℕ)
    (old payload : Bytes) (olds fresh old_acks acks : List Bytes) (more : List Arrival)
    → n < fuel
    → IsData old_ctrl
    → seq_of old_ctrl ≢ s.recv_seq
    → IsData ctrl
    → seq_of ctrl ≡ s.recv_seq
    → segment packet_size cid old_ctrl old ≡ ok olds
    → segment packet_size cid ctrl payload ≡ ok fresh
    → segment s.packet_size s.cid (ack_for (seq_of old_ctrl)) [] ≡ ok old_acks
    → segment s.packet_size s.cid (ack_for (seq_of ctrl)) [] ≡ ok acks
    → cid < 2 ^ 16
    → await_data fuel (at s (repeated n olds (arrive fresh more)) sent)
      ≡ done (ok (ctrl, payload)) (at (flip_recv s) more (sent ++ (copies n old_acks ++ acks)))
unfolding repeated copies
await_data-duplicates n zero s sent packet_size cid old_ctrl ctrl old payload olds fresh old_acks
      acks more h od on' d oc eo ef eoa ea hc =
    absurd (omega arith)
await_data-duplicates zero (suc fuel) s sent packet_size cid old_ctrl ctrl old payload olds fresh
      old_acks acks more h od ne d e eo ef eoa ea hc =
    await_data-fresh fuel ctrl payload s (arrive fresh more) more sent acks d.1 e ea
      (read_framed-arrives s sent packet_size cid ctrl payload fresh more ef hc d.0)
await_data-duplicates (suc n) (suc fuel) s sent packet_size cid old_ctrl ctrl old payload olds fresh
      old_acks acks more h od ne d e eo ef eoa ea hc =
    let rest : List Arrival = repeated n olds (arrive fresh more) in
    await_data-duplicate fuel old_ctrl old s (arrive olds rest) rest sent old_acks od.1 ne eoa
      (read_framed-arrives s sent packet_size cid old_ctrl old olds rest eo hc od.0)
    ∙ await_data-duplicates n fuel s (sent ++ old_acks) packet_size cid old_ctrl ctrl old payload
        olds fresh old_acks acks more (omega arith) od ne d e eo ef eoa ea hc
    ∙ ap (λ t. done (ok (ctrl, payload)) (at (flip_recv s) more t))
        (append_assoc sent old_acks (copies n old_acks ++ acks)
          ∙ ap (λ t. sent ++ t) (sym (append_assoc old_acks (copies n old_acks) acks)))

-- Over a transport that accepts what is written, with no frame kept: when what arrives is any
-- number of copies of a data frame with the other sequence bit and then one with the bit that is
-- expected, receiving returns the latter. Every copy and the fresh frame were acknowledged, each
-- with its own bit and nothing else was written, the receive bit has changed, and the reads behind
-- are left.
pub recv_data-fresh :
    (n : ℕ) (s : Connection) (sent : List Bytes) (packet_size cid old_ctrl ctrl : ℕ)
    (old payload : Bytes) (olds fresh old_acks acks : List Bytes) (more : List Arrival)
    → s.pending_data ≡ none
    → IsData old_ctrl
    → seq_of old_ctrl ≢ s.recv_seq
    → IsData ctrl
    → seq_of ctrl ≡ s.recv_seq
    → segment packet_size cid old_ctrl old ≡ ok olds
    → segment packet_size cid ctrl payload ≡ ok fresh
    → segment s.packet_size s.cid (ack_for (seq_of old_ctrl)) [] ≡ ok old_acks
    → segment s.packet_size s.cid (ack_for (seq_of ctrl)) [] ≡ ok acks
    → cid < 2 ^ 16
    → recv_data (at s (repeated n olds (arrive fresh more)) sent)
      ≡ done (ok (ctrl, payload)) (at (flip_recv s) more (sent ++ (copies n old_acks ++ acks)))
unfolding recv_data
recv_data-fresh n s sent packet_size cid old_ctrl ctrl old payload olds fresh old_acks acks more p
      od ne d e eo ef eoa ea hc =
    let incoming : List Arrival = repeated n olds (arrive fresh more) in
    let some_old : 1 ≤ length olds =
      (segment-arrives packet_size cid old_ctrl old olds [] eo hc od.0).1 in
    ap (λ t. recv_pending t (at s incoming sent)) p
    ∙ await_data-duplicates n (suc (length incoming)) s sent packet_size cid old_ctrl ctrl old
        payload olds fresh old_acks acks more
        (omega (arith, length-repeated n olds (arrive fresh more) some_old)) od ne d e eo ef eoa ea
        hc
