-- ===== src/Transport/WebSocket/Batch.antt =====
-- socket/transport/websocket.go, `BatchSend`, and socket/client.go, `processBatch`, which calls it where
-- the transport has it.
use socket_go.Base.{
  ℕ, ◌≡◌, refl, ◌⊎◌, inl, inr, false, List, [], ◌∷◌, none, some, arith, Option-cases,
}
use socket_go.Base.Int.{ℤ, pos, ltb_ℤ}
use socket_go.Socket.{Message, Bytes}
use socket_go.Socket.Impl.{Codec}
use socket_go.Client.Batching.{send_each, send_batch, process_batch, encode}
use socket_go.Transport.WebSocket.{
  Net, Transport, live, write_deadline, send, write_each, batch_send,
}

-- No deadline is in force: none is set, or none passes, so that setting one changes nothing.
abbrev pub IsTimely : {W : Type 0} → Net W → Transport → Type 0
IsTimely {W} net t =
    (ltb_ℤ (pos 0) t.write_timeout ≡ false)
    ⊎ ((c : ℕ) (d : ℤ) (w : W) → net.set_write_deadline c d w ≡ (none, w))

module _ {W : Type 0} (net : Net W) where
  write_deadline_timely :
      (c : ℕ) (t : Transport) (w : W) → IsTimely net t → write_deadline net c t w ≡ (none, w)
  unfolding write_deadline
  write_deadline_timely c t w (inl e) = rw e refl
  write_deadline_timely c t w (inr quiet) = ground (arith, quiet c t.write_timeout w)

  pub send_each-write_each :
      (ms : List Bytes) (c : ℕ) (t : Transport) (w : W)
      → IsTimely net t
      → live t ≡ some c
      → send_each (send net) ms (t, w) ≡ (let (e, w') = write_each net c ms w in (e, (t, w')))
  unfolding send_each send write_each
  send_each-write_each [] c t w timely e = refl
  send_each-write_each (m ∷ ms) c t w timely e = elim (Option-cases (net.write_message c m w).0) [
    | inl sent ↦ ground (
      arith,
      write_deadline_timely c t w timely,
      send_each-write_each ms c t (net.write_message c m w).1 timely e,
    )
    | inr (x, sent) ↦ ground (arith, write_deadline_timely c t w timely)
  ]

  -- A batch that is not empty goes out as the same messages sent one by one would.
  batch_send-send_each :
      (m : Bytes) (ms : List Bytes) (t : Transport) (w : W)
      → IsTimely net t
      → batch_send net (m ∷ ms) (t, w) ≡ send_each (send net) (m ∷ ms) (t, w)
  unfolding batch_send
  batch_send-send_each m ms t w timely = elim (Option-cases (live t)) [
    | inl e ↦ unfold send_each send in ground (arith, e)
    | inr (c, e) ↦
        ground (
          arith,
          e,
          write_deadline_timely c t w timely,
          send_each-write_each (m ∷ ms) c t w timely e,
        )
  ]

  send_batch_same :
      (bs : List Bytes) (t : Transport) (w : W)
      → IsTimely net t
      → send_batch (send net) (some (batch_send net)) bs (t, w)
        ≡ send_batch (send net) none bs (t, w)
  unfolding send_batch
  send_batch_same [] t w timely = refl
  send_batch_same (m ∷ ms) t w timely = ground (arith, batch_send-send_each m ms t w timely)

  -- While no deadline passes (or none is set), it makes no difference to `processBatch` whether a
  -- WebSocket has `BatchSend`: the frames that go out, the errors that the handlers get and the error
  -- that the client disconnects with are those of one `Send` after the other, also where the
  -- transport is not connected or a frame fails.
  pub process_batch-batch_send :
      (codec : Codec) (ms : List Message) (t : Transport) (w : W)
      → IsTimely net t
      → process_batch codec (send net) (some (batch_send net)) ms (t, w)
        ≡ process_batch codec (send net) none ms (t, w)
  unfolding process_batch
  process_batch-batch_send codec ms t w timely =
      rw (send_batch_same (encode codec ms).0 t w timely) refl
