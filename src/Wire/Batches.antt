-- ===== src/Wire/Batches.antt =====
-- socket/client.go, `batchProcessingLoop`, over the WebSocket of socket/transport/websocket.go, and the
-- server's receiving loop behind it.
use socket_go.Base.{
  ℕ, ◌<◌, ◌≡◌, refl, sym, ap, ◌∙◌, inl, inr, List, [], ◌∷◌, ◌++◌, Option, none, some, arith, All,
  Option-cases,
}
use mathlib.Core.List.{append-nil, append_assoc}
use socket_go.Base.Int.{pos}
use socket_go.Socket.{Error, Message, Bytes}
use socket_go.Socket.Impl.{Codec, ServerTransport, SocketImpl, receive_loop}
use socket_go.Socket.Impl.Lifecycle.{got_all, receive_all}
use socket_go.Client.Batching.{
  Round, encode, send_batch, process_batch, batch_processing_loop, concat, received,
  batch_processing_loop_lem,
}
use socket_go.Transport.WebSocket.{Net, Transport, live, send, batch_send}
use socket_go.Transport.WebSocket.Batch.{IsTimely, process_batch-batch_send}
use socket_go.Wire.{receive_loop-frames, Survives, due, due-append, triggered}
use socket_go.Wire.Sending.{Carries, send_each-Carries}

-- The transport, when these batches have been processed one after the other.
unfoldable pub process_batches :
    {T : Type 0}
    → Codec
    → (Bytes → T → Option Error × T)
    → Option (List Bytes → T → Option Error × T)
    → List (List Message)
    → T
    → T
unfolding process_batch
process_batches codec one all [] t = t
process_batches codec one all (ms ∷ batches) t =
    process_batches codec one all batches (process_batch codec one all ms t).2

encode-append :
    (codec : Codec) (ms ns : List Message)
    → (encode codec (ms ++ ns)).0 ≡ (encode codec ms).0 ++ (encode codec ns).0
unfolding encode
encode-append codec [] ns = refl
encode-append codec (m ∷ ms) ns = elim (Option-cases (codec.marshal m)) [
  | inl e ↦ ground (arith, e, encode-append codec ms ns)
  | inr (b, e) ↦ ground (arith, e, encode-append codec ms ns)
]

All-left : {A : Type 0} (P : A → Type 0) (xs ys : List A) → All P (xs ++ ys) → All P xs
All-left P [] ys h = tt
All-left P (x ∷ xs) ys h = (h.0, All-left P xs ys h.1)

module _ {W : Type 0} (net : Net W) (frames : W → List Bytes) where
  process_batch-Carries :
      (codec : Codec) (k : ℕ) (ms : List Message) (t : Transport) (w : W)
      → Carries net frames k
      → IsTimely net t
      → live t ≡ some k
      → let (_, e, (t', w')) = process_batch codec (send net) (some (batch_send net)) ms (t, w) in
        (e ≡ none) × (t' ≡ t) × (frames w' ≡ frames w ++ (encode codec ms).0)
  process_batch-Carries codec k ms t w sure timely up =
      rw (process_batch-batch_send net codec ms t w timely) (
        unfold process_batch send_batch in
        send_each-Carries net frames k (encode codec ms).0 t w sure timely up)

  process_batches-Carries :
      (codec : Codec) (k : ℕ) (batches : List (List Message)) (t : Transport) (w : W)
      → Carries net frames k
      → IsTimely net t
      → live t ≡ some k
      → let (t', w') = process_batches codec (send net) (some (batch_send net)) batches (t, w) in
        frames w' ≡ frames w ++ (encode codec (concat batches)).0
  unfolding process_batches concat encode
  process_batches-Carries codec k [] t w sure timely up = sym (append-nil (frames w))
  process_batches-Carries codec k (ms ∷ batches) t w sure timely up =
      let (t', w') = (process_batch codec (send net) (some (batch_send net)) ms (t, w)).2 in
      let (_, same, fs) = process_batch-Carries codec k ms t w sure timely up in
      process_batches-Carries codec k batches t' w' sure (rw same timely) (rw same up)
      ∙ ap (λ xs. xs ++ (encode codec (concat batches)).0) fs
      ∙ append_assoc (frames w) (encode codec ms).0 (encode codec (concat batches)).0
      ∙ ap (◌++◌ (frames w)) (sym (encode-append codec ms (concat batches)))

  -- Whatever the server's transport: a client with batches of more than one message sends messages
  -- that JSON gives back as they were, over a WebSocket that is connected and on which no write
  -- fails, with no deadline that passes. When the batches that are full or whose tick has come have
  -- been processed, a server that reads all frames has started what the frames before come to, and
  -- then, with what the batch that is being filled is going to start, the handlers of each
  -- message's event with its data for all the messages that encode, each once and in the order in
  -- which they were sent.
  pub batched_is_handled :
      {H T : Type 0} (transport : ServerTransport T) (codec : Codec) (k size : ℕ) (rs : List Round)
      (t : Transport) (w : W) (s : SocketImpl H T)
      → 1 < size
      → Carries net frames k
      → IsTimely net t
      → live t ≡ some k
      → All (Survives codec) (received rs)
      → let (out, rest) = batch_processing_loop (pos size) rs in
        let (_, w') = process_batches codec (send net) (some (batch_send net)) out (t, w) in
        (receive_loop transport codec (got_all (frames w')) s).0
          ++ due codec (triggered transport s) rest
        ≡ receive_all transport codec (frames w) s
          ++ due codec (triggered transport s) (received rs)
  batched_is_handled transport codec k size rs t w s large sure timely up lossless =
      let (out, rest) = batch_processing_loop (pos size) rs in
      let (whole, _, _) = batch_processing_loop_lem size rs large in
      let on = triggered transport s in
      let old = receive_all transport codec (frames w) s in
      ap (λ gos. gos ++ due codec on rest)
        (receive_loop-frames transport codec (concat out) (frames w) _ s
          (process_batches-Carries codec k out t w sure timely up)
          (All-left (Survives codec) (concat out) rest (rw whole lossless)))
      ∙ append_assoc old (due codec on (concat out)) (due codec on rest)
      ∙ ap (◌++◌ old) (sym (due-append codec on (concat out) rest))
      ∙ ap (λ ms. old ++ due codec on ms) whole
