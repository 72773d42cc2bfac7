-- ===== src/Wire/Polled.antt =====
-- socket/socket_impl.go, `Send`, over the long polling of socket/transport/server_transport.go, and the
-- client that polls for it with socket/transport/longpolling.go.
use socket_go.Base.{
  ℕ, ◌≡◌, refl, ap, ◌∙◌, true, false, List, [], ◌∷◌, ◌++◌, map, none, arith, take, zero, suc,
  str_eq,
}
use socket_go.Socket.{ok, invalid_message, failure, event_error, Message, Bytes}
use socket_go.Socket.Impl.{Codec, ServerTransport, Go, SocketImpl}
use socket_go.Socket.Impl.Lifecycle.{got_all}
use socket_go.LongPolling as Server
use socket_go.Client.{Client, done}
use socket_go.Client.Locking.{free}
use socket_go.Client.Batching.{encode}
use socket_go.Client.Loops.{receive_loop, handlers_at}
use socket_go.Client.Loops.Receiving.{incoming_all}
use socket_go.Transport.LongPolling.{Transport, Json, queue_size, fetch_messages}
use socket_go.Transport.LongPolling.Queue.{polling, delivered, fetch_messages-handle_poll}
use socket_go.Wire.Emitting.{Accepts, emit_each, emit_each-Accepts, receive_loop-incoming}

unfoldable pub session_transport : ServerTransport Server.Transport
session_transport = record { write = Server.write; close = Server.close }

abbrev pub IsOpen : Server.Transport → Type 0
IsOpen t = t.closed ≡ false

session_transport-Accepts : Accepts session_transport IsOpen (λ t. t.pending_messages)
unfolding session_transport Server.write
session_transport-Accepts m t open_ = ground (arith, open_)

module _ {U : Type 0} where
  -- What messages come to that do not decode.
  unfoldable pub complaints : List Bytes → Client U → List (Go ℕ)
  complaints [] c = []
  complaints (b ∷ bs) c = handlers_at event_error (failure invalid_message) c ++ complaints bs c

  incoming_all-quoted :
      (codec : Codec) (quote : Bytes → Bytes) (k : ℕ) (bs : List Bytes) (c : Client U)
      → ((b : Bytes) → codec.unmarshal (quote b) ≡ none)
      → incoming_all codec (take k (map quote bs)) c ≡ complaints (take k bs) c
  unfolding incoming_all complaints
  incoming_all-quoted codec quote zero bs c strange = refl
  incoming_all-quoted codec quote (suc k) [] c strange = refl
  incoming_all-quoted codec quote (suc k) (b ∷ bs) c strange =
      ground (arith, strange b, incoming_all-quoted codec quote k bs c strange)

  -- A connected socket on an open long-polling session sends messages; the client, whose queue is
  -- empty, polls for them once and reads all that its queue has taken. Where a JSON string is no
  -- message, as for encoding/json, and the JSON of byte slices is an array of strings: the server
  -- has handed over everything, and the client starts its error handlers once for each message that
  -- its queue has taken and no other handler, whatever the messages were.
  pub polled_is_lost :
      {H : Type 0} (codec : Codec) (now : ℕ) (as_array : List Bytes → Bytes) (quote : Bytes → Bytes)
      (json : Json) (ms : List Message) (s : SocketImpl H Server.Transport) (t : Transport)
      (c : Client U)
      → ((bs : List Bytes) → json.messages (as_array bs) ≡ ok (map quote bs))
      → ((b : Bytes) → codec.unmarshal (quote b) ≡ none)
      → s.connected ≡ true
      → s.transport.closed ≡ false
      → str_eq t.session_id "" ≡ false
      → t.incoming_queue ≡ []
      → c.mutex ≡ free
      → let s' = emit_each session_transport codec ms s in
        let (r, u) = fetch_messages (polling now as_array) json t s'.transport in
        (u.pending_messages ≡ [])
        × (receive_loop codec (got_all (delivered r t).incoming_queue) c
            ≡ done
                (
                  complaints
                      (take queue_size (s.transport.pending_messages ++ (encode codec ms).0))
                      c,
                  false,
                )
                c)
  polled_is_lost codec now as_array quote json ms s t c law strange on open_ session empty
        unlocked =
      let s' = emit_each session_transport codec ms s in
      let (sent, up) =
        emit_each-Accepts session_transport codec IsOpen (λ u. u.pending_messages) ms s
          session_transport-Accepts on open_ in
      let (gone, taken, _) =
        fetch_messages-handle_poll now queue_size as_array quote json t s'.transport law session up
          (ground (arith, empty)) in
      (
        gone,
        receive_loop-incoming codec _ c unlocked
            ∙ ap (λ bs. done (incoming_all codec bs c, false) c)
                (taken
                  ∙ ap (λ q. q ++ take queue_size (map quote s'.transport.pending_messages)) empty
                  ∙ ap (λ bs. take queue_size (map quote bs)) sent)
            ∙ ap (λ gos. done (gos, false) c)
                (incoming_all-quoted codec quote queue_size _ c strange),
      )
