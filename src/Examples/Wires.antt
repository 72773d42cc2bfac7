-- ===== src/Examples/Wires.antt =====
-- A client and a server with a codec that knows two messages.
use socket_go.Base.{
  ltb, length, ℕ, ◌≡◌, ◌++◌, refl, ap, inr, true, false, List, [], ◌∷◌, map, Option, none, some,
  arith, All, ◌==◌, take, str_eq, if◌then◌else◌,
}
use socket_go.Base.Int.{pos}
use socket_go.Socket.{ok, foreign, nil, Message, Bytes}
use socket_go.Socket.Impl.{Codec, ServerTransport, SocketImpl, new_socket, on, receive_loop}
use socket_go.Socket.Impl.Lifecycle.{receive_all, got_all}
use socket_go.LongPolling as Server
use socket_go.Client.{Client, done, new_client, apply_options}
use socket_go.Client.Locking.{free}
use socket_go.Client.Batching.{Round, message, batch_processing_loop, received, encode}
use socket_go.Client.Loops.{receive_loop as client_loop, send_loop}
use socket_go.Client.Loops.Receiving.{incoming_all}
use socket_go.Transport.WebSocket.{State, send, batch_send, initial, live}
use socket_go.Transport.LongPolling as Polling
use socket_go.Transport.LongPolling.{fetch_messages, queue_size}
use socket_go.Transport.LongPolling.Queue.{polling, delivered}
use socket_go.WebSocket.{Transport}
use socket_go.Wire.Posted.{Line, post, fitting, posted_is_handled}
use socket_go.Wire.{Ends, Survives, due, triggered}
use socket_go.Wire.Sending.{Carries, sent_is_handled}
use socket_go.Wire.Batches.{process_batches, batched_is_handled}
use socket_go.Wire.Emitting.{Accepts, emit_each, handled, emitted_is_handled}
use socket_go.Wire.Polled.{session_transport, complaints, polled_is_lost}
use socket_go.Examples.Transports.{wire, online, as_array, quote, json, elements-as_array}

abbrev ping : Message
ping = record { event = "ping"; content = nil }

abbrev pong : Message
pong = record { event = "pong"; content = nil }

-- What does not encode.
abbrev mute : Message
mute = record { event = "mute"; content = nil }

abbrev decode : Bytes → Option Message
decode [] = none
decode (b ∷ rest) = if b == 1 then some ping else if b == 2 then some pong else none

abbrev codec : Codec
codec = record {
  marshal = λ m.
      if str_eq m.event "ping"
      then some (1 ∷ [])
      else if str_eq m.event "pong"
      then some (2 ∷ [])
      else none;
  unmarshal = decode;
  marshal_error = foreign 0;
}

abbrev messages : List Message
messages = ping ∷ mute ∷ pong ∷ []

messages-Survives : All (Survives codec) messages
messages-Survives = (λ b e. ground arith, (λ b e. ground arith, (λ b e. ground arith, tt)))

abbrev recorder : ServerTransport (List Bytes)
recorder = record { write = λ m log. (none, log ++ m ∷ []); close = λ log. (none, log) }

abbrev connection : SocketImpl ℕ (List Bytes)
connection = on "pong" 2 (on "ping" 1 (new_socket "ann" []))

abbrev client : Client (State (List Bytes))
client = record (new_client "ann" (online, []) []) {
  connected = true;
  handlers = ("ping", 4 ∷ []) ∷ [];
}

wire-Carries : Carries wire (λ w. w) 1
wire-Carries m w = (refl, refl)

sent_is_handled_example :
    Ends
      (λ c.
        (c.connected ≡ true)
        × (c.mutex ≡ free)
        × ((receive_loop recorder codec (got_all c.conn.1) connection).0
            ≡ receive_all recorder codec [] connection
              ++ due codec (triggered recorder connection) messages))
      (send_loop codec (send wire) messages client)
unfolding new_client apply_options live initial
sent_is_handled_example =
    sent_is_handled wire (λ w. w) recorder codec 1 messages client connection wire-Carries
      (inr (λ c d w. refl)) refl refl messages-Survives

abbrev rounds : List Round
rounds = message ping ∷ message mute ∷ message pong ∷ []

batched_is_handled_example :
    let (out, rest) = batch_processing_loop (pos 2) rounds in
    let (_, w) = process_batches codec (send wire) (some (batch_send wire)) out (online, []) in
    (receive_loop recorder codec (got_all w) connection).0
      ++ due codec (triggered recorder connection) rest
    ≡ receive_all recorder codec [] connection
      ++ due codec (triggered recorder connection) (received rounds)
unfolding received live initial
batched_is_handled_example =
    batched_is_handled wire (λ w. w) recorder codec 1 2 rounds online [] connection (omega arith)
      wire-Carries (inr (λ c d w. refl)) refl messages-Survives

recorder-Accepts : Accepts recorder (λ log. Unit) (λ log. log)
recorder-Accepts m log open_ = (refl, refl, tt)

emitted_is_handled_example :
    client_loop codec (got_all (emit_each recorder codec messages connection).transport) client
    ≡ done (incoming_all codec [] client ++ due codec (handled client) messages, false) client
unfolding new_client apply_options on new_socket
emitted_is_handled_example =
    emitted_is_handled recorder codec (λ log. Unit) (λ log. log) messages connection client
      recorder-Accepts refl tt refl messages-Survives

abbrev session : SocketImpl ℕ Server.Transport
session = new_socket "ann" (Server.new_transport "s1" Server.default_config 0)

abbrev poller : Polling.Transport
poller = record (Polling.new_transport "http://here" []) { session_id = "s1"; connected = true }

polled_is_lost_example :
    let s = emit_each session_transport codec messages session in
    let (r, u) = fetch_messages (polling 5 as_array) json poller s.transport in
    (u.pending_messages ≡ [])
    × (client_loop codec (got_all (delivered r poller).incoming_queue) client
        ≡ done
            (complaints (take queue_size ([] ++ (encode codec messages).0)) client, false)
            client)
unfolding Server.new_transport Polling.new_transport new_client apply_options new_socket
polled_is_lost_example =
    polled_is_lost codec 5 as_array quote json messages session poller client
      (λ ms. ap (λ xs. ok (map quote xs)) (elements-as_array ms)) (λ b. refl) refl refl refl refl
      refl

-- A session with room for one message.
abbrev narrow : Server.Transport
narrow = record (Server.new_transport "s1" Server.default_config 0) { capacity = 1 }

abbrev poster : Client Line
poster = record (new_client "ann" (poller, narrow) []) { connected = true }

posted_is_handled_example :
    Ends
      (λ c.
        (c.connected ≡ (if ltb 1 (length (encode codec messages).0) then false else true))
        × (c.mutex ≡ free)
        × ((receive_loop recorder codec (got_all c.conn.1.incoming_messages) connection).0
            ≡ receive_all recorder codec [] connection
              ++ due codec (triggered recorder connection) (fitting codec messages 1)))
      (send_loop codec (post 5 as_array) messages poster)
unfolding new_client apply_options Server.new_transport Polling.new_transport
posted_is_handled_example =
    posted_is_handled recorder codec 5 1 as_array messages poster connection refl refl refl refl
      messages-Survives
