-- ===== src/Socket/Impl.antt =====
-- socket/socket_impl.go: the server's side of a connection. A goroutine that is started for a handler
-- is an entry of the list that the call returns, in the order of the `go` statements.
pub mod Handlers
pub mod Lifecycle
use socket_go.Base.{
  ℕ, String, Bool, true, false, List, [], ◌∷◌, ◌++◌, map, Option, none, some, if◌then◌else◌,
}
use socket_go.Base.Map.{Map, lookup, insert, delete}
use socket_go.Socket.{
  Error, connection_closed, invalid_message, Value, nil, failure, Event, event_disconnect,
  event_error, Message, Bytes,
}

-- `encoding/json` on messages, whose data is the caller's: `none` is an error.
pub record Codec : Type 0 where
  pub marshal : Message → Option Bytes
  pub unmarshal : Bytes → Option Message
  pub marshal_error : Error

-- The part of the interface `ServerTransport` that changes a transport's state. What `Read` returns is
-- an input of `receive_loop`.
pub record ServerTransport (T : Type 0) : Type 0 where
  pub write : Bytes → T → Option Error × T
  pub close : T → Option Error × T

-- A goroutine that runs a handler on a value.
pub record Go (H : Type 0) : Type 0 where
  pub handler : H
  pub content : Value

pub record SocketImpl (H T : Type 0) : Type 0 where
  pub id : String
  pub handlers : Map (List H)
  pub transport : T
  pub connected : Bool

abbrev pub or_empty {ℓ} : {A : Type ℓ} → Option (List A) → List A
or_empty none = []
or_empty (some xs) = xs

unfoldable pub go_all : {H : Type 0} → List H → Value → List (Go H)
go_all hs v = map (λ h. record { handler = h; content = v }) hs

-- What `transport.Read()` returns: a message, or the error that ends the loop.
pub data ReadResult : Type 0 where
  got : Bytes → ReadResult
  failed : Error → ReadResult

module _ {H T : Type 0} where
  unfoldable pub new_socket : String → T → SocketImpl H T
  new_socket id t = record { id = id; handlers = []; transport = t; connected = true }

  -- A read of `s.handlers[event]`.
  unfoldable pub handlers_of : Event → SocketImpl H T → List H
  handlers_of event s = or_empty (lookup event s.handlers)

  unfoldable pub on : Event → H → SocketImpl H T → SocketImpl H T
  unfolding handlers_of
  on event h s = record s { handlers = insert event (handlers_of event s ++ h ∷ []) s.handlers }

  unfoldable pub off : Event → SocketImpl H T → SocketImpl H T
  off event s = record s { handlers = delete event s.handlers }

  unfoldable pub trigger_event : Event → Value → SocketImpl H T → List (Go H)
  unfolding handlers_of go_all
  trigger_event event v s = go_all (handlers_of event s) v

module _ {H T : Type 0} (transport : ServerTransport T) where
  open transport use {write, close as close_transport}

  unfoldable pub send : Codec → Event → Value → SocketImpl H T → Option Error × SocketImpl H T
  send codec event v s =
      if s.connected
      then elim (codec.marshal (record { event = event; content = v })) [
        | none ↦ (some codec.marshal_error, s)
        | some m ↦ let (e, t) = write m s.transport in (e, record s { transport = t })
      ]
      else (some connection_closed, s)

  unfoldable pub close : SocketImpl H T → Option Error × List (Go H) × SocketImpl H T
  unfolding trigger_event
  close s =
      if s.connected
      then (let s' = record s { connected = false } in
          let (e, t) = close_transport s.transport in
          (e, trigger_event event_disconnect nil s', record s' { transport = t }))
      else (none, [], s)

  unfoldable pub receive_one : Codec → Bytes → SocketImpl H T → List (Go H)
  unfolding trigger_event
  receive_one codec m s = elim (codec.unmarshal m) [
    | none ↦ trigger_event event_error (failure invalid_message) s
    | some msg ↦ trigger_event msg.event msg.content s
  ]

  -- The loop, as far as the reads go; where they end it waits in `Read`.
  unfoldable pub receive_loop :
      Codec → List ReadResult → SocketImpl H T → List (Go H) × SocketImpl H T
  unfolding receive_one close
  receive_loop codec [] s = ([], s)
  receive_loop codec (got m ∷ reads) s =
      let (gos, s') = receive_loop codec reads s in (receive_one codec m s ++ gos, s')
  receive_loop codec (failed e ∷ reads) s =
      let (_, gos, s') = close s in (trigger_event event_disconnect (failure e) s ++ gos, s')
