-- ===== src/Socket/Impl/Lifecycle.antt =====
-- socket/socket_impl.go, `Close`, `Send` and `receiveLoop`: the life of a connection.
use socket_go.Base.{
  ◌≡◌, refl, sym, ap, ◌∙◌, false, List, [], ◌∷◌, ◌++◌, none, some, arith, if◌then◌else◌,
}
use mathlib.Core.List.{append_assoc}
use socket_go.Socket.{
  Error, connection_closed, Value, nil, failure, invalid_message, Event, event_disconnect,
  event_error, Bytes,
}
use socket_go.Base.Map.{lookup}
use socket_go.Socket.Impl.{
  or_empty, Codec, ServerTransport, Go, SocketImpl, ReadResult, got, failed, trigger_event,
  handlers_of, go_all, send, close, receive_one, receive_loop,
}

unfoldable pub got_all : List Bytes → List ReadResult
got_all [] = []
got_all (m ∷ ms) = got m ∷ got_all ms

module _ {H T : Type 0} (transport : ServerTransport T) where
  -- Over any transport: a close starts the disconnect handlers if the socket was connected, and
  -- every later close changes nothing and starts nothing; after it every send is refused and writes
  -- nothing.
  close_once :
      (codec : Codec) (event : Event) (v : Value) (s : SocketImpl H T)
      → let (e, gos, s') = close transport s in
        (s'.connected ≡ false)
        × (close transport s' ≡ (none, [], s'))
        × (send transport codec event v s' ≡ (some connection_closed, s'))
        × (gos ≡ (if s.connected then trigger_event event_disconnect nil s else []))
  unfolding close send trigger_event handlers_of
  close_once codec event v s = ground arith

  -- What a message should start, from the codec and the handlers alone.
  abbrev pub started : Codec → Bytes → SocketImpl H T → List (Go H)
  started codec m s = elim (codec.unmarshal m) [
    | none ↦ go_all (or_empty (lookup event_error s.handlers)) (failure invalid_message)
    | some msg ↦ go_all (or_empty (lookup msg.event s.handlers)) msg.content
  ]

  receive_one-started :
      (codec : Codec) (m : Bytes) (s : SocketImpl H T)
      → receive_one transport codec m s ≡ started codec m s
  unfolding receive_one trigger_event handlers_of
  receive_one-started codec m s = ground arith

  unfoldable pub receive_all : Codec → List Bytes → SocketImpl H T → List (Go H)
  receive_all codec [] s = []
  receive_all codec (m ∷ ms) s = started codec m s ++ receive_all codec ms s

  pub receive_all-append :
      (codec : Codec) (ms ns : List Bytes) (s : SocketImpl H T)
      → receive_all codec (ms ++ ns) s ≡ receive_all codec ms s ++ receive_all codec ns s
  unfolding receive_all
  receive_all-append codec [] ns s = refl
  receive_all-append codec (m ∷ ms) ns s =
      ap (◌++◌ (started codec m s)) (receive_all-append codec ms ns s)
      ∙ sym (append_assoc (started codec m s) (receive_all codec ms s) (receive_all codec ns s))

  pub receive_loop-got_all :
      (codec : Codec) (ms : List Bytes) (s : SocketImpl H T)
      → (receive_loop transport codec (got_all ms) s).0 ≡ receive_all codec ms s
  unfolding receive_loop got_all receive_all
  receive_loop-got_all codec [] s = refl
  receive_loop-got_all codec (m ∷ ms) s =
      ap (◌++◌ (receive_one transport codec m s)) (receive_loop-got_all codec ms s)

  -- Over any transport, a connection that receives some messages and then fails: each message
  -- starts its event's handlers (or the error handlers, if it does not decode), in order, and the
  -- loop goes on behind a message that does not decode; then the disconnect handlers start, once
  -- with the error and, if the socket has not been closed, once more with nil. The socket ends
  -- closed.
  pub receive_loop_failed :
      (codec : Codec) (ms : List Bytes) (e : Error) (rest : List ReadResult) (s : SocketImpl H T)
      → let (gos, s') = receive_loop transport codec (got_all ms ++ failed e ∷ rest) s in
        (gos
          ≡ receive_all codec ms s
            ++ (go_all (handlers_of event_disconnect s) (failure e)
                ++ (if s.connected then go_all (handlers_of event_disconnect s) nil else [])))
        × (s'.connected ≡ false)
  unfolding receive_loop got_all receive_all close trigger_event handlers_of
  receive_loop_failed codec [] e rest s = ground arith
  receive_loop_failed codec (m ∷ ms) e rest s =
      let (gos, closed) = receive_loop_failed codec ms e rest s in
      let gone =
        go_all (handlers_of event_disconnect s) (failure e)
        ++ (if s.connected then go_all (handlers_of event_disconnect s) nil else []) in
      (
        ap (◌++◌ (receive_one transport codec m s)) gos
            ∙ sym (append_assoc (receive_one transport codec m s) (receive_all codec ms s) gone),
        closed,
      )
