-- ===== src/Examples/Connections.antt =====
-- A connection over a transport that keeps what is written, and a long-polling session.
use socket_go.Base.{Option, leb, arith, refl}
use socket_go.Socket.Impl.{ReadResult, got}
use socket_go.WebSocket.Reading.{default_web_socket_config, IsTimed, reads_at, reads_end}
use socket_go.Base.{if◌then◌else◌, ℕ, ◌≡◌, ◌++◌, false, List, [], ◌∷◌, none, some}
use socket_go.Socket.{foreign, nil, failure, event_disconnect, Bytes}
use socket_go.Socket.Impl.{
  Codec, ServerTransport, SocketImpl, failed, new_socket, handlers_of, on, receive_loop, go_all,
}
use socket_go.Socket.Impl.Lifecycle.{receive_loop_failed, receive_all, got_all}
use socket_go.LongPolling.{Transport, new_transport, default_config}
use socket_go.LongPolling.Delivery.{Call, writes, polls, sends, reads, closes}

abbrev loud : Codec
loud = record {
  marshal = λ m. some (1 ∷ []);
  unmarshal = λ b. some (record { event = "news"; content = nil });
  marshal_error = foreign 0;
}

abbrev recorder : ServerTransport (List Bytes)
recorder = record { write = λ m log. (none, log ++ m ∷ []); close = λ log. (none, log) }

-- Handlers are numbers here.
abbrev connection : SocketImpl ℕ (List Bytes)
connection = on event_disconnect 2 (on "news" 1 (new_socket "ann" []))

receive_loop_failed_example :
    let (gos, s) =
      receive_loop recorder loud (got_all ((5 ∷ []) ∷ []) ++ failed (foreign 1) ∷ []) connection in
    (gos
      ≡ receive_all recorder loud ((5 ∷ []) ∷ []) connection
        ++ (go_all (handlers_of event_disconnect connection) (failure (foreign 1))
            ++ (if connection.connected
                then go_all (handlers_of event_disconnect connection) nil
                else [])))
    × (s.connected ≡ false)
receive_loop_failed_example =
    receive_loop_failed recorder loud ((5 ∷ []) ∷ []) (foreign 1) [] connection

abbrev session : Transport
session = new_transport "ann" default_config 0

abbrev calls : List Call
calls = writes (1 ∷ []) ∷ sends 3 (some (9 ∷ [])) ∷ polls 4 ∷ reads ∷ closes ∷ writes (2 ∷ []) ∷ []

-- A connection on which there is always something to read.
abbrev busy : Option ℕ → ℕ → ReadResult
busy none now = got (5 ∷ [])
busy (some deadline) now = if leb deadline now then failed (foreign 9) else got (5 ∷ [])

busy-IsTimed : IsTimed (foreign 9) busy
busy-IsTimed deadline now h = ground arith

-- It was made at 7, and is read from after one second, after 31 and after 32.
reads_end_example :
    let (gos, s) =
      receive_loop recorder loud
        (reads_at busy default_web_socket_config 7
          (1_000_000_007 ∷ 31_000_000_007 ∷ 32_000_000_007 ∷ []))
        connection in
    let (first, closed) =
      receive_loop recorder loud
        (reads_at busy default_web_socket_config 7 (1_000_000_007 ∷ 31_000_000_007 ∷ []))
        connection in
    (gos ≡ first) × (s ≡ closed) × (s.connected ≡ false)
unfolding default_web_socket_config
reads_end_example =
    reads_end recorder loud busy default_web_socket_config 7 (1_000_000_007 ∷ []) 31_000_000_007
      (32_000_000_007 ∷ []) (foreign 9) 29_999_999_999 connection busy-IsTimed refl (omega arith)
