-- ===== src/Examples/Clients.antt =====
-- A client whose transport always connects, and its batches of two.
use socket_go.Socket.{Error, failure, foreign, event_disconnect, event_error, Bytes}
use socket_go.Socket.Impl.{Codec, failed}
use socket_go.Socket.Impl.Lifecycle.{got_all}
use socket_go.Client.{done}
use socket_go.Client.Loops.{receive_loop, handlers_at, lost}
use socket_go.Client.Loops.Receiving.{incoming_all, receive_loop_ends}
use socket_go.Base.{
  ℕ, ◌++◌, ◌≡◌, refl, true, List, [], ◌∷◌, none, suc, some, Option, ltb, if◌then◌else◌,
}
use socket_go.Socket.{nil, Message}
use socket_go.Client.{Client, ClientTransport, waits, fatal, new_client, apply_options}
use socket_go.Client.Methods.{connect, join, leave}
use socket_go.Client.Locking.{connect_fatal, join_waits}
use socket_go.Client.Batching.{Round, message, tick}

abbrev willing : ClientTransport ℕ
willing = record { connect = λ n. (none, suc n); close = λ n. (none, n) }

abbrev client : Client ℕ
client = new_client "ann" 0 []

connect_fatal_example : connect willing client ≡ fatal
unfolding new_client apply_options
connect_fatal_example = connect_fatal willing client refl refl

abbrev online : Client ℕ
online = record client { connected = true }

join_waits_example : (join "red" online ≡ waits) × (leave "red" online ≡ waits)
unfolding new_client apply_options
join_waits_example = join_waits "red" online refl

abbrev ping : Message
ping = record { event = "ping"; content = nil }

abbrev rounds : List Round
rounds = message ping ∷ message ping ∷ message ping ∷ tick ∷ message ping ∷ []

abbrev codec : Codec
codec = record {
  marshal = λ m. some (1 ∷ []);
  unmarshal = λ b. some ping;
  marshal_error = foreign 0;
}

-- A client that listens to pings and disconnects.
abbrev listener : Client ℕ
listener = record online { handlers = ("ping", 4 ∷ []) ∷ (event_disconnect, 5 ∷ []) ∷ [] }

receive_loop_ends_example :
    receive_loop codec (got_all ((1 ∷ []) ∷ (2 ∷ []) ∷ []) ++ failed (foreign 1) ∷ []) listener
    ≡ done
        (
          incoming_all codec ((1 ∷ []) ∷ (2 ∷ []) ∷ []) listener
              ++ (handlers_at event_error (failure (foreign 1)) listener
                  ++ handlers_at event_disconnect (failure (foreign 1)) listener),
          true,
        )
        (lost listener)
unfolding new_client apply_options
receive_loop_ends_example =
    receive_loop_ends codec ((1 ∷ []) ∷ (2 ∷ []) ∷ []) (foreign 1) [] listener refl refl

-- A transport that takes two messages.
abbrev two : Bytes → ℕ → Option Error × ℕ
two m n = if ltb n 2 then (none, suc n) else (some (foreign 2), n)
