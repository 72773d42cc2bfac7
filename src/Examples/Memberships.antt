-- ===== src/Examples/Memberships.antt =====
-- A server with two connections of which one is in a room.
use socket_go.Base.{ℕ, ◌≡◌, refl, Bool, true, false, List, [], ◌∷◌, ◌++◌, none, some, arith}
use socket_go.Base.Map.{lookup}
use socket_go.Socket.{nil, foreign, Socket}
use socket_go.Socket.Impl.{Codec, ServerTransport, SocketImpl, new_socket, on, receive_loop}
use socket_go.Socket.Impl.Lifecycle.{got_all, receive_all}
use socket_go.LongPolling.{Transport, new_transport, default_config}
use socket_go.LongPolling.Delivery as Delivery
use socket_go.LongPolling.Delivery.{over, received, sent}
use socket_go.LongPolling.Messages.{session-receive_loop}
use socket_go.Room.Invariant.{Inv, new_room_manager-Inv}
use socket_go.Room.Laws.{member}
use socket_go.Server.{Server, initial_server}
use socket_go.Server.Membership.{
  Call, connects, joins, leaves, looks, cleans, disconnects, ticks, gone_over, run, IsSound,
  run-IsSound,
}
use socket_go.Server.Membership.Ghosts as Ghosts
use socket_go.Server.Membership.Ghosts.{joining, cleaning, join_ghost}

abbrev counter : ServerTransport ℕ
counter = record { write = λ m n. (none, n); close = λ n. (none, n) }

abbrev ann : Socket
ann = record { id = "ann"; addr = 0 }

abbrev bob : Socket
bob = record { id = "bob"; addr = 1 }

initial_server-IsSound : IsSound {W = ℕ} [] initial_server
unfolding initial_server socket_go.Room.new_room_manager lookup
initial_server-IsSound = record {
  rooms = unfold socket_go.Room.new_room_manager in new_room_manager-Inv;
  by_id = λ j k e. absurd (ground arith);
  known = λ room id m. absurd (unfold member in ground arith);
}

abbrev calls : List Call
calls =
    connects ann
    ∷ connects bob
    ∷ joins "ann" "red"
    ∷ joins "bob" "red"
    ∷ looks "blue"
    ∷ leaves "bob" "red"
    ∷ cleans bob nil
    ∷ disconnects "ann"
    ∷ ticks 7
    ∷ []

run-IsSound_example :
    IsSound {W = ℕ} (gone_over counter calls [] initial_server) (run counter calls initial_server)
run-IsSound_example = run-IsSound counter calls [] initial_server initial_server-IsSound

-- Both are among the sockets.
abbrev known : Server ℕ
known = record initial_server { sockets = ("ann", ann) ∷ ("bob", bob) ∷ [] }

known-Inv : Inv known.room_manager
unfolding initial_server
known-Inv = new_room_manager-Inv

join_ghost_example :
    let start =
      λ (order : List Bool). Ghosts.run order (joining "ann" "red") (cleaning ann) known in
    let (t, u, raced) = start (true ∷ false ∷ false ∷ true ∷ []) in
    let (_, _, joined_first) = start (true ∷ true ∷ false ∷ false ∷ []) in
    let (_, _, cleaned_first) = start (false ∷ false ∷ true ∷ true ∷ []) in
    (t ≡ Ghosts.done)
    × (u ≡ Ghosts.done)
    × (lookup "ann" raced.sockets ≡ none)
    × (member "red" "ann" raced.room_manager ≡ some ann)
    × (lookup "ann" joined_first.sockets ≡ none)
    × (member "red" "ann" joined_first.room_manager ≡ none)
    × (lookup "ann" cleaned_first.sockets ≡ none)
    × (member "red" "ann" cleaned_first.room_manager ≡ none)
unfolding lookup
join_ghost_example = join_ghost "red" ann known known-Inv refl

-- A session whose client sends two messages, one of which has been read.
abbrev loud : Codec
loud = record {
  marshal = λ m. some (1 ∷ []);
  unmarshal = λ b. some (record { event = "news"; content = nil });
  marshal_error = foreign 0;
}

abbrev connection : SocketImpl ℕ ℕ
connection = on "news" 1 (new_socket "ann" 0)

abbrev session : Transport
session = new_transport "ann" default_config 0

abbrev requests : List Delivery.Call
requests =
    Delivery.sends 3 (some (9 ∷ []))
    ∷ Delivery.reads
    ∷ Delivery.sends 4 (some (8 ∷ []))
    ∷ Delivery.closes
    ∷ Delivery.sends 5 (some (7 ∷ []))
    ∷ []

session-receive_loop_example :
    (receive_loop counter loud (got_all (over received requests session)) connection).0
      ++ receive_all counter loud (Delivery.run requests session).incoming_messages connection
    ≡ receive_all counter loud session.incoming_messages connection
      ++ receive_all counter loud (over sent requests session) connection
session-receive_loop_example = session-receive_loop counter loud requests session connection
