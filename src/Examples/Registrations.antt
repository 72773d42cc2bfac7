-- ===== src/Examples/Registrations.antt =====
-- A node on a server with one connection, and two processes that subscribe to a room.
use socket_go.Base.{◌==◌, ℕ, List, [], ◌∷◌, none, some, if◌then◌else◌}
use socket_go.Socket.{str, foreign, Socket, Bytes, Message}
use socket_go.Socket.Impl.{Codec, ServerTransport}
use socket_go.Server.{Server, initial_server}
use socket_go.Server.Sockets.{handle_func}
use socket_go.Node.{Node, new_node}
use socket_go.Node.History.{Call, spawns, subscribes, run}
use socket_go.Node.Registration.{Methods}

abbrev counter : ServerTransport ℕ
counter = record { write = λ m n. (none, n); close = λ n. (none, n) }

-- A message of the byte 1 is a join of "red", any other a leave.
abbrev message_of : Bytes → Message
message_of [] = record { event = "leave"; content = str "red" }
message_of (b ∷ bs) = record { event = if b == 1 then "join" else "leave"; content = str "red" }

abbrev codec : Codec
codec = record {
  marshal = λ m. none;
  unmarshal = λ b. some (message_of b);
  marshal_error = foreign 0;
}

-- The caller has a handler of its own for joins.
abbrev server : Server ℕ
server = handle_func "join" 9 initial_server

abbrev methods : Methods
methods = record { room_join = 1; room_leave = 2; socket_disconnect = 3 }

abbrev calls : List Call
calls = spawns "log" 7 ∷ spawns "echo" 8 ∷ subscribes "log" "red" ∷ subscribes "echo" "blue" ∷ []

abbrev node : Node
node = run calls (new_node "here")

abbrev ann : Socket
ann = record { id = "ann"; addr = 0 }
