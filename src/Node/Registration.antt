-- ===== src/Node/Registration.antt =====
-- socket/distributed/node.go, `NewNode` with a socket server (lines 75-108): the three handlers that the
-- node registers there.
pub mod Relay
use mathlib.Core.List.{append-nil}
use socket_go.Base.{
  ℕ, String, ◌≡◌, refl, ap, ◌∙◌, Bool, true, false, List, [], ◌∷◌, ◌++◌, map, none, some, arith,
  ◌==◌, ==_iff, str_eq, eq_iff, if◌then◌else◌,
}
use socket_go.Base.Map.{IsMap, lookup, insert, has, lookup-insert, insert-IsMap}
use socket_go.Socket.{Value, str, Socket, Event, event_connect, event_disconnect, Message, Bytes}
use socket_go.Socket.Impl.{
  Codec, ServerTransport, handlers_of, or_empty, go_all, receive_one,
  trigger_event as trigger_hooks,
}
use socket_go.Server.{Server, Connection, relay, Task}
use socket_go.Server.Sockets.{
  any_transport, handle_func, handle_socket, update_socket, run_hook, run_hooks, trigger_event,
}
use socket_go.Server.Hooks.{handlers_of-handle_socket}
use socket_go.Node.{Node, new_node}
use socket_go.Node.Invariant.{Inv}
use socket_go.Node.Subscriptions.{subscribed}
use socket_go.Node.Notify.{
  Outcome, through, room_message, handle_room_join, handle_room_leave, handle_socket_disconnect,
}
use socket_go.Node.Notify.Rooms.{Notified, handlers-Notified}

-- Which numbers stand for the node's methods among the server's functions.
pub record Methods : Type 0 where
  pub room_join : ℕ
  pub room_leave : ℕ
  pub socket_disconnect : ℕ

module _ {W : Type 0} where
  unfoldable pub register : Methods → Server W → Server W
  unfolding handle_func
  register f s =
      handle_func event_disconnect f.socket_disconnect
        (handle_func "leave" f.room_leave (handle_func "join" f.room_join s))

  -- `NewNode` with the option `WithSocketServer`.
  unfoldable new_node_on : String → Methods → Server W → Node × Server W
  unfolding register
  new_node_on name f s = (new_node name, register f s)

-- A goroutine of the server that runs one of its functions; the caller's own leave the node alone.
unfoldable pub run_task : Methods → Task → Node → Outcome
unfolding handle_room_join handle_room_leave handle_socket_disconnect
run_task f t n =
    if t.function == f.room_join
    then handle_room_join t.socket t.content n
    else if t.function == f.room_leave
    then handle_room_leave t.socket t.content n
    else if t.function == f.socket_disconnect
    then handle_socket_disconnect t.socket t.content n
    else through n

abbrev pub task : ℕ → Socket → Value → Task
task f socket v = record { function = f; socket = socket; content = v }
