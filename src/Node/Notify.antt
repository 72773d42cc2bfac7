-- ===== src/Node/Notify.antt =====
-- The handlers that a node registers on its socket server (lines 110-170): they send to mailboxes with
-- a plain channel send, which waits while the mailbox is full, and hold the node's read lock.
pub mod Delivery
pub mod Rooms
use socket_go.Base.{
  ℕ, ◌+◌, ◌<◌, ◌≤◌, String, ◌≡◌, refl, inl, inr, Bool, true, false, ◌&&◌, Option, none, some, arith,
  length, ltb, str_eq, ◌==◌, ==_iff, eq_iff, if◌then◌else◌, Bool-cases, Option-cases, is_some, List,
  [], ◌∷◌, map,
}
use socket_go.Base.Map.{Map, IsMap, lookup, keys}
use socket_go.Socket.{Value, nil, str, failure, obj, opaque, Fields, end, field, Socket}
use socket_go.Node.{Process, Node, update, push}
use socket_go.Node.Subscriptions.{holds, subscribed}
use socket_go.Node.Invariant.{Inv, update-Inv}
use socket_go.Node.Registry.{find, find-update}

-- `through`: the handler returned. `blocked`: it waits for this process to take a message.
pub data Outcome : Type 0 where
  through : Node → Outcome
  blocked : String → Node → Outcome

-- `process.mailbox <- m` for a process that is there and alive; `none` is a channel that is full.
unfoldable pub deliver : String → Value → Node → Option Node
unfolding update push
deliver pid m n = elim (lookup pid n.processes) [
  | none ↦ some n
  | some a ↦
      if (n.heap a).alive
      then (if ltb (length (n.heap a).mailbox) (n.heap a).capacity
          then some (update a (push m) n)
          else none)
      else some n
]

unfoldable pub deliver_each : List String → Value → Node → Outcome
deliver_each [] m n = through n
deliver_each (pid ∷ rest) m n = elim (deliver pid m n) [
  | none ↦ blocked pid n
  | some n' ↦ deliver_each rest m n'
]

-- The ids that the loop over `roomSubscriptions` sends to.
unfoldable pub subscribers : String → Map (Map Bool) → List String
unfolding holds
subscribers room [] = []
subscribers room ((pid, rooms) ∷ rest) =
    if holds room rooms then pid ∷ subscribers room rest else subscribers room rest

abbrev pub room_message : String → String → String → Value
room_message kind room id =
    obj (field "type" (str kind) (field "room" (str room) (field "socket" (str id) end)))

unfoldable pub notify_room : String → Socket → Value → Node → Outcome
unfolding deliver_each subscribers
notify_room kind s (str room) n =
    deliver_each (subscribers room n.subscriptions) (room_message kind room s.id) n
notify_room kind s nil n = through n
notify_room kind s (failure e) n = through n
notify_room kind s (obj fs) n = through n
notify_room kind s (opaque k) n = through n

unfoldable pub handle_room_join : Socket → Value → Node → Outcome
unfolding notify_room
handle_room_join s content n = notify_room "room_join" s content n

unfoldable pub handle_room_leave : Socket → Value → Node → Outcome
unfolding notify_room
handle_room_leave s content n = notify_room "room_leave" s content n

abbrev pub disconnect_message : String → Value
disconnect_message id = obj (field "type" (str "socket_disconnect") (field "socket" (str id) end))

unfoldable pub handle_socket_disconnect : Socket → Value → Node → Outcome
unfolding deliver_each
handle_socket_disconnect s content n = deliver_each (keys n.processes) (disconnect_message s.id) n
