-- ===== src/Node/Notify/Rooms.antt =====
-- socket/distributed/node.go: which processes hear of a join, a leave or a disconnect.
use socket_go.Base.{
  ap, String, ◌≡◌, refl, Bool, true, false, Option, none, some, arith, eq_iff, if◌then◌else◌, List,
  [], ◌∷◌,
}
use socket_go.Base.Map.{Map, IsMap, lookup, keys, has, mem, Distinct, mem-keys, keys-Distinct}
use socket_go.Socket.{Value, str, Socket}
use socket_go.Node.{Node}
use socket_go.Node.Subscriptions.{holds, subscribed}
use socket_go.Node.Invariant.{Inv}
use socket_go.Node.Registry.{find, after_send}
use socket_go.Node.Notify.{
  Outcome, through, blocked, subscribers, notify_room, room_message, handle_room_join,
  handle_room_leave, handle_socket_disconnect, disconnect_message,
}
use socket_go.Node.Notify.Delivery.{Delivered, deliver_each-Delivered, fits}

-- A subscriber's set of rooms, as `subscribed` reads it.
abbrev topic : String → Option (Map Bool) → Bool
topic room none = false
topic room (some rooms) = holds room rooms

mem-subscribers :
    (j room : String) (m : Map (Map Bool))
    → IsMap m
    → mem j (subscribers room m) ≡ topic room (lookup j m)
unfolding subscribers lookup
mem-subscribers j room [] d = refl
mem-subscribers j room ((pid, rooms) ∷ m) d =
    ground (arith, eq_iff pid j, mem-subscribers j room m d.1, ap (topic room) d.0)

subscribers-Distinct :
    (room : String) (m : Map (Map Bool)) → IsMap m → Distinct (subscribers room m)
unfolding subscribers
subscribers-Distinct room [] d = tt
subscribers-Distinct room ((pid, rooms) ∷ m) d =
    ground
      (arith, subscribers-Distinct room m d.1, mem-subscribers pid room m d.1, ap (topic room) d.0)

-- What a notification of the processes that `hears` picks comes to: every one of them, and no other,
-- has the message at the end of its mailbox; or one of them had no room and the handler waits.
abbrev pub Notified : (String → Bool) → Value → Node → Outcome → Type 0
Notified hears m n (through n') =
    (j : String) → find j n' ≡ (if hears j then after_send m (find j n) else find j n)
Notified hears m n (blocked pid n') = (hears pid ≡ true) × (fits (find pid n) ≡ false)

Delivered-Notified :
    (hears : String → Bool) (pids : List String) (m : Value) (n : Node) (o : Outcome)
    → ((j : String) → mem j pids ≡ hears j)
    → Delivered pids m n o
    → Notified hears m n o
Delivered-Notified hears pids m n (through n') same d = λ j. ground (arith, same j, d j)
Delivered-Notified hears pids m n (blocked pid n') same d = ground (arith, same pid, d)

notify_room-Notified :
    (kind room : String) (s : Socket) {n : Node}
    → Inv n
    → Notified
        (λ j. subscribed j room n)
        (room_message kind room s.id)
        n
        (notify_room kind s (str room) n)
unfolding notify_room subscribed
notify_room-Notified kind room s {n} inv =
    Delivered-Notified (λ j. subscribed j room n) (subscribers room n.subscriptions) _ n _
      (λ j. ground (arith, mem-subscribers j room n.subscriptions inv.topics))
      (deliver_each-Delivered _ _ inv (subscribers-Distinct room n.subscriptions inv.topics))

handle_socket_disconnect-Notified :
    (s : Socket) (content : Value) {n : Node}
    → Inv n
    → Notified
        (λ j. has j n.processes)
        (disconnect_message s.id)
        n
        (handle_socket_disconnect s content n)
unfolding handle_socket_disconnect
handle_socket_disconnect-Notified s content {n} inv =
    Delivered-Notified (λ j. has j n.processes) (keys n.processes) _ n _
      (λ j. mem-keys j n.processes)
      (deliver_each-Delivered _ _ inv (keys-Distinct n.processes inv.distinct))

-- On a node that satisfies its invariant: a join or a leave of a room is told to the processes that
-- subscribe to it, a disconnect to every process of the node, and to nobody else; or one of them
-- has no room in its mailbox and the handler waits for it.
pub handlers-Notified :
    (room : String) (s : Socket) (content : Value) {n : Node}
    → Inv n
    → Notified
        (λ j. subscribed j room n)
        (room_message "room_join" room s.id)
        n
        (handle_room_join s (str room) n)
      × Notified
          (λ j. subscribed j room n)
          (room_message "room_leave" room s.id)
          n
          (handle_room_leave s (str room) n)
      × Notified
          (λ j. has j n.processes)
          (disconnect_message s.id)
          n
          (handle_socket_disconnect s content n)
unfolding handle_room_join handle_room_leave
handlers-Notified room s content inv = (
  notify_room-Notified "room_join" room s inv,
  notify_room-Notified "room_leave" room s inv,
  handle_socket_disconnect-Notified s content inv,
)
