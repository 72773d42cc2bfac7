-- ===== src/Node/Registration/Relay.antt =====
-- socket/distributed/node.go and socket/server.go: the way of a message from a connection to the processes
-- of a node.
use socket_go.Base.{ℕ, ◌≡◌, List, [], ◌∷◌, ◌++◌, some}
use socket_go.Base.Map.{lookup}
use socket_go.Socket.{Socket, Event}
use socket_go.Socket.Impl.{or_empty, trigger_event as trigger_hooks}
use socket_go.Server.{Server}
use socket_go.Server.Sockets.{trigger_event}
use socket_go.Node.{Node}

module _ {W : Type 0} where
  -- The node's handler stands behind those that were there.
  abbrev Joined : Event → ℕ → Server W → Server W → Type 0
  Joined e g s s' = lookup e s'.handlers ≡ some (or_empty (lookup e s.handlers) ++ g ∷ [])
