-- ===== src/Server/Shutdown.antt =====
-- socket/server.go, `Shutdown` (lines 434-449): what becomes of the connections.
use socket_go.Base.{◌≡◌, false, List, [], ◌∷◌, ◌==◌, All, if◌then◌else◌}
use socket_go.Socket.{nil, Socket, event_disconnect}
use socket_go.Socket.Impl.{ServerTransport, Go, handlers_of, go_all}
use socket_go.Server.{Server, Hook}

-- No two sockets are one connection.
abbrev AreApart : List Socket → Type 0
AreApart [] = Unit
AreApart (k ∷ ks) = All (λ j. (j.addr == k.addr) ≡ false) ks × AreApart ks

-- The hooks that a close is to start.
unfoldable pub due : {W : Type 0} → Server W → Socket → List (Go Hook)
due s k =
    if (s.heap k.addr).connected
    then go_all (handlers_of event_disconnect (s.heap k.addr)) nil
    else []

module _ {W : Type 0} (ws : ServerTransport W) where
  -- What is still to be closed is as it was.
  abbrev Untouched : Server W → Server W → List Socket → Type 0
  Untouched s₀ s ks = All (λ j. s.heap j.addr ≡ s₀.heap j.addr) ks
