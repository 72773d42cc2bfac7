-- ===== src/Transport.antt =====
-- socket/transport/websocket.go and socket/transport/longpolling.go: the client's two ends of a
-- connection, and the headers that both send.
pub mod WebSocket
pub mod LongPolling
use socket_go.Base.{String, List}
use socket_go.Base.Map.{Map}

-- `http.Header`.
abbrev pub Header : Type 0
Header = Map (List String)
