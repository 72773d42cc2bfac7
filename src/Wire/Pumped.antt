-- ===== src/Wire/Pumped.antt =====
-- From the messages that `Write` of the server's WebSocket has accepted (socket/transport/server_transport.go)
-- to the handlers of the client (socket/client.go).
use socket_go.Client.{Client}
