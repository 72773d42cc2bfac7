-- ===== src/Lib.antt =====
-- A verification library for socket.go, a Go library of event-based sockets with rooms, a server over
-- WebSocket and long polling, and a layer of supervised processes on nodes.
--
-- How the program fits together. A request comes to the server (socket/server.go), which upgrades it
-- to a WebSocket or serves it as long polling (socket/transport/server_transport.go). Each connection
-- is a `socketImpl` (socket/socket_impl.go) with handlers for its events; the server registers closures
-- of its own there, which call the caller's handlers and clean up. Rooms (socket/room.go) are sets of
-- connections by name, and broadcasts go to a room or to all. A node (socket/distributed/node.go) runs
-- processes with mailboxes, hears of rooms and disconnects from a server, and is watched over by
-- supervisors; a cluster knows other nodes, and a load-balanced group picks a process to send to. The
-- client (socket/client.go) is the other end of a connection, over a transport of its own
-- (socket/transport/websocket.go, socket/transport/longpolling.go). Ids come from socket/utils.go.
--
-- Which file models what:
--   Base            tests, lists over native numbers, `map[string]V` as an association list, `int`
--   Socket          socket/socket.go; Socket/Impl: socket/socket_impl.go
--   Workers         the pool of `BroadcastParallel` in socket/room.go and socket/server.go
--   Room            socket/room.go; Room/Threads: one step for each of its locks; Room/Refinement: the
--                   table of who is in which room
--   WebSocket       the WebSocket transport of socket/transport/server_transport.go, as moves;
--                   WebSocket/Reading: the deadline of its reads; WebSocket/Flush: what is still to go
--                   out
--   LongPolling     the long-polling transport of socket/transport/server_transport.go;
--                   LongPolling/Messages: what becomes of each message that it queues
--   Server          socket/server.go: state and options; Server/Sockets: connections, hooks, rooms;
--                   Server/Sessions: long-polling sessions; Server/Http: requests and the upgrade,
--                   with several upgrades at the same time in Server/Http/Upgrades;
--                   Server/Membership: the rooms and the connections, with Join next to a cleanup in
--                   Server/Membership/Ghosts; Server/Shutdown: the end
--   Node            socket/distributed/node.go: processes, mailboxes, subscriptions; Node/History:
--                   sequences of calls; Node/Registry: the book of its processes; Node/Notify: the
--                   handlers that it has on a server; Node/Registration: how they come there; Node/Ids:
--                   the ids that it makes up
--   Supervisor      the same file: supervisors and their restarts
--   Cluster         the same file: membership, remote calls, distributed supervisors;
--                   Cluster/Heartbeat: the ticks of startHeartbeat
--   Balancer        the same file: load-balanced groups; Balancer/Dealing: a group over one node, down
--                   to the mailboxes
--   Client          socket/client.go: state and locks; Client/Methods: its methods; Client/Batching:
--                   batches; Client/Loops: what it sends and receives; Client/Reconnect: the delays of
--                   reconnection
--   Transport       Transport/WebSocket: socket/transport/websocket.go, with its workers in
--                   Transport/WebSocket/Fanout; Transport/LongPolling: socket/transport/longpolling.go,
--                   with the goroutines of `poll` in Transport/LongPolling/Pollers
--   Ids             socket/utils.go
--   Wire            both ends of a connection, from an event that one sends to the handlers that it
--                   starts at the other: Wire/Sending: from the client; Wire/Batches: the same in
--                   batches; Wire/Posted: the same over long polling; Wire/Emitting: from the
--                   server; Wire/Pumped: the same over its WebSocket; Wire/Polled: the same over
--                   long polling
--   Examples        each theorem at a concrete state
-- A Go method `FooBar` is the function `foo_bar`; a pointer is an address in a `heap`; a method that
-- changes its receiver returns the new one. A goroutine that a call starts is an entry of the list that
-- the call returns, or a thread of a step relation. A lock that guards a whole method makes that
-- method one step; a method of several locks is one step too, except in Room/Threads, WebSocket,
-- Client, Server/Membership/Ghosts, Server/Http/Upgrades and the step relations below Transport, where
-- the locks are the matter. A panic is a value: `none`, `out_of_range` or `panic`.
--
-- Bounds. Times and durations are natural numbers of nanoseconds, timeouts that may be off are integers;
-- `int` counts and weights are integers without overflow, which takes more than 2^63 entries or weight;
-- the counters of ids wrap at 2^64. All loops are structural recursion on what they range over, but for
-- the decimal digits of a number, which have fuel for one digit more than the number's own size.
--
-- What is not modelled: debug output, which only prints; the example programs, which use the library and
-- print; system events, which nothing sends; the cluster's discovery and load and the sending of
-- heartbeats, which only print. encoding/json (`Codec`, `Json`), net/http (`Http`), gorilla/websocket
-- (`Net`), the handshake, `rand.Intn`, `crypto/rand`, the clock, the bodies of
-- requests and the caller's functions are parameters.
pub mod Base
pub mod Socket
pub mod Workers
pub mod Room
pub mod LongPolling
pub mod Server
pub mod Node
pub mod Supervisor
pub mod Cluster
pub mod Balancer
pub mod Client
pub mod WebSocket
pub mod Transport
pub mod Ids
pub mod Wire
mod Examples
