-- ===== src/Server/Sockets.antt =====
-- socket/server.go: handlers, connections and rooms (lines 255-484).
use socket_go.Base.{
  ℕ, String, true, false, ◌||◌, List, [], ◌∷◌, ◌++◌, map, Option, none, some, ◌==◌, length, str_eq,
  if◌then◌else◌,
}
use socket_go.Base.Int.{pos}
use socket_go.Base.Map.{lookup, insert, delete, keys, values}
use socket_go.Socket.{Error, Value, nil, Socket, Event, event_connect, event_disconnect, Bytes}
use socket_go.Socket.Impl.{SocketImpl, ServerTransport, Go, or_empty, on}
use socket_go.Socket.Impl as Impl
use socket_go.Room.{
  join_room, leave_room, leave_all_rooms, get_socket_rooms, get_room, get_sockets,
  broadcast_to_room,
}
use socket_go.Workers.{Pool, start}
use socket_go.LongPolling
use socket_go.Server.{
  Server, Hook, relay, cleanup, unblock, AnyTransport, Connection, long_polling, web_socket, Task,
}

-- The interface `ServerTransport`, over its two implementations.
unfoldable pub write_any :
    {W : Type 0} → ServerTransport W → Bytes → AnyTransport W → Option Error × AnyTransport W
write_any ws m (long_polling t) = let (e, t') = LongPolling.write m t in (e, long_polling t')
write_any ws m (web_socket w) = let (e, w') = ws.write m w in (e, web_socket w')

unfoldable pub close_any :
    {W : Type 0} → ServerTransport W → AnyTransport W → Option Error × AnyTransport W
close_any ws (long_polling t) = let (e, t') = LongPolling.close t in (e, long_polling t')
close_any ws (web_socket w) = let (e, w') = ws.close w in (e, web_socket w')

abbrev pub any_transport : {W : Type 0} → ServerTransport W → ServerTransport (AnyTransport W)
any_transport ws = record { write = write_any ws; close = close_any ws }

-- `handleSocket` leaves the events `connect` and `disconnect` to the server itself.
unfoldable pub relayed : List Event → List Event
relayed [] = []
relayed (e ∷ es) =
    if str_eq e event_connect || str_eq e event_disconnect then relayed es else e ∷ relayed es

module _ {W : Type 0} where
  -- A method call on the connection behind a pointer.
  unfoldable pub update_socket : ℕ → (Connection W → Connection W) → Server W → Server W
  update_socket a f s = record s { heap = λ b. if b == a then f (s.heap b) else s.heap b }

  unfoldable pub handle_func : Event → ℕ → Server W → Server W
  handle_func event f s = record s {
    handlers = insert event (or_empty (lookup event s.handlers) ++ f ∷ []) s.handlers;
  }

  unfoldable pub trigger_event : Socket → Event → Value → Server W → List Task
  trigger_event socket event v s =
      map (λ f. record { function = f; socket = socket; content = v })
        (or_empty (lookup event s.handlers))

  unfoldable pub relay_all : List Event → Connection W → Connection W
  relay_all [] c = c
  relay_all (e ∷ es) c = relay_all es (on e (relay e) c)

  unfoldable pub handle_socket : Socket → Server W → List Task × Server W
  unfolding update_socket trigger_event relay_all relayed
  handle_socket socket s =
      let s' =
        update_socket socket.addr
          (λ c. on event_disconnect cleanup (relay_all (relayed (keys s.handlers)) c))
          (record s { sockets = insert socket.id socket s.sockets }) in
      (trigger_event socket event_connect nil s', s')

  -- `registerSocketAndWaitForDisconnect`, up to its wait: `disconnectChan` is a new channel.
  unfoldable pub register_socket : Socket → Server W → List Task × Server W
  unfolding handle_socket update_socket
  register_socket socket s =
      let (tasks, s') = handle_socket socket s in
      let s'' = update_socket socket.addr (on event_disconnect unblock) s' in
      (
        tasks,
        record s'' {
          closed_channels = λ a. if a == socket.addr then false else s''.closed_channels a;
        },
      )

  -- What a hook does when its goroutine runs; `none` is the panic of a channel that is closed twice.
  unfoldable pub run_hook : Socket → Hook → Value → Server W → Option (List Task × Server W)
  unfolding trigger_event
  run_hook socket (relay event) v s = some (trigger_event socket event v s, s)
  run_hook socket cleanup v s =
      let s' = record s {
        sockets = delete socket.id s.sockets;
        room_manager = leave_all_rooms socket.id s.room_manager;
      } in
      some (trigger_event socket event_disconnect v s', s')
  run_hook socket unblock v s =
      if s.closed_channels socket.addr
      then none
      else some (
        [],
        record s { closed_channels = λ a. if a == socket.addr then true else s.closed_channels a },
      )

  -- The goroutines of a connection's hooks, one after the other.
  unfoldable pub run_hooks : Socket → List (Go Hook) → Server W → Option (List Task × Server W)
  unfolding run_hook
  run_hooks socket [] s = some ([], s)
  run_hooks socket (g ∷ gs) s = elim (run_hook socket g.handler g.content s) [
    | none ↦ none
    | some (tasks, s') ↦ elim (run_hooks socket gs s') [
      | none ↦ none
      | some (more, s'') ↦ some (tasks ++ more, s'')
    ]
  ]

  -- The sockets that `Broadcast` starts a goroutine with a `Send` for.
  unfoldable pub broadcast : Server W → List Socket
  broadcast s = values s.sockets

  unfoldable pub broadcast_parallel : Server W → Option Pool
  broadcast_parallel s = elim (values s.sockets) [
    | [] ↦ none
    | k ∷ rest ↦ some (start (k ∷ rest) (pos 20))
  ]

  unfoldable broadcast_to_rooms : List String → Server W → List (Option Pool)
  broadcast_to_rooms rooms s = map (λ room. broadcast_to_room room s.room_manager) rooms

  unfoldable pub count : Server W → ℕ
  count s = length s.sockets

  unfoldable pub join : String → String → Server W → Server W
  join id room s = elim (lookup id s.sockets) [
    | none ↦ s
    | some socket ↦ record s { room_manager = join_room room socket s.room_manager }
  ]

  unfoldable pub leave : String → String → Server W → Server W
  leave id room s = record s { room_manager = leave_room room id s.room_manager }

  unfoldable pub leave_all : String → Server W → Server W
  leave_all id s = record s { room_manager = leave_all_rooms id s.room_manager }

  unfoldable pub rooms_of : String → Server W → List String
  rooms_of id s = get_socket_rooms id s.room_manager

  unfoldable pub in_ : String → Server W → List Socket × Server W
  in_ room s =
      let (rm, a) = get_room room s.room_manager in
      (get_sockets (rm.heap a), record s { room_manager = rm })

  unfoldable get_socket : String → Server W → Option Socket
  get_socket id s = lookup id s.sockets

module _ {W : Type 0} (ws : ServerTransport W) where
  -- `Close` of a connection: the hooks that it starts.
  unfoldable pub close_socket : Socket → Server W → List (Go Hook) × Server W
  unfolding update_socket
  close_socket socket s =
      let (e, gos, c) = Impl.close (any_transport ws) (s.heap socket.addr) in
      (gos, update_socket socket.addr (λ old. c) s)

  -- The loop of `Shutdown`.
  unfoldable pub close_each : List Socket → Server W → List (Socket × List (Go Hook)) × Server W
  unfolding close_socket
  close_each [] s = ([], s)
  close_each (k ∷ ks) s =
      let (gos, s') = close_socket k s in
      let (more, s'') = close_each ks s' in ((k, gos) ∷ more, s'')

  unfoldable pub shutdown : Server W → List (Socket × List (Go Hook)) × Server W
  unfolding close_each
  shutdown s = close_each (values s.sockets) s
