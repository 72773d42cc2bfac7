-- ===== src/Server/Http/Limit.antt =====
-- socket/server.go, `HandleHTTP`: the semaphore of `WithMaxConcurrency`.
use socket_go.Base.{ℕ, ◌≤◌, String, ◌≡◌, refl, true, none, some, arith, str_eq, eq_iff}
use socket_go.Base.Map.{lookup, lookup-insert}
use socket_go.Socket.{Socket}
use socket_go.Socket.Impl.{ServerTransport}
use socket_go.Server.{Server, LongPollingSession, Semaphore}
use socket_go.Server.Sockets.{handle_socket, update_socket, close_socket}
use socket_go.Server.Sessions.{
  Endpoint, endpoint, connect_to, poll_from, send_to, disconnect_from, unknown, new_connection,
  on_session, handle_connect, handle_poll_request, handle_send_request, handle_disconnect,
  drop_session,
}
use socket_go.Server.Http.{
  Request, created, acquire, release, release_at, establish, try_web_socket_upgrade, route_to,
  handle_long_polling, handle_http,
}

semaphore-upgrade :
    {W : Type 0} (r : Request W) (id : String) (s : Server W)
    → (try_web_socket_upgrade r id s).2.semaphore ≡ s.semaphore
unfolding try_web_socket_upgrade acquire establish release_at release new_connection
semaphore-upgrade r id s = ground arith

semaphore-route_to :
    {W : Type 0} (ws : ServerTransport W) (e : Endpoint) (r : Request W) (id : String) (now : ℕ)
    (s : Server W)
    → (route_to ws e r id now s).1.semaphore ≡ s.semaphore
unfolding route_to
semaphore-route_to ws connect_to r id now s = unfold handle_connect new_connection in refl
semaphore-route_to ws poll_from r id now s =
    unfold handle_poll_request on_session update_socket in ground arith
semaphore-route_to ws send_to r id now s =
    unfold handle_send_request on_session update_socket in ground arith
semaphore-route_to ws disconnect_from r id now s =
    unfold handle_disconnect close_socket update_socket drop_session in ground arith
semaphore-route_to ws unknown r id now s = refl

-- A request by itself gives its place in the semaphore back before it is over, whatever it comes to.
semaphore-handle_http :
    {W : Type 0} (ws : ServerTransport W) (r : Request W) (id : String) (now : ℕ) (s : Server W)
    → (handle_http ws r id now s).2.semaphore ≡ s.semaphore
unfolding handle_http handle_long_polling handle_socket update_socket
semaphore-handle_http ws r id now s = ground (
  arith,
  semaphore-upgrade r id s,
  semaphore-route_to ws (endpoint r.path) r id now (try_web_socket_upgrade r id s).2,
)

upgrade_full :
    {W : Type 0} (r : Request W) (id : String) (sem : Semaphore) (s : Server W)
    → str_eq r.upgrade "websocket" ≡ true
    → s.semaphore ≡ some sem
    → sem.capacity ≤ sem.used
    → try_web_socket_upgrade r id s ≡ (true, none, s)
unfolding try_web_socket_upgrade acquire
upgrade_full r id sem s up held full = ground arith

-- With no place left, a WebSocket request to a path of `connect` is answered with a 503 and then
-- opens a long-polling session all the same.
full_falls_through :
    {W : Type 0} (ws : ServerTransport W) (r : Request W) (id : String) (now : ℕ) (sem : Semaphore)
    (s : Server W)
    → str_eq r.upgrade "websocket" ≡ true
    → s.semaphore ≡ some sem
    → sem.capacity ≤ sem.used
    → endpoint r.path ≡ connect_to
    → let socket : Socket = record { id = id; addr = s.next } in
      let (refused, out, s') = handle_http ws r id now s in
      (refused ≡ true)
      × (out ≡ created socket)
      × (lookup id s'.sessions ≡ some (record { id = id; socket = socket }))
unfolding handle_http handle_long_polling route_to handle_connect new_connection
full_falls_through ws r id now sem s up held full path =
    let session : LongPollingSession = record {
      id = id;
      socket = record { id = id; addr = s.next };
    } in
    ground (
      arith,
      upgrade_full r id sem s up held full,
      path,
      lookup-insert id id session s.sessions,
      eq_iff id id,
    )
