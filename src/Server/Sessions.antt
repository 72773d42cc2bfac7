-- ===== src/Server/Sessions.antt =====
-- socket/server.go: the sessions of long polling (lines 63-78 and 171-253).
pub mod Expiry
use socket_go.Base.{
  ℕ, ◌+◌, String, Bool, true, false, ◌||◌, List, [], ◌∷◌, ◌++◌, Option, none, some, ◌==◌, str_eq,
  if◌then◌else◌,
}
use socket_go.Base.Map.{Map, lookup, insert, delete}
use socket_go.Socket.{Socket, Bytes}
use socket_go.Socket.Impl.{ServerTransport, SocketImpl, Go, new_socket}
use socket_go.LongPolling.{
  Transport, Response, accepted, not_found, new_transport, default_config, handle_poll, handle_send,
  is_expired,
}
use socket_go.Server.{
  Server, Hook, AnyTransport, Connection, long_polling, web_socket, LongPollingSession,
}
use socket_go.Server.Sockets.{update_socket, close_socket}

-- The transport of a session, through the connection that holds it. No session has a WebSocket.
unfoldable pub session_expired : {W : Type 0} → ℕ → AnyTransport W → Bool
session_expired now (long_polling t) = is_expired now t
session_expired now (web_socket w) = false

-- A request's method on the transport of a session.
unfoldable on_transport :
    {W : Type 0} → (Transport → Response × Transport) → Connection W → Response × Connection W
on_transport f c = elim c.transport [
  | long_polling t ↦ let (r, t') = f t in (r, record c { transport = long_polling t' })
  | web_socket w ↦ (not_found, c)
]

-- The endpoints.
pub data Endpoint : Type 0 where
  connect_to poll_from send_to disconnect_from unknown : Endpoint

unfoldable pub endpoint : String → Endpoint
endpoint path =
    if str_eq path "/connect" || str_eq path "/socket/connect"
    then connect_to
    else if str_eq path "/poll" || str_eq path "/socket/poll"
    then poll_from
    else if str_eq path "/send" || str_eq path "/socket/send"
    then send_to
    else if str_eq path "/disconnect" || str_eq path "/socket/disconnect"
    then disconnect_from
    else unknown

module _ {W : Type 0} where
  -- A new connection object.
  unfoldable pub new_connection : String → AnyTransport W → Server W → Socket × Server W
  new_connection id t s = (
    record { id = id; addr = s.next },
    record s { heap = λ b. if b == s.next then new_socket id t else s.heap b; next = s.next + 1 },
  )

  -- The goroutine that registers the socket is left to the caller of this function.
  unfoldable pub handle_connect : String → ℕ → Server W → Socket × Server W
  unfolding new_connection
  handle_connect session_id now s =
      let (socket, s') =
        new_connection session_id (long_polling (new_transport session_id default_config now)) s in
      (
        socket,
        record s' {
          sessions = insert session_id (record { id = session_id; socket = socket }) s'.sessions;
        },
      )

  unfoldable pub on_session :
      String → (Transport → Response × Transport) → Server W → Response × Server W
  unfolding on_transport update_socket
  on_session session_id f s = elim (lookup session_id s.sessions) [
    | none ↦ (not_found, s)
    | some session ↦
        let a = session.socket.addr in
        let (r, c) = on_transport f (s.heap a) in (r, update_socket a (λ old. c) s)
  ]

  unfoldable pub handle_poll_request : String → ℕ → Server W → Response × Server W
  unfolding on_session
  handle_poll_request session_id now s = on_session session_id (handle_poll now) s

  unfoldable pub handle_send_request : String → ℕ → Option Bytes → Server W → Response × Server W
  unfolding on_session
  handle_send_request session_id now body s = on_session session_id (handle_send now body) s

  -- The two deletions under the server's lock.
  unfoldable pub drop_session : String → LongPollingSession → Server W → Server W
  drop_session session_id session s = record s {
    sessions = delete session_id s.sessions;
    sockets = delete session.socket.id s.sockets;
  }

module _ {W : Type 0} (ws : ServerTransport W) where
  unfoldable pub handle_disconnect :
      String → Server W → Response × List (Socket × List (Go Hook)) × Server W
  unfolding drop_session close_socket
  handle_disconnect session_id s = elim (lookup session_id s.sessions) [
    | none ↦ (accepted, [], s)
    | some session ↦
        let (gos, s') = close_socket ws session.socket (drop_session session_id session s) in
        (accepted, (session.socket, gos) ∷ [], s')
  ]

  -- The loop of a tick of `cleanupSessions` over the entries that its `range` meets.
  unfoldable pub expire_each :
      ℕ → Map LongPollingSession → Server W → List (Socket × List (Go Hook)) × Server W
  unfolding session_expired drop_session close_socket
  expire_each now [] s = ([], s)
  expire_each now ((id, session) ∷ rest) s =
      if session_expired now (s.heap session.socket.addr).transport
      then (let (gos, s') = close_socket ws session.socket (drop_session id session s) in
          let (more, s'') = expire_each now rest s' in ((session.socket, gos) ∷ more, s''))
      else expire_each now rest s

  unfoldable pub cleanup_sessions : ℕ → Server W → List (Socket × List (Go Hook)) × Server W
  unfolding expire_each
  cleanup_sessions now s = expire_each now s.sessions s
