-- ===== src/Server/Http.antt =====
-- socket/server.go: `HandleHTTP`, the WebSocket upgrade and the routes of long polling (lines 113-187).
-- The handshake is an argument: the transport that it gives, or `none` where it fails.
pub mod Limit
pub mod Upgrades
use socket_go.Base.{
  ℕ, ◌+◌, ◌-◌, String, Bool, true, false, List, [], ◌∷◌, Option, none, some, ltb, str_eq,
  if◌then◌else◌,
}
use socket_go.Socket.{Socket, Bytes}
use socket_go.Socket.Impl.{ServerTransport, Go}
use socket_go.LongPolling.{Response, not_found}
use socket_go.Server.{Server, Semaphore, Hook, Task, web_socket}
use socket_go.Server.Sockets.{handle_socket}
use socket_go.Server.Sessions.{
  endpoint, connect_to, poll_from, send_to, disconnect_from, unknown, Endpoint, new_connection,
  handle_connect, handle_poll_request, handle_send_request, handle_disconnect,
}

pub record Request (W : Type 0) : Type 0 where
  pub upgrade : String  -- the header of that name
  pub handshake : Option W
  pub path : String
  pub session_id : String
  pub body : Option Bytes  -- what reading the body gives

-- A send to the semaphore that does not wait, and the receive that gives the place back.
unfoldable pub acquire : Semaphore → Option Semaphore
acquire sem = if ltb sem.used sem.capacity then some (record sem { used = sem.used + 1 }) else none

unfoldable pub release : Semaphore → Semaphore
release sem = record sem { used = sem.used - 1 }

unfoldable pub release_at : Option Semaphore → Option Semaphore
unfolding release
release_at none = none
release_at (some sem) = some (release sem)

-- What a request comes to: whether a 503 was written on the way, and then a new WebSocket connection
-- with the goroutines that it starts, a new session whose socket is still to be registered, or an
-- answer with the hooks that it starts.
pub data Outcome : Type 0 where
  opened : Socket → List Task → Outcome
  created : Socket → Outcome
  answered : Response → List (Socket × List (Go Hook)) → Outcome

module _ {W : Type 0} where
  unfoldable pub establish : Option W → String → Server W → Option Socket × Server W
  unfolding new_connection
  establish none id s = (none, s)
  establish (some w) id s =
      let (socket, s') = new_connection id (web_socket w) s in (some socket, s')

  -- The Boolean: a 503 was written.
  unfoldable pub try_web_socket_upgrade :
      Request W → String → Server W → Bool × Option Socket × Server W
  unfolding acquire establish release_at
  try_web_socket_upgrade r id s =
      if str_eq r.upgrade "websocket"
      then elim s.semaphore [
        | none ↦ let (k, s') = establish r.handshake id s in (false, k, s')
        | some sem ↦ elim (acquire sem) [
          | none ↦ (true, none, s)
          | some held ↦
              let (k, s') = establish r.handshake id (record s { semaphore = some held }) in
              (false, k, record s' { semaphore = release_at s'.semaphore })
        ]
      ]
      else (false, none, s)

  -- `id` is what `generateID` gives, `now` the time.
  unfoldable pub route_to :
      ServerTransport W → Endpoint → Request W → String → ℕ → Server W → Outcome × Server W
  unfolding handle_connect handle_poll_request handle_send_request handle_disconnect
  route_to ws connect_to r id now s =
      let (socket, s') = handle_connect id now s in (created socket, s')
  route_to ws poll_from r id now s =
      let (a, s') = handle_poll_request r.session_id now s in (answered a [], s')
  route_to ws send_to r id now s =
      let (a, s') = handle_send_request r.session_id now r.body s in (answered a [], s')
  route_to ws disconnect_from r id now s =
      let (a, gos, s') = handle_disconnect ws r.session_id s in (answered a gos, s')
  route_to ws unknown r id now s = (answered not_found [], s)

  unfoldable pub handle_long_polling :
      ServerTransport W → Request W → String → ℕ → Server W → Outcome × Server W
  unfolding route_to endpoint
  handle_long_polling ws r id now s = route_to ws (endpoint r.path) r id now s

  unfoldable pub handle_http :
      ServerTransport W → Request W → String → ℕ → Server W → Bool × Outcome × Server W
  unfolding try_web_socket_upgrade handle_long_polling handle_socket
  handle_http ws r id now s =
      let (refused, k, s') = try_web_socket_upgrade r id s in
      elim k [
        | some socket ↦
            let (tasks, s'') = handle_socket socket s' in (refused, opened socket tasks, s'')
        | none ↦ let (out, s'') = handle_long_polling ws r id now s' in (refused, out, s'')
      ]
