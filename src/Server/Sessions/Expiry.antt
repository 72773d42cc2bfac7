-- ===== src/Server/Sessions/Expiry.antt =====
-- socket/server.go, `cleanupSessions`: which sessions a tick keeps.
use socket_go.Base.{
  ℕ, String, ◌≡◌, refl, inl, inr, true, [], ◌∷◌, Option, none, some, arith, ==_iff, eq_iff,
  if◌then◌else◌, Bool-cases,
}
use socket_go.Base.Map.{Map, IsMap, lookup, lookup-delete}
use socket_go.Socket.{Socket}
use socket_go.Socket.Impl.{ServerTransport, SocketImpl}
use socket_go.Socket.Impl as Impl
use socket_go.LongPolling
use socket_go.LongPolling.{Transport, is_expired}
use socket_go.Server.{Server, AnyTransport, long_polling, web_socket, LongPollingSession}
use socket_go.Server.Sockets.{close_any, update_socket, close_socket}
use socket_go.Server.Sessions.{session_expired, drop_session, expire_each, cleanup_sessions}

-- What a tick makes of one session's entry.
unfoldable pub survives :
    {W : Type 0} → ℕ → Server W → Option LongPollingSession → Option LongPollingSession
survives now s none = none
survives now s (some x) =
    if session_expired now (s.heap x.socket.addr).transport then none else some x

-- A transport that is closed has expired, and one that is not a session's never does.
session_expired-close :
    {W : Type 0} (ws : ServerTransport W) (now : ℕ) (t : AnyTransport W)
    → session_expired now t ≡ true
    → session_expired now (close_any ws t).1 ≡ true
unfolding session_expired close_any LongPolling.is_expired LongPolling.close
session_expired-close ws now (long_polling t) h = ground arith
session_expired-close ws now (web_socket w) h = absurd (ground arith)

-- To close an expired session's connection changes nobody's expiry, its own included.
expired-close_socket :
    {W : Type 0} (ws : ServerTransport W) (now : ℕ) (k : Socket) (b : ℕ) (s : Server W)
    → session_expired now (s.heap k.addr).transport ≡ true
    → session_expired now ((close_socket ws k s).1.heap b).transport
      ≡ session_expired now (s.heap b).transport
unfolding close_socket update_socket Impl.close
expired-close_socket ws now k b s h =
    ground (arith, ==_iff b k.addr, session_expired-close ws now (s.heap k.addr).transport h)

survives-later :
    {W : Type 0} (ws : ServerTransport W) (now : ℕ) (id : String) (x : LongPollingSession)
    (s : Server W) (o : Option LongPollingSession)
    → session_expired now (s.heap x.socket.addr).transport ≡ true
    → survives now (close_socket ws x.socket (drop_session id x s)).1 o ≡ survives now s o
unfolding survives
survives-later ws now id x s none h = refl
survives-later ws now id x s (some y) h =
    unfold drop_session in
    ground (arith, expired-close_socket ws now x.socket y.socket.addr (drop_session id x s))

sessions-close_socket :
    {W : Type 0} (ws : ServerTransport W) (k : Socket) (s : Server W)
    → (close_socket ws k s).1.sessions ≡ s.sessions
unfolding close_socket update_socket
sessions-close_socket ws k s = refl

lookup-expire_each :
    {W : Type 0} (ws : ServerTransport W) (now : ℕ) (id : String) (todo : Map LongPollingSession)
    (s : Server W)
    → IsMap todo
    → lookup id (expire_each ws now todo s).1.sessions ≡ elim (lookup id todo) [
      | none ↦ lookup id s.sessions
      | some x ↦ elim (survives now s (some x)) [ none ↦ none | some y ↦ lookup id s.sessions ]
    ]
unfolding expire_each lookup survives
lookup-expire_each ws now id [] s d = refl
lookup-expire_each ws now id ((k, x) ∷ rest) s d =
    elim (Bool-cases (session_expired now (s.heap x.socket.addr).transport)) [
      | inr fine ↦ ground (arith, fine, eq_iff k id, d.0, lookup-expire_each ws now id rest s d.1)
      | inl old ↦
          let s' = drop_session k x s in
          let s'' = (close_socket ws x.socket s').1 in
          ground (
            arith,
            old,
            eq_iff k id,
            d.0,
            lookup-expire_each ws now id rest s'' d.1,
            survives-later ws now k x s (lookup id rest) old,
            sessions-close_socket ws x.socket s',
            lookup-delete k id s.sessions,
          )
    ]

-- On a server whose session ids are distinct: a tick keeps exactly the sessions whose transport has
-- not expired, whatever it closes on its way.
lookup-cleanup_sessions :
    {W : Type 0} (ws : ServerTransport W) (now : ℕ) (id : String) (s : Server W)
    → IsMap s.sessions
    → lookup id (cleanup_sessions ws now s).1.sessions ≡ survives now s (lookup id s.sessions)
unfolding cleanup_sessions survives
lookup-cleanup_sessions ws now id s d = ground (arith, lookup-expire_each ws now id s.sessions s d)
