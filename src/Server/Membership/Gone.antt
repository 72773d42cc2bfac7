-- ===== src/Server/Membership/Gone.antt =====
-- socket/server.go: ids that have gone out of the sockets.
use socket_go.Base.{
  ℕ, ◌∙◌, inl, inr, some, Bool-cases, Option-cases, String, ◌≡◌, refl, not, ◌&&◌, ◌||◌, List, [],
  ◌∷◌, ◌++◌, arith, str_eq, eq_iff, if◌then◌else◌,
}
use socket_go.Base.Map.{Map, lookup, lookup-delete, has, mem}
use socket_go.Socket.{Socket}
use socket_go.Socket.Impl.{ServerTransport}
use socket_go.Server.{Server, LongPollingSession}
use socket_go.Server.Sockets.{update_socket, close_socket}
use socket_go.Server.Sessions.{session_expired, drop_session, handle_disconnect, expire_each}

-- The ids among these that are not among the server's sockets.
unfoldable pub missing : {W : Type 0} → List String → Server W → List String
missing [] s = []
missing (id ∷ ids) s = if has id s.sockets then missing ids s else id ∷ missing ids s

unfoldable pub drop : String → List String → List String
drop id [] = []
drop id (j ∷ ids) = if str_eq id j then drop id ids else j ∷ drop id ids

pub mem-append : (id : String) (xs ys : List String) → mem id (xs ++ ys) ≡ mem id xs || mem id ys
mem-append id [] ys = refl
mem-append id (x ∷ xs) ys = ground (arith, mem-append id xs ys)

pub mem-missing :
    {W : Type 0} (id : String) (ids : List String) (s : Server W)
    → mem id (missing ids s) ≡ mem id ids && not (has id s.sockets)
unfolding missing
mem-missing id [] s = refl
mem-missing id (j ∷ ids) s = ground (arith, eq_iff j id, eq_iff id j, mem-missing id ids s)

pub mem-drop :
    (k id : String) (ids : List String) → mem id (drop k ids) ≡ mem id ids && not (str_eq k id)
unfolding drop
mem-drop k id [] = refl
mem-drop k id (j ∷ ids) =
    ground (arith, eq_iff j id, eq_iff id j, eq_iff k j, eq_iff k id, mem-drop k id ids)

-- The server without some of its sockets, as far as sockets and rooms go.
abbrev pub IsShrunk : {W : Type 0} → Server W → Server W → Type 0
IsShrunk s s' =
    (s'.room_manager ≡ s.room_manager)
    × ((j : String) (k : Socket) → lookup j s'.sockets ≡ some k → lookup j s.sockets ≡ some k)

module _ {W : Type 0} (ws : ServerTransport W) where
  drop_session-IsShrunk :
      (id : String) (session : LongPollingSession) (s : Server W)
      → IsShrunk s (close_socket ws session.socket (drop_session id session s)).1
  unfolding close_socket update_socket drop_session
  drop_session-IsShrunk id session s =
      (refl, λ j k e. ground (arith, lookup-delete session.socket.id j s.sockets))

  pub handle_disconnect-IsShrunk :
      (id : String) (s : Server W) → IsShrunk s (handle_disconnect ws id s).2
  unfolding handle_disconnect
  handle_disconnect-IsShrunk id s = elim (Option-cases (lookup id s.sessions)) [
    | inl e ↦ rw (e, handle_disconnect) (refl, λ j k h. h)
    | inr (session, e) ↦ rw (e, handle_disconnect) (drop_session-IsShrunk id session s)
  ]

  pub expire_each-IsShrunk :
      (now : ℕ) (todo : Map LongPollingSession) (s : Server W)
      → IsShrunk s (expire_each ws now todo s).1
  unfolding expire_each
  expire_each-IsShrunk now [] s = (refl, λ j k h. h)
  expire_each-IsShrunk now ((id, session) ∷ rest) s =
      elim (Bool-cases (session_expired now (s.heap session.socket.addr).transport)) [
        | inr fine ↦ rw fine (expire_each-IsShrunk now rest s)
        | inl old ↦
            let s' = (close_socket ws session.socket (drop_session id session s)).1 in
            let (rooms, less) = drop_session-IsShrunk id session s in
            let (rooms', less') = expire_each-IsShrunk now rest s' in
            rw old (rooms' ∙ rooms, λ j k h. less j k (less' j k h))
      ]
