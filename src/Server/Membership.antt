-- ===== src/Server/Membership.antt =====
-- socket/server.go: the rooms and the connections, over sequences of whole calls.
mod Gone
pub mod Ghosts
use socket_go.Base.{
  not, ◌||◌, ◌++◌, ℕ, String, ◌≡◌, refl, ap, ◌∙◌, Bool, true, false, ◌&&◌, inl, inr, List, [], ◌∷◌,
  Option, none, some, arith, is_some, str_eq, eq_iff, if◌then◌else◌, Option-cases, Bool-cases,
}
use socket_go.Base.Map.{
  Map, keys, mem, mem-keys, lookup, insert, delete, has, lookup-insert, lookup-delete,
}
use socket_go.Socket.{Value, Socket, Event}
use socket_go.Room.{get_room}
use socket_go.Room.Invariant.{Inv, get_room-Inv, join_room-Inv, leave_room-Inv, leave_all_rooms-Inv}
use socket_go.Room.Laws.{member, member-get_room, member-leave_room}
use socket_go.Room.LeaveAll.{member-leave_all_rooms}
use socket_go.Server.{Server, LongPollingSession, cleanup, Task}
use socket_go.Socket.Impl.{ServerTransport}
use socket_go.Server.Sessions.{
  session_expired, drop_session, handle_disconnect, expire_each, cleanup_sessions,
}
use socket_go.Server.Sockets.{
  close_socket, update_socket, handle_func, handle_socket, run_hook, join, leave, leave_all, in_,
}
use socket_go.Server.Hooks.{member-join}
use socket_go.Server.Membership.Gone.{
  IsShrunk, handle_disconnect-IsShrunk, expire_each-IsShrunk, missing, drop, mem-append,
  mem-missing, mem-drop,
}

-- What touches the server's sockets and rooms: the server's own goroutines and its caller's.
pub data Call : Type 0 where
  handles : Event → ℕ → Call
  connects : Socket → Call
  joins leaves : String → String → Call
  leaves_all : String → Call
  looks : String → Call
  cleans : Socket → Value → Call
  disconnects : String → Call
  ticks : ℕ → Call

after : {W : Type 0} → Option (List Task × Server W) → Server W → Server W
after none s = s
after (some (tasks, s')) s = s'

-- Sockets stand under their own ids; whoever is in a room is among the sockets or has one of the
-- ids `gone`.
pub record IsSound {W : Type 0} (gone : List String) (s : Server W) : Type 0 where
  pub rooms : Inv s.room_manager
  pub by_id : (j : String) (k : Socket) → lookup j s.sockets ≡ some k → k.id ≡ j
  pub known :
      (room id : String)
      → is_some (member room id s.room_manager) ≡ true
      → (has id s.sockets || mem id gone) ≡ true

module _ {W : Type 0} (gone : List String) where
  connects-IsSound :
      (socket : Socket) (s : Server W) → IsSound gone s → IsSound gone (handle_socket socket s).1
  unfolding handle_socket update_socket
  connects-IsSound socket s h = record {
    rooms = h.rooms;
    by_id = λ j k e.
        ground (arith, lookup-insert socket.id j socket s.sockets, eq_iff socket.id j, h.by_id j k);
    known =
        λ room id m. ground (arith, lookup-insert socket.id id socket s.sockets, h.known room id m);
  }

  join-rooms :
      (id room : String) (s : Server W) → IsSound gone s → Inv (join id room s).room_manager
  unfolding join
  join-rooms id room s h = elim (Option-cases (lookup id s.sockets)) [
    | inl e ↦ rw (e, join) h.rooms
    | inr (k, e) ↦ rw (e, join) (join_room-Inv room k h.rooms)
  ]

  join-sockets : (id room : String) (s : Server W) → (join id room s).sockets ≡ s.sockets
  unfolding join
  join-sockets id room s = ground arith

  joins-IsSound : (id room : String) (s : Server W) → IsSound gone s → IsSound gone (join id room s)
  joins-IsSound id room s h = record {
    rooms = join-rooms id room s h;
    by_id = λ j k e. h.by_id j k (rw (← join-sockets id room s) e);
    known = λ r j m. ground (
      arith,
      join-sockets id room s,
      member-join id room j r s h.rooms h.by_id,
      eq_iff id j,
      h.known r j,
    );
  }

  leaves-IsSound :
      (id room : String) (s : Server W) → IsSound gone s → IsSound gone (leave id room s)
  unfolding leave
  leaves-IsSound id room s h = record {
    rooms = leave_room-Inv room id h.rooms;
    by_id = h.by_id;
    known = λ r j m. ground (arith, member-leave_room r room id j h.rooms, h.known r j);
  }

  leaves_all-IsSound : (id : String) (s : Server W) → IsSound gone s → IsSound gone (leave_all id s)
  unfolding leave_all
  leaves_all-IsSound id s h = record {
    rooms = leave_all_rooms-Inv id h.rooms;
    by_id = h.by_id;
    known = λ r j m. ground (arith, member-leave_all_rooms r id j h.rooms, h.known r j);
  }

  looks-IsSound : (room : String) (s : Server W) → IsSound gone s → IsSound gone (in_ room s).1
  unfolding in_
  looks-IsSound room s h = record {
    rooms = get_room-Inv room h.rooms;
    by_id = h.by_id;
    known = λ r j m. ground (arith, member-get_room room r j h.rooms, h.known r j);
  }

  cleans-IsSound :
      (socket : Socket) (v : Value) (s : Server W)
      → IsSound gone s
      → IsSound (drop socket.id gone) (after (run_hook socket cleanup v s) s)
  unfolding run_hook after
  cleans-IsSound socket v s h = record {
    rooms = leave_all_rooms-Inv socket.id h.rooms;
    by_id = λ j k e. ground (arith, lookup-delete socket.id j s.sockets, h.by_id j k);
    known = λ r j m. ground (
      arith,
      lookup-delete socket.id j s.sockets,
      member-leave_all_rooms r socket.id j h.rooms,
      mem-drop socket.id j gone,
      h.known r j,
    );
  }

  shrinks-IsSound :
      (s s' : Server W)
      → IsShrunk s s'
      → IsSound gone s
      → IsSound (missing (keys s.sockets) s' ++ gone) s'
  shrinks-IsSound s s' (rooms, less) h = record {
    rooms = rw rooms h.rooms;
    by_id = λ j k e. h.by_id j k (less j k e);
    known = λ r j m. ground (
      arith,
      rooms,
      mem-append j (missing (keys s.sockets) s') gone,
      mem-missing j (keys s.sockets) s',
      mem-keys j s.sockets,
      h.known r j,
    );
  }

module _ {W : Type 0} (ws : ServerTransport W) where
  unfoldable pub step : Call → Server W → Server W
  unfolding after
  step (handles e f) s = handle_func e f s
  step (connects socket) s = (handle_socket socket s).1
  step (joins id room) s = join id room s
  step (leaves id room) s = leave id room s
  step (leaves_all id) s = leave_all id s
  step (looks room) s = (in_ room s).1
  step (cleans socket v) s = after (run_hook socket cleanup v s) s
  step (disconnects id) s = (handle_disconnect ws id s).2
  step (ticks now) s = (cleanup_sessions ws now s).1

  unfoldable pub run : List Call → Server W → Server W
  unfolding step
  run [] s = s
  run (c ∷ cs) s = run cs (step c s)

  -- The ids that a request to `/disconnect` or a tick of `cleanupSessions` has taken out of the sockets
  -- and of which no cleanup has run since.
  unfoldable pub gone_after : Call → List String → Server W → List String
  unfolding step missing drop
  gone_after (disconnects id) gone s = missing (keys s.sockets) (step (disconnects id) s) ++ gone
  gone_after (ticks now) gone s = missing (keys s.sockets) (step (ticks now) s) ++ gone
  gone_after (cleans socket v) gone s = drop socket.id gone
  gone_after (handles e f) gone s = gone
  gone_after (connects socket) gone s = gone
  gone_after (joins id room) gone s = gone
  gone_after (leaves id room) gone s = gone
  gone_after (leaves_all id) gone s = gone
  gone_after (looks room) gone s = gone

  unfoldable pub gone_over : List Call → List String → Server W → List String
  gone_over [] gone s = gone
  gone_over (c ∷ cs) gone s = gone_over cs (gone_after c gone s) (step c s)

  step-IsSound :
      (c : Call) (gone : List String) (s : Server W)
      → IsSound gone s
      → IsSound (gone_after c gone s) (step c s)
  unfolding step gone_after
  step-IsSound (handles e f) gone s h =
      unfold handle_func in record { rooms = h.rooms; by_id = h.by_id; known = h.known }
  step-IsSound (connects socket) gone s h = connects-IsSound gone socket s h
  step-IsSound (joins id room) gone s h = joins-IsSound gone id room s h
  step-IsSound (leaves id room) gone s h = leaves-IsSound gone id room s h
  step-IsSound (leaves_all id) gone s h = leaves_all-IsSound gone id s h
  step-IsSound (looks room) gone s h = looks-IsSound gone room s h
  step-IsSound (cleans socket v) gone s h = cleans-IsSound gone socket v s h
  step-IsSound (disconnects id) gone s h =
      shrinks-IsSound gone s _ (handle_disconnect-IsShrunk ws id s) h
  step-IsSound (ticks now) gone s h =
      shrinks-IsSound gone s _ (unfold cleanup_sessions in expire_each-IsShrunk ws now s.sessions s)
        h

  -- Over any sequence of registrations of handlers, connections, joins, leaves, looks into rooms,
  -- cleanups, requests to `/disconnect` and ticks of `cleanupSessions`, each from its start to its
  -- end: names and pointers of the rooms agree, each socket stands under its own id, and whoever is
  -- in a room is among the server's sockets, or has been taken out of them by a `/disconnect` or a
  -- tick, and no cleanup of its id has run since.
  pub run-IsSound :
      (cs : List Call) (gone : List String) (s : Server W)
      → IsSound gone s
      → IsSound (gone_over cs gone s) (run cs s)
  unfolding run gone_over
  run-IsSound [] gone s h = h
  run-IsSound (c ∷ cs) gone s h =
      run-IsSound cs (gone_after c gone s) (step c s) (step-IsSound c gone s h)
