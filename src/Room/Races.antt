-- ===== src/Room/Races.antt =====
-- socket/room.go, `JoinRoom` and `LeaveRoom`: a schedule in which they meet.
use socket_go.Base.{ℕ, String, ◌≡◌, ◌≢◌, none, some, arith, List, [], ◌∷◌, eq_iff}
use socket_go.Base.Map.{lookup, delete, lookup-delete}
use socket_go.Socket.{Socket}
use socket_go.Room.{RoomManager, update, remove_socket, remove_room, count, join_room, leave_room}
use socket_go.Room.Invariant.{Inv, join_room-Inv, leave_room-Inv}
use socket_go.Room.Laws.{member, member-join_room, member-leave_room}
use socket_go.Room.Threads.{joining, leaving, done, step, run}

-- The goroutine that leaves (thread 0) has counted no one left; the one that joins (thread 1) finds
-- the room and enters it; then the first drops the room.
abbrev pub late_drop : List ℕ
late_drop = 0 ∷ 0 ∷ 0 ∷ 1 ∷ 1 ∷ 0 ∷ []

-- In a room with one socket, which leaves while another one joins: there is a schedule by which
-- both goroutines finish and the socket that joined is in no room of that name, though either order
-- of the two calls would have left it there.
pub join_lost :
    (n id : String) (s t : Socket) (a : ℕ) {rm : RoomManager}
    → Inv rm
    → s.id ≢ id
    → lookup n rm.rooms ≡ some a
    → (rm.heap a).sockets ≡ (id, t) ∷ []
    → let (ts, rm') = run late_drop (leaving n id ∷ joining n s ∷ []) rm in
      (ts ≡ done ∷ done ∷ [])
      × (member n s.id rm' ≡ none)
      × (member n s.id (join_room n s (leave_room n id rm)) ≡ some s)
      × (member n s.id (leave_room n id (join_room n s rm)) ≡ some s)
unfolding run step
join_lost n id s t a {rm} inv ne e one = (
  unfold update remove_socket count delete in ground (arith, eq_iff id id),
  unfold update remove_socket remove_room count delete member in
      ground (arith, eq_iff id id, eq_iff n n, lookup-delete n n rm.rooms),
  ground
      (arith, eq_iff n n, eq_iff s.id s.id, member-join_room n n s.id s (leave_room-Inv n id inv)),
  ground (
    arith,
    eq_iff n n,
    eq_iff s.id s.id,
    eq_iff id s.id,
    member-join_room n n s.id s inv,
    member-leave_room n n id s.id (join_room-Inv n s inv),
  ),
)
