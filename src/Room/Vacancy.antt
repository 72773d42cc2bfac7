-- ===== src/Room/Vacancy.antt =====
-- socket/room.go: which operations leave empty rooms behind.
use socket_go.Base.{
  ℕ, ◌<◌, String, ◌≡◌, inl, inr, true, false, some, arith, List, [], ◌∷◌, All, eq_iff, ==_iff,
  Bool-cases, Option-cases,
}
use socket_go.Base.Map.{lookup-At, lookup, lookup-insert, lookup-delete, length-insert_pos}
use socket_go.Socket.{Socket}
use socket_go.Room.{
  RoomManager, count, add_socket, remove_socket, has_room, update, alloc, get_or_create, get_room,
  join_room, drop_if_empty, leave_room, remove_room, leave_one, leave_each, leave_all_rooms,
  has_socket,
}
use socket_go.Room.Invariant.{Inv, leave_one-Inv}
use socket_go.Room.LeaveAll.{Pending, leave_one_absent, leave_one-All, All-Pending}

-- Every registered room has somebody in it.
abbrev pub IsOccupied : RoomManager → Type 0
IsOccupied rm = (n : String) (a : ℕ) → lookup n rm.rooms ≡ some a → 0 < count (rm.heap a)

-- In a manager whose names and pointers agree, `GetRoom`, and so `In`, on a name that is not
-- registered registers a room that has nobody in it.
get_room_leaks :
    (n : String) {rm : RoomManager}
    → Inv rm
    → has_room n rm ≡ false
    → (has_room n (get_room n rm).0 ≡ true) × ¬ IsOccupied (get_room n rm).0
unfolding has_room get_room get_or_create alloc count
get_room_leaks n {rm} inv absent = (
  ground (arith, lookup-insert n n rm.next rm.rooms, eq_iff n n),
  λ occ.
      let here : 0 < count ((get_room n rm).0.heap rm.next) =
        occ n rm.next (ground (arith, lookup-insert n n rm.next rm.rooms, eq_iff n n)) in
      ground (arith, here),
)

join_room-IsOccupied :
    (n : String) (s : Socket) {rm : RoomManager}
    → Inv rm
    → IsOccupied rm
    → IsOccupied (join_room n s rm)
unfolding join_room count get_room get_or_create alloc update add_socket
join_room-IsOccupied n s {rm} inv occ m a e = ground (
  arith,
  lookup-insert n m rm.next rm.rooms,
  eq_iff n m,
  occ m a,
  inv.fresh m a,
  length-insert_pos s.id s ((get_room n rm).0.heap a).sockets,
  ==_iff a rm.next,
)

drop_if_empty-IsOccupied :
    (n id : String) (a : ℕ) {rm : RoomManager}
    → Inv rm
    → IsOccupied rm
    → lookup n rm.rooms ≡ some a
    → IsOccupied (drop_if_empty a n (update a (remove_socket id) rm))
unfolding drop_if_empty remove_room update remove_socket count
drop_if_empty-IsOccupied n id a {rm} inv occ e m b f = ground (
  arith,
  lookup-delete n m rm.rooms,
  eq_iff n m,
  occ m b,
  ==_iff b a,
  inv.named n a e,
  inv.named m b,
)

leave_room-IsOccupied :
    (n id : String) {rm : RoomManager} → Inv rm → IsOccupied rm → IsOccupied (leave_room n id rm)
unfolding leave_room
leave_room-IsOccupied n id {rm} inv occ = elim (Option-cases (lookup n rm.rooms)) [
  | inl e ↦ rw (e, leave_room) occ
  | inr (a, e) ↦ rw (e, leave_room) (drop_if_empty-IsOccupied n id a inv occ e)
]

leave_one-IsOccupied :
    (id : String) (a : ℕ) {rm : RoomManager}
    → Inv rm
    → Pending id rm a
    → IsOccupied rm
    → IsOccupied (leave_one id a rm)
unfolding leave_one
leave_one-IsOccupied id a {rm} inv (inr lacks) occ = rw (leave_one_absent id a rm lacks) occ
leave_one-IsOccupied id a {rm} inv (inl reg) occ = elim (Bool-cases (has_socket id (rm.heap a))) [
  | inl e ↦ rw e (drop_if_empty-IsOccupied (rm.heap a).name id a inv occ reg)
  | inr e ↦ rw e occ
]

leave_each-IsOccupied :
    (id : String) (copy : List ℕ) {rm : RoomManager}
    → Inv rm
    → All (Pending id rm) copy
    → IsOccupied rm
    → IsOccupied (leave_each id copy rm)
unfolding leave_each
leave_each-IsOccupied id [] inv h occ = occ
leave_each-IsOccupied id (a ∷ copy) inv h occ =
    leave_each-IsOccupied id copy (leave_one-Inv id a inv) (leave_one-All id a copy inv h.0 h.1)
      (leave_one-IsOccupied id a inv h.0 occ)

-- In a manager whose names and pointers agree and where every room has somebody in it, it stays so:
-- joining, leaving and leaving all rooms drop each room that they empty.
pub rooms-IsOccupied :
    (n id : String) (s : Socket) {rm : RoomManager}
    → Inv rm
    → IsOccupied rm
    → IsOccupied (join_room n s rm)
      × IsOccupied (leave_room n id rm)
      × IsOccupied (leave_all_rooms id rm)
unfolding leave_all_rooms
rooms-IsOccupied n id s {rm} inv occ = (
  join_room-IsOccupied n s inv occ,
  leave_room-IsOccupied n id inv occ,
  leave_each-IsOccupied id _ inv
      (All-Pending id rm rm.rooms inv (λ k a at. lookup-At inv.distinct at)) occ,
)
