-- ===== src/Room/Refinement.antt =====
-- socket/room.go: the manager as a table of who is in which room, over any sequence of calls.
use mathlib.Core.Path.{fun_ext}
use socket_go.Base.{
  String, ◌≡◌, refl, sym, ap, ◌∙◌, ◌↔◌, true, ◌&&◌, inl, inr, List, [], ◌∷◌, Option, none, some,
  arith, is_some, At, here, there, str_eq, eq_iff, if◌then◌else◌, Option-cases,
}
use socket_go.Base.Map.{mem}
use socket_go.Socket.{Socket}
use socket_go.Room.{RoomManager, get_room, join_room, leave_room, leave_all_rooms, get_socket_rooms}
use socket_go.Room.Invariant.{Inv, get_room-Inv, join_room-Inv, leave_room-Inv, leave_all_rooms-Inv}
use socket_go.Room.Laws.{member, member-get_room, member-join_room, member-leave_room}
use socket_go.Room.LeaveAll.{member-leave_all_rooms}
use socket_go.Room.Listing.{At-get_socket_rooms}

-- Who is in which room: the room's name, the socket's id.
abbrev View : Type 0
View = String → String → Option Socket

abbrev pub view : RoomManager → View
view rm n id = member n id rm

unfoldable pub enter : String → Socket → View → View
enter r s v n id = if str_eq r n && str_eq s.id id then some s else v n id

unfoldable pub exit : String → String → View → View
exit r id v n j = if str_eq r n && str_eq id j then none else v n j

unfoldable exit_all : String → View → View
exit_all id v n j = if str_eq id j then none else v n j

-- The calls of a `RoomManager` that change it.
pub data Call : Type 0 where
  looks : String → Call
  joins : String → Socket → Call
  leaves : String → String → Call
  leaves_all : String → Call

unfoldable pub call : Call → RoomManager → RoomManager
call (looks r) rm = (get_room r rm).0
call (joins r s) rm = join_room r s rm
call (leaves r id) rm = leave_room r id rm
call (leaves_all id) rm = leave_all_rooms id rm

unfoldable replay_one : Call → View → View
unfolding enter exit exit_all
replay_one (looks r) v = v
replay_one (joins r s) v = enter r s v
replay_one (leaves r id) v = exit r id v
replay_one (leaves_all id) v = exit_all id v

unfoldable pub run : List Call → RoomManager → RoomManager
unfolding call
run [] rm = rm
run (c ∷ cs) rm = run cs (call c rm)

unfoldable pub replay : List Call → View → View
unfolding replay_one
replay [] v = v
replay (c ∷ cs) v = replay cs (replay_one c v)

call-Inv : (c : Call) {rm : RoomManager} → Inv rm → Inv (call c rm)
unfolding call
call-Inv (looks r) inv = get_room-Inv r inv
call-Inv (joins r s) inv = join_room-Inv r s inv
call-Inv (leaves r id) inv = leave_room-Inv r id inv
call-Inv (leaves_all id) inv = leave_all_rooms-Inv id inv

view-call : (c : Call) {rm : RoomManager} → Inv rm → view (call c rm) ≡ replay_one c (view rm)
unfolding call replay_one enter exit exit_all
view-call (looks r) inv = fun_ext λ n. fun_ext λ id. member-get_room r n id inv
view-call (joins r s) inv = fun_ext λ n. fun_ext λ id. member-join_room n r id s inv
view-call (leaves r id) inv = fun_ext λ n. fun_ext λ j. member-leave_room n r id j inv
view-call (leaves_all id) inv = fun_ext λ n. fun_ext λ j. member-leave_all_rooms n id j inv

run-Inv : (cs : List Call) {rm : RoomManager} → Inv rm → Inv (run cs rm)
unfolding run
run-Inv [] inv = inv
run-Inv (c ∷ cs) inv = run-Inv cs (call-Inv c inv)

view-run : (cs : List Call) {rm : RoomManager} → Inv rm → view (run cs rm) ≡ replay cs (view rm)
unfolding run replay
view-run [] inv = refl
view-run (c ∷ cs) inv = view-run cs (call-Inv c inv) ∙ ap (replay cs) (view-call c inv)

-- From a manager whose names and pointers agree, such as a new one, any sequence of `GetRoom`,
-- `JoinRoom`, `LeaveRoom` and `LeaveAllRooms` does to the table of who is in which room what the
-- calls say: a join enters one socket into one room, a leave takes one out of one, the last takes
-- one out of all, and a look changes nothing. Afterwards `GetSocketRooms` lists the rooms that the
-- table has for the socket, and no others.
pub run-refines :
    (cs : List Call) {rm : RoomManager}
    → Inv rm
    → (view (run cs rm) ≡ replay cs (view rm))
      × ((n id : String)
          → At n (get_socket_rooms id (run cs rm)) ↔ (is_some (replay cs (view rm) n id) ≡ true))
run-refines cs inv =
    (view-run cs inv, λ n id. rw (← view-run cs inv) (At-get_socket_rooms n id (run-Inv cs inv)))

-- A `LeaveRoom` for each of the names.
unfoldable leave_listed : String → List String → RoomManager → RoomManager
leave_listed id [] rm = rm
leave_listed id (r ∷ rs) rm = leave_listed id rs (leave_room r id rm)

member-leave_listed :
    (n id j : String) (rs : List String) {rm : RoomManager}
    → Inv rm
    → member n j (leave_listed id rs rm) ≡ (if mem n rs && str_eq id j then none else member n j rm)
unfolding leave_listed
member-leave_listed n id j [] inv = refl
member-leave_listed n id j (r ∷ rs) inv =
    ground (
      arith,
      member-leave_listed n id j rs (leave_room-Inv r id inv),
      member-leave_room n r id j inv,
    )

mem-At : (n : String) (rs : List String) → At n rs → mem n rs ≡ true
mem-At n [] at = elim at [ ]
mem-At n (r ∷ rs) here = ground (arith, eq_iff r n)
mem-At n (r ∷ rs) (there at) = ground (arith, mem-At n rs at)

-- In a manager whose names and pointers agree, `LeaveAllRooms` leaves everyone where `LeaveRoom`
-- for each of the rooms that `GetSocketRooms` lists would.
leave_all_rooms-leave_listed :
    (id : String) {rm : RoomManager}
    → Inv rm
    → view (leave_all_rooms id rm) ≡ view (leave_listed id (get_socket_rooms id rm) rm)
leave_all_rooms-leave_listed id {rm} inv = fun_ext λ n. fun_ext λ j.
    member-leave_all_rooms n id j inv
    ∙ everywhere n j
    ∙ sym (member-leave_listed n id j (get_socket_rooms id rm) inv)
  where
    everywhere :
        (n j : String)
        → (if str_eq id j then none else member n j rm)
          ≡ (if mem n (get_socket_rooms id rm) && str_eq id j then none else member n j rm)
    everywhere n j = elim (Option-cases (member n id rm)) [
      | inl e ↦ ground (arith, eq_iff id j, e)
      | inr (s, e) ↦
          let at : At n (get_socket_rooms id rm) =
            (At-get_socket_rooms n id inv).1 (ap is_some e) in
          ground (arith, mem-At n (get_socket_rooms id rm) at)
    ]
