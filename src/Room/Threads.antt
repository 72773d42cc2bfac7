-- ===== src/Room/Threads.antt =====
-- The manager under concurrency. Each lock of room.go is one atomic step; a goroutine is what it has
-- still to do, and a schedule says who goes next.
use socket_go.Base.{
  ℕ, zero, suc, String, ◌≡◌, inl, inr, none, some, arith, List, [], ◌∷◌, ◌==◌, if◌then◌else◌,
  Option-cases,
}
use socket_go.Base.Map.{lookup, values}
use socket_go.Socket.{Socket}
use socket_go.Room.{
  RoomManager, add_socket, remove_socket, count, has_socket, update, get_or_create, join_room,
  remove_room, leave_room,
}
use socket_go.Room.Invariant.{Inv, get_or_create-Inv, add-Inv, remove-Inv, remove_room-Inv}

-- Where a goroutine stands in `JoinRoom`, `LeaveRoom` or `LeaveAllRooms`.
pub data Thread : Type 0 where
  joining creating : String → Socket → Thread
  adding : ℕ → Socket → Thread
  leaving : String → String → Thread
  removing : ℕ → String → String → Thread
  counting : ℕ → String → Thread
  dropping : String → Thread
  leaving_all : String → Thread
  visiting : String → List ℕ → Thread
  removing_in : String → ℕ → List ℕ → Thread
  counting_in : String → ℕ → List ℕ → Thread
  dropping_in : String → String → List ℕ → Thread
  done : Thread

unfoldable pub step : Thread → RoomManager → Thread × RoomManager
unfolding get_or_create count has_socket
step (joining n s) rm = elim (lookup n rm.rooms) [
  | some a ↦ (adding a s, rm)
  | none ↦ (creating n s, rm)
]
step (creating n s) rm = let (rm', a) = get_or_create n rm in (adding a s, rm')
step (adding a s) rm = (done, update a (add_socket s) rm)
step (leaving n id) rm = elim (lookup n rm.rooms) [
  | some a ↦ (removing a n id, rm)
  | none ↦ (done, rm)
]
step (removing a n id) rm = (counting a n, update a (remove_socket id) rm)
step (counting a n) rm = (if count (rm.heap a) == 0 then dropping n else done, rm)
step (dropping n) rm = (done, remove_room n rm)
step (leaving_all id) rm = (visiting id (values rm.rooms), rm)
step (visiting id []) rm = (done, rm)
step (visiting id (a ∷ copy)) rm =
    (if has_socket id (rm.heap a) then removing_in id a copy else visiting id copy, rm)
step (removing_in id a copy) rm = (counting_in id a copy, update a (remove_socket id) rm)
step (counting_in id a copy) rm =
    (if count (rm.heap a) == 0 then dropping_in id (rm.heap a).name copy else visiting id copy, rm)
step (dropping_in id n copy) rm = (visiting id copy, remove_room n rm)
step done rm = (done, rm)

-- One step of the thread with this number; a number that is out of range changes nothing.
unfoldable step_at : ℕ → List Thread → RoomManager → List Thread × RoomManager
unfolding step
step_at i [] rm = ([], rm)
step_at zero (t ∷ ts) rm = let (t', rm') = step t rm in (t' ∷ ts, rm')
step_at (suc i) (t ∷ ts) rm = let (ts', rm') = step_at i ts rm in (t ∷ ts', rm')

unfoldable pub run : List ℕ → List Thread → RoomManager → List Thread × RoomManager
unfolding step_at
run [] ts rm = (ts, rm)
run (i ∷ is) ts rm = let (ts', rm') = step_at i ts rm in run is ts' rm'

step-Inv : (t : Thread) {rm : RoomManager} → Inv rm → Inv (step t rm).1
unfolding step
step-Inv (joining n s) {rm} inv = elim (Option-cases (lookup n rm.rooms)) [
  | inl e ↦ rw (e, step) inv
  | inr (a, e) ↦ rw (e, step) inv
]
step-Inv (creating n s) inv = get_or_create-Inv n inv
step-Inv (adding a s) inv = add-Inv a s inv
step-Inv (leaving n id) {rm} inv = elim (Option-cases (lookup n rm.rooms)) [
  | inl e ↦ rw (e, step) inv
  | inr (a, e) ↦ rw (e, step) inv
]
step-Inv (removing a n id) inv = remove-Inv a id inv
step-Inv (counting a n) inv = inv
step-Inv (dropping n) inv = remove_room-Inv n inv
step-Inv (leaving_all id) inv = inv
step-Inv (visiting id []) inv = inv
step-Inv (visiting id (a ∷ copy)) inv = inv
step-Inv (removing_in id a copy) inv = remove-Inv a id inv
step-Inv (counting_in id a copy) inv = inv
step-Inv (dropping_in id n copy) inv = remove_room-Inv n inv
step-Inv done inv = inv

step_at-Inv : (i : ℕ) (ts : List Thread) {rm : RoomManager} → Inv rm → Inv (step_at i ts rm).1
unfolding step_at
step_at-Inv i [] inv = inv
step_at-Inv zero (t ∷ ts) inv = step-Inv t inv
step_at-Inv (suc i) (t ∷ ts) inv = step_at-Inv i ts inv

pub run-Inv :
    (schedule : List ℕ) (ts : List Thread) {rm : RoomManager} → Inv rm → Inv (run schedule ts rm).1
unfolding run
run-Inv [] ts inv = inv
run-Inv (i ∷ is) ts inv = run-Inv is (step_at i ts _).0 (step_at-Inv i ts inv)

-- With nobody between its steps, a goroutine does what the function on the whole state says.
alone-join :
    (n : String) (s : Socket) (rm : RoomManager)
    → run (0 ∷ 0 ∷ 0 ∷ []) (joining n s ∷ []) rm ≡ (done ∷ [], join_room n s rm)
unfolding run join_room
alone-join n s rm = ground arith

alone-leave :
    (n id : String) (rm : RoomManager)
    → run (0 ∷ 0 ∷ 0 ∷ 0 ∷ []) (leaving n id ∷ []) rm ≡ (done ∷ [], leave_room n id rm)
unfolding run leave_room
alone-leave n id rm = ground arith
