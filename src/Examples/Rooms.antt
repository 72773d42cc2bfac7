-- ===== src/Examples/Rooms.antt =====
-- Rooms and the worker pool: two sockets in "red", one of them also in "blue".
use socket_go.Base.{
  length, ◌*◌, ◌+◌, ◌≤◌, if◌then◌else◌, eq_iff, ◌≡◌, ◌≢◌, ◌↔◌, ◌⊎◌, refl, true, List, [], ◌∷◌, none,
  some, arith, is_some, At, tally, String,
}
use socket_go.Base.Int.{pos_part, pos}
use socket_go.Base.Map.{lookup, insert}
use socket_go.Socket.{Socket}
use socket_go.Room.{
  RoomManager, new_room_manager, new_room, join_room, leave_room, get_room, get_socket_rooms,
  get_or_create, alloc, update, add_socket,
}
use socket_go.Room.Invariant.{Inv, new_room_manager-Inv, join_room-Inv}
use socket_go.Room.Laws.{member}
use socket_go.Room.Vacancy.{IsOccupied, rooms-IsOccupied}
use socket_go.Room.Threads.{joining, leaving, done, run as run_threads}
use socket_go.Room.Refinement.{
  Call, looks, joins, leaves, leaves_all, view, run, replay, run-refines,
}
use socket_go.Room.Races.{late_drop, join_lost}
use socket_go.Room.{broadcast_to_room, broadcast_parallel, get_sockets}
use socket_go.Room.Broadcast.{named, broadcast_to_room_sent}
use socket_go.Workers
use socket_go.Workers.{
  Pool, start, put, close, take, send, exit, Step, Steps, here, next, IsFinished,
}
use socket_go.Workers.Progress.{count_moves, pool_finishes}

abbrev ann : Socket
ann = record { id = "ann"; addr = 1 }

abbrev bob : Socket
bob = record { id = "bob"; addr = 2 }

abbrev red_bob : RoomManager
red_bob = join_room "red" bob new_room_manager

red_bob-Inv : Inv red_bob
red_bob-Inv = join_room-Inv "red" bob new_room_manager-Inv

abbrev crowd : RoomManager
crowd = join_room "blue" ann (join_room "red" ann red_bob)

crowd-Inv : Inv crowd
crowd-Inv = join_room-Inv "blue" ann (join_room-Inv "red" ann red_bob-Inv)

red_bob-lookup : lookup "red" red_bob.rooms ≡ some 0
unfolding join_room get_room get_or_create alloc update add_socket new_room_manager lookup insert
red_bob-lookup = refl

red_bob-sockets : (red_bob.heap 0).sockets ≡ ("bob", bob) ∷ []
unfolding join_room get_room get_or_create alloc update add_socket new_room_manager new_room lookup
    insert
red_bob-sockets = refl

ann≢bob : ann.id ≢ "bob"
ann≢bob = ground (arith, eq_iff ann.id "bob")

join_lost_example :
    let (ts, rm) = run_threads late_drop (leaving "red" "bob" ∷ joining "red" ann ∷ []) red_bob in
    (ts ≡ done ∷ done ∷ [])
    × (member "red" "ann" rm ≡ none)
    × (member "red" "ann" (join_room "red" ann (leave_room "red" "bob" red_bob)) ≡ some ann)
    × (member "red" "ann" (leave_room "red" "bob" (join_room "red" ann red_bob)) ≡ some ann)
join_lost_example =
    join_lost "red" "bob" ann bob 0 red_bob-Inv ann≢bob red_bob-lookup red_bob-sockets

new_room_manager-IsOccupied : IsOccupied new_room_manager
unfolding new_room_manager lookup
new_room_manager-IsOccupied n a e = absurd (ground arith)

red_bob-IsOccupied : IsOccupied red_bob
red_bob-IsOccupied =
    (rooms-IsOccupied "red" "" bob new_room_manager-Inv new_room_manager-IsOccupied).0

-- Ten workers were allowed, and one is enough for one socket.
abbrev told : Pool
told = record {
  feeding = [];
  jobs = [];
  capacity = 1;
  closed = true;
  idle = 0;
  busy = [];
  sent = bob ∷ [];
}

told-Steps : Steps (start (bob ∷ []) (pos 10)) told
unfolding start Workers.min
told-Steps =
    next
      (next
        (next (next (next here (put bob [] refl (omega arith) refl)) (close refl refl refl))
          (take 0 bob [] refl refl refl))
        (send bob [] [] refl refl))
      (exit 0 refl refl refl refl)

red_bob-broadcast : broadcast_to_room "red" red_bob ≡ some (start (bob ∷ []) (pos 10))
unfolding broadcast_to_room broadcast_parallel get_sockets join_room get_room get_or_create alloc
    update add_socket new_room_manager new_room lookup insert
red_bob-broadcast = refl

broadcast_to_room_sent_example :
    tally (named "bob") told.sent ≡ (if is_some (member "red" "bob" red_bob) then 1 else 0)
broadcast_to_room_sent_example =
    broadcast_to_room_sent "red" "bob" red_bob-Inv red_bob-broadcast told-Steps
      (record { fed = refl; shut = refl; idle_none = refl; busy_none = refl })

abbrev both : List Socket
both = ann ∷ bob ∷ []

pool_finishes_example :
    let r : Steps (start both (pos 1)) (start both (pos 1)) = here in
    (count_moves r ≤ 4 * length both + pos_part (Workers.min (pos (length both)) (pos 1)) + 1)
    × (IsFinished (start both (pos 1)) ⊎ ((q : Pool) × Step (start both (pos 1)) q))
    × ((q : Pool) × Steps (start both (pos 1)) q × IsFinished q)
unfolding Workers.min
pool_finishes_example = pool_finishes both (pos 1) (omega arith) here

abbrev room_calls : List Call
room_calls = looks "green" ∷ joins "red" ann ∷ leaves "red" "bob" ∷ leaves_all "ann" ∷ []

run-refines_example :
    (view (run room_calls crowd) ≡ replay room_calls (view crowd))
    × ((n id : String)
        → At n (get_socket_rooms id (run room_calls crowd))
          ↔ (is_some (replay room_calls (view crowd) n id) ≡ true))
run-refines_example = run-refines room_calls crowd-Inv
