-- ===== src/Server/Membership/Ghosts.antt =====
-- socket/server.go, `Join` next to the cleanup of a closed connection (lines 314-321 and 451-459), one
-- step for each of their locks.
use socket_go.Base.{String, ◌≡◌, Bool, true, false, List, [], ◌∷◌, none, some, arith, eq_iff}
use socket_go.Base.Map.{lookup, delete, lookup-delete}
use socket_go.Socket.{Socket}
use socket_go.Room.{join_room}
use socket_go.Room.Invariant.{Inv, join_room-Inv, leave_all_rooms-Inv}
use socket_go.Room.Laws.{member, member-join_room}
use socket_go.Room.LeaveAll.{member-leave_all_rooms}
use socket_go.Server.{Server}
use socket_go.Server.Sockets.{leave_all}

-- A goroutine in `Join`, before and behind its look at the sockets, or in a cleanup, before and behind
-- its deletion.
pub data Thread : Type 0 where
  joining : String → String → Thread
  entering : Socket → String → Thread
  cleaning : Socket → Thread
  leaving : Socket → Thread
  done : Thread

module _ {W : Type 0} where
  unfoldable pub step : Thread → Server W → Thread × Server W
  step (joining id room) s = elim (lookup id s.sockets) [
    | none ↦ (done, s)
    | some k ↦ (entering k room, s)
  ]
  step (entering k room) s = (done, record s { room_manager = join_room room k s.room_manager })
  step (cleaning k) s = (leaving k, record s { sockets = delete k.id s.sockets })
  step (leaving k) s = (done, leave_all k.id s)
  step done s = (done, s)

  -- Two goroutines; `true` lets the first one make its step.
  unfoldable pub run : List Bool → Thread → Thread → Server W → Thread × Thread × Server W
  unfolding step
  run [] t u s = (t, u, s)
  run (true ∷ order) t u s = let (t', s') = step t s in run order t' u s'
  run (false ∷ order) t u s = let (u', s') = step u s in run order t u' s'

  -- A join of a socket and the cleanup of its closed connection, on a server whose rooms satisfy their
  -- invariant: when the whole cleanup falls between the two locks of the join, the socket is no longer
  -- among the sockets but stays in the room; when one call comes behind the other, it is in neither.
  pub join_ghost :
      (room : String) (k : Socket) (s : Server W)
      → Inv s.room_manager
      → lookup k.id s.sockets ≡ some k
      → let start = λ (order : List Bool). run order (joining k.id room) (cleaning k) s in
        let (t, u, raced) = start (true ∷ false ∷ false ∷ true ∷ []) in
        let (_, _, joined_first) = start (true ∷ true ∷ false ∷ false ∷ []) in
        let (_, _, cleaned_first) = start (false ∷ false ∷ true ∷ true ∷ []) in
        (t ≡ done)
        × (u ≡ done)
        × (lookup k.id raced.sockets ≡ none)
        × (member room k.id raced.room_manager ≡ some k)
        × (lookup k.id joined_first.sockets ≡ none)
        × (member room k.id joined_first.room_manager ≡ none)
        × (lookup k.id cleaned_first.sockets ≡ none)
        × (member room k.id cleaned_first.room_manager ≡ none)
  unfolding run step leave_all
  join_ghost room k s inv here = ground (
    arith,
    here,
    eq_iff k.id k.id,
    eq_iff room room,
    lookup-delete k.id k.id s.sockets,
    member-join_room room room k.id k (leave_all_rooms-Inv k.id inv),
    member-leave_all_rooms room k.id k.id (join_room-Inv room k inv),
    member-leave_all_rooms room k.id k.id inv,
  )
