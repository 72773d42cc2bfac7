-- ===== src/Server/Hooks.antt =====
-- socket/server.go, `handleSocket`: what a connection's events come to on the server.
use socket_go.Base.{
  ◌∙◌, ◌==◌, map, true, false, String, ◌≡◌, refl, inl, inr, not, ◌&&◌, ◌||◌, List, [], ◌∷◌, ◌++◌,
  none, some, arith, ==_iff, str_eq, eq_iff, if◌then◌else◌, Option-cases,
}
use mathlib.Core.List.{append-nil}
use socket_go.Base.Map.{
  insert, IsMap, lookup, delete, lookup-insert, lookup-delete, has, keys, mem, mem-keys,
  keys-Distinct, Distinct,
}
use socket_go.Socket.{Value, nil, Socket, Event, event_connect, event_disconnect, Bytes}
use socket_go.Socket.Impl.{
  or_empty, close, Codec, ServerTransport, on, handlers_of, trigger_event as trigger_hooks,
  receive_one, go_all,
}
use socket_go.Socket.Impl.Handlers.{handlers_of-on-off}
use socket_go.Room.{leave_all_rooms}
use socket_go.Room.Invariant.{Inv}
use socket_go.Room.Laws.{member, member-join_room}
use socket_go.Room.LeaveAll.{member-leave_all_rooms}
use socket_go.Server.{Server, relay, cleanup, unblock, Connection, Task}
use socket_go.Server.Sockets.{
  any_transport, update_socket, trigger_event, relayed, relay_all, handle_socket, register_socket,
  run_hook, run_hooks, join, close_socket,
}

-- `relay_all` adds the relays that are due, each once.
handlers_of-relay_all :
    {W : Type 0} (event : Event) (es : List Event) (c : Connection W)
    → Distinct es
    → handlers_of event (relay_all es c)
      ≡ handlers_of event c ++ (if mem event es then relay event ∷ [] else [])
unfolding relay_all
handlers_of-relay_all event [] c d = ground (arith, append-nil (handlers_of event c))
handlers_of-relay_all event (e ∷ es) c d = ground (
  arith,
  eq_iff e event,
  handlers_of-relay_all event es (on e (relay e) c) d.1,
  (handlers_of-on-off e event (relay e) c).0,
  append-nil (handlers_of event c),
  append-nil (handlers_of event c ++ relay event ∷ []),
)

handlers_of_fresh :
    {W : Type 0} (event : Event) (c : Connection W) → c.handlers ≡ [] → handlers_of event c ≡ []
unfolding handlers_of lookup
handlers_of_fresh event c e = rw e refl

mem-relayed :
    (event : Event) (es : List Event)
    → mem event (relayed es)
      ≡ mem event es && not (str_eq event event_connect || str_eq event event_disconnect)
unfolding relayed
mem-relayed event [] = refl
mem-relayed event (e ∷ es) = ground (arith, eq_iff e event, mem-relayed event es)

relayed-Distinct : (es : List Event) → Distinct es → Distinct (relayed es)
unfolding relayed
relayed-Distinct [] d = tt
relayed-Distinct (e ∷ es) d = ground (arith, mem-relayed e es, relayed-Distinct es d.1)

-- A connection without handlers gets the cleanup for `disconnect`, one relay for each other event
-- that has handlers on the server at that time, and nothing for `connect`.
pub handlers_of-handle_socket :
    {W : Type 0} (event : Event) (socket : Socket) (s : Server W)
    → IsMap s.handlers
    → (s.heap socket.addr).handlers ≡ []
    → handlers_of event ((handle_socket socket s).1.heap socket.addr) ≡ (
        if str_eq event event_disconnect
        then cleanup ∷ []
        else if has event s.handlers && not (str_eq event event_connect)
        then relay event ∷ []
        else [])
unfolding handle_socket update_socket
handlers_of-handle_socket event socket s d fresh = ground (
  arith,
  ==_iff socket.addr socket.addr,
  eq_iff event_disconnect event,
  eq_iff event event_disconnect,
  (handlers_of-on-off event_disconnect event cleanup
      (relay_all (relayed (keys s.handlers)) (s.heap socket.addr))).0,
  handlers_of-relay_all event (relayed (keys s.handlers)) (s.heap socket.addr)
      (relayed-Distinct _ (keys-Distinct s.handlers d)),
  handlers_of-relay_all event_disconnect (relayed (keys s.handlers)) (s.heap socket.addr)
      (relayed-Distinct _ (keys-Distinct s.handlers d)),
  mem-relayed event (keys s.handlers),
  mem-relayed event_disconnect (keys s.handlers),
  mem-keys event s.handlers,
  handlers_of_fresh event (s.heap socket.addr) fresh,
  handlers_of_fresh event_disconnect (s.heap socket.addr) fresh,
)

-- What the server's `disconnect` handlers are started with, from the table of handlers alone.
abbrev pub farewells : {W : Type 0} → Socket → Value → Server W → List Task
farewells socket v s =
    map (λ f. record { function = f; socket = socket; content = v })
      (or_empty (lookup event_disconnect s.handlers))

-- The server behind a cleanup.
abbrev cleaned : {W : Type 0} → Socket → Server W → Server W
cleaned socket s = record s {
  sockets = delete socket.id s.sockets;
  room_manager = leave_all_rooms socket.id s.room_manager;
}

connected-relay_all :
    {W : Type 0} (es : List Event) (c : Connection W) → (relay_all es c).connected ≡ c.connected
unfolding relay_all on
connected-relay_all [] c = refl
connected-relay_all (e ∷ es) c = connected-relay_all es (on e (relay e) c)

connected-handle_socket :
    {W : Type 0} (socket : Socket) (s : Server W)
    → ((handle_socket socket s).1.heap socket.addr).connected ≡ (s.heap socket.addr).connected
unfolding handle_socket update_socket on
connected-handle_socket socket s = ground (
  arith,
  ==_iff socket.addr socket.addr,
  connected-relay_all (relayed (keys s.handlers)) (s.heap socket.addr),
)

-- The hooks that a close of a connection starts which the server has just got.
close_socket-hooks :
    {W : Type 0} (ws : ServerTransport W) (socket : Socket) (s : Server W)
    → IsMap s.handlers
    → (s.heap socket.addr).handlers ≡ []
    → (s.heap socket.addr).connected ≡ true
    → (close_socket ws socket (handle_socket socket s).1).0
      ≡ record { handler = cleanup; content = nil } ∷ []
unfolding close_socket close trigger_hooks go_all
close_socket-hooks ws socket s d fresh on_ =
    rw
      (
        connected-handle_socket socket s,
        on_,
        handlers_of-handle_socket event_disconnect socket s d fresh,
      )
      refl

run_hooks-cleanup :
    {W : Type 0} (socket : Socket) (v : Value) (s : Server W)
    → run_hooks socket (record { handler = cleanup; content = v } ∷ []) s
      ≡ some (farewells socket v s ++ [], cleaned socket s)
unfolding run_hooks trigger_event
run_hooks-cleanup socket v s = refl

-- A connection without handlers of its own, which is connected, comes to a server whose handlers are a
-- map and whose rooms satisfy their invariant. When it is closed, one hook is started, the cleanup;
-- when that has run, the connection is neither among the sockets nor in any room, everybody else is
-- where they were, and what has been started are the server's `disconnect` handlers, each once and in
-- order, with nil.
pub close_socket-cleanup :
    {W : Type 0} (ws : ServerTransport W) (socket : Socket) (id room : String) (s : Server W)
    → IsMap s.handlers
    → (s.heap socket.addr).handlers ≡ []
    → (s.heap socket.addr).connected ≡ true
    → Inv s.room_manager
    → let (gos, closed) = close_socket ws socket (handle_socket socket s).1 in
      (out : List Task × Server W) × (run_hooks socket gos closed ≡ some out)
      × (lookup id out.1.sockets ≡ (if str_eq socket.id id then none else lookup id s.sockets))
      × (member room id out.1.room_manager
          ≡ (if str_eq socket.id id then none else member room id s.room_manager))
      × (out.0 ≡ farewells socket nil s)
unfolding close_socket
close_socket-cleanup ws socket id room s d fresh on_ inv =
    let s' = (close_socket ws socket (handle_socket socket s).1).1 in
    let rooms : s'.room_manager ≡ s.room_manager = unfold handle_socket update_socket in refl in
    let sockets : s'.sockets ≡ insert socket.id socket s.sockets =
      unfold handle_socket update_socket in refl in
    let handlers : s'.handlers ≡ s.handlers = unfold handle_socket update_socket in refl in
    (
      (farewells socket nil s' ++ [], cleaned socket s'),
      rw (close_socket-hooks ws socket s d fresh on_) (run_hooks-cleanup socket nil s'),
      ground (
        arith,
        lookup-delete socket.id id s'.sockets,
        sockets,
        lookup-insert socket.id id socket s.sockets,
      ),
      ground (
        arith,
        member-leave_all_rooms room socket.id id {rm = s'.room_manager} (rw rooms inv),
        rooms,
      ),
      append-nil (farewells socket nil s') ∙ rw handlers refl,
    )

-- On a server whose rooms satisfy their invariant and whose sockets stand under their own ids:
-- `Join` lets only a connection that the server knows into a room, and changes nobody else's place.
pub member-join :
    {W : Type 0} (id room other r : String) (s : Server W)
    → Inv s.room_manager
    → ((j : String) (k : Socket) → lookup j s.sockets ≡ some k → k.id ≡ j)
    → member r other (join id room s).room_manager ≡ (
        if str_eq room r && str_eq id other && has id s.sockets
        then lookup id s.sockets
        else member r other s.room_manager)
unfolding join
member-join id room other r s inv by_id = elim (Option-cases (lookup id s.sockets)) [
  | inl e ↦ ground (arith, e)
  | inr (k, e) ↦ ground (arith, e, by_id id k e, member-join_room r room other k inv)
]

-- The hooks of `disconnect` on a connection whose registration waits for it.
handlers_of-register_socket :
    {W : Type 0} (socket : Socket) (s : Server W)
    → IsMap s.handlers
    → (s.heap socket.addr).handlers ≡ []
    → handlers_of event_disconnect ((register_socket socket s).1.heap socket.addr)
      ≡ cleanup ∷ unblock ∷ []
unfolding register_socket update_socket
handlers_of-register_socket socket s d fresh = ground (
  arith,
  ==_iff socket.addr socket.addr,
  handlers_of-handle_socket event_disconnect socket s d fresh,
  eq_iff event_disconnect event_disconnect,
  (handlers_of-on-off event_disconnect event_disconnect unblock
      ((handle_socket socket s).1.heap socket.addr)).0,
)

-- A message whose event is `disconnect` starts both hooks.
receive_one-disconnect :
    {W : Type 0} (ws : ServerTransport W) (codec : Codec) (m : Bytes) (v : Value) (c : Connection W)
    → codec.unmarshal m ≡ some (record { event = event_disconnect; content = v })
    → handlers_of event_disconnect c ≡ cleanup ∷ unblock ∷ []
    → receive_one (any_transport ws) codec m c
      ≡ record { handler = cleanup; content = v } ∷ record { handler = unblock; content = v } ∷ []
unfolding receive_one trigger_hooks go_all
receive_one-disconnect ws codec m v c e h = rw (e, receive_one, h) refl

-- The two hooks on a channel that is open, and on one that is closed.
both_hooks-run :
    {W : Type 0} (socket : Socket) (v : Value) (s : Server W)
    → s.closed_channels socket.addr ≡ false
    → (out : List Task × Server W) × (run_hooks socket
          (record { handler = cleanup; content = v }
            ∷ record { handler = unblock; content = v }
            ∷ [])
          s
        ≡ some out)
      × (out.1.heap socket.addr ≡ s.heap socket.addr)
      × (out.1.closed_channels socket.addr ≡ true)
unfolding run_hooks
both_hooks-run {W} socket v s h =
    let s₁ : Server W = record s {
      sockets = delete socket.id s.sockets;
      room_manager = leave_all_rooms socket.id s.room_manager;
    } in
    let s₂ : Server W = record s₁ {
      closed_channels = λ a. if a == socket.addr then true else s.closed_channels a;
    } in
    (
      (trigger_event socket event_disconnect v s₁ ++ ([] ++ []), s₂),
      rw (h, run_hooks) refl,
      refl,
      ground (arith, ==_iff socket.addr socket.addr),
    )

both_hooks-panic :
    {W : Type 0} (socket : Socket) (v : Value) (s : Server W)
    → s.closed_channels socket.addr ≡ true
    → run_hooks socket
        (record { handler = cleanup; content = v } ∷ record { handler = unblock; content = v } ∷ [])
        s
      ≡ none
unfolding run_hooks run_hook
both_hooks-panic socket v s h = ground (arith, h)

-- On a connection that had no handlers before it was registered, two messages from the client that
-- decode to the event `disconnect`: the goroutines that the first one starts run to their ends, and
-- leave the registration's channel closed; those that the second one starts close it again, and one
-- of them panics.
pub disconnect_twice-panics :
    {W : Type 0} (ws : ServerTransport W) (codec : Codec) (m₁ m₂ : Bytes) (v₁ v₂ : Value)
    (socket : Socket) (s : Server W)
    → codec.unmarshal m₁ ≡ some (record { event = event_disconnect; content = v₁ })
    → codec.unmarshal m₂ ≡ some (record { event = event_disconnect; content = v₂ })
    → IsMap s.handlers
    → (s.heap socket.addr).handlers ≡ []
    → let s' = (register_socket socket s).1 in
      let c = s'.heap socket.addr in
      (out : List Task × Server W) × (run_hooks socket
          (receive_one (any_transport ws) codec m₁ c)
          s'
        ≡ some out)
      × (s'.closed_channels socket.addr ≡ false)
      × (out.1.closed_channels socket.addr ≡ true)
      × (run_hooks socket (receive_one (any_transport ws) codec m₂ (out.1.heap socket.addr)) out.1
          ≡ none)
disconnect_twice-panics ws codec m₁ m₂ v₁ v₂ socket s e₁ e₂ d fresh =
    let hooks = handlers_of-register_socket socket s d fresh in
    let s' = (register_socket socket s).1 in
    let open_ : s'.closed_channels socket.addr ≡ false =
      unfold register_socket in ground (arith, ==_iff socket.addr socket.addr) in
    let (out, first, same, shut) = both_hooks-run socket v₁ s' open_ in
    (
      out,
      rw (receive_one-disconnect ws codec m₁ v₁ (s'.heap socket.addr) e₁ hooks) first,
      open_,
      shut,
      rw (same, receive_one-disconnect ws codec m₂ v₂ (s'.heap socket.addr) e₂ hooks)
          (both_hooks-panic socket v₂ out.1 shut),
    )
