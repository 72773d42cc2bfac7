-- ===== src/Examples/Servers.antt =====
-- A server with handlers for "news" and "disconnect", and a session of long polling.
use socket_go.Base.{
  arith, leb, ◌≤◌, if◌then◌else◌, true, false, ℕ, ◌≡◌, refl, List, [], ◌∷◌, none, some,
}
use socket_go.Base.Map.{lookup, insert}
use socket_go.Socket.{nil, foreign, Socket, event_disconnect}
use socket_go.Socket.Impl.{Codec, ServerTransport, new_socket, receive_one}
use socket_go.Room.Invariant.{new_room_manager-Inv}
use socket_go.Room.Laws.{member}
use socket_go.Server.{Server, Task, initial_server}
use socket_go.Server.Sockets.{
  any_transport, handle_func, handle_socket, close_socket, register_socket, run_hooks,
}
use socket_go.Server.Hooks.{farewells, close_socket-cleanup, disconnect_twice-panics}
use socket_go.Server.Http.{Request, try_web_socket_upgrade}
use socket_go.Server.Http.Upgrades.{
  Upgrade, arriving, shaking, over, step, run, handshakes, run-limit,
}

-- The transport over WebSocket is a number of messages here.
abbrev counter : ServerTransport ℕ
counter = record { write = λ m n. (none, n); close = λ n. (none, n) }

abbrev codec : Codec
codec = record {
  marshal = λ m. none;
  unmarshal = λ b. some (record { event = event_disconnect; content = nil });
  marshal_error = foreign 0;
}

abbrev server : Server ℕ
server = handle_func "disconnect" 2 (handle_func "news" 1 initial_server)

abbrev ann : Socket
ann = record { id = "ann"; addr = 0 }

close_socket-cleanup_example :
    let (gos, closed) = close_socket counter ann (handle_socket ann server).1 in
    (out : List Task × Server ℕ) × (run_hooks ann gos closed ≡ some out)
    × (lookup "ann" out.1.sockets ≡ none)
    × (member "red" "ann" out.1.room_manager ≡ none)
    × (out.0 ≡ farewells ann nil server)
unfolding handle_func initial_server new_socket lookup insert
close_socket-cleanup_example =
    close_socket-cleanup counter ann "ann" "red" server (refl, (refl, tt)) refl refl
      new_room_manager-Inv

disconnect_twice-panics_example :
    let s' = (register_socket ann server).1 in
    let c = s'.heap 0 in
    (out : List Task × Server ℕ) × (run_hooks ann
        (receive_one (any_transport counter) codec (1 ∷ []) c)
        s'
      ≡ some out)
    × (s'.closed_channels 0 ≡ false)
    × (out.1.closed_channels 0 ≡ true)
    × (run_hooks ann (receive_one (any_transport counter) codec (2 ∷ []) (out.1.heap 0)) out.1
        ≡ none)
unfolding handle_func initial_server new_socket lookup insert
disconnect_twice-panics_example =
    disconnect_twice-panics counter codec (1 ∷ []) (2 ∷ []) nil nil ann server refl refl
      (refl, (refl, tt)) refl

abbrev request : Request ℕ
request = record {
  upgrade = "websocket";
  handshake = some 0;
  path = "/connect";
  session_id = "";
  body = none;
}

-- The same server with a limit of one handshake, and two requests.
abbrev narrow : Server ℕ
narrow = record server { semaphore = some (record { capacity = 1; used = 0 }) }

abbrev requests : List (Upgrade ℕ)
requests = arriving request "ann" ∷ arriving request "bob" ∷ []

run-limit_example :
    let (us, s) = run (0 ∷ 1 ∷ 0 ∷ []) requests narrow in
    let (refused, k, alone) = try_web_socket_upgrade request "eve" s in
    (s.semaphore ≡ some (record { capacity = 1; used = handshakes us }))
    × (handshakes us ≤ 1)
    × ((step (arriving request "eve") s).0
        ≡ (if leb 1 (handshakes us) then over true none else shaking request "eve"))
    × (step (step (arriving request "eve") s).0 (step (arriving request "eve") s).1
        ≡ (over refused k, alone))
run-limit_example =
    run-limit 1 (0 ∷ 1 ∷ 0 ∷ []) requests request "eve" narrow refl (omega arith) refl
