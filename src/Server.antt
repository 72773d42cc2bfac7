-- ===== src/Server.antt =====
-- socket/server.go: the server's state and its options (lines 15-61 and 80-111). The connections' objects live in
-- `heap`, so that a session and a room see the same object; a goroutine that a call starts is an entry
-- of the list of tasks that it returns.
pub mod Sockets
pub mod Hooks
pub mod Membership
pub mod Shutdown
pub mod Sessions
pub mod Http
use socket_go.Base.{ℕ, String, Bool, false, List, [], ◌∷◌, Option, none, some, if◌then◌else◌}
use socket_go.Base.Int.{ℤ, pos, negsuc, ltb_ℤ}
use socket_go.Base.Map.{Map}
use socket_go.Socket.{Value, Socket, Event}
use socket_go.Socket.Impl.{SocketImpl, new_socket}
use socket_go.Room.{RoomManager, new_room_manager}
use socket_go.LongPolling.{Transport}
use socket_go.LongPolling

-- The closures that the server registers on a connection.
pub data Hook : Type 0 where
  relay : Event → Hook  -- `handleSocket`, for one event
  cleanup : Hook  -- `handleSocket`, on disconnect
  unblock : Hook  -- `registerSocketAndWaitForDisconnect`, on disconnect

pub record LongPollingSession : Type 0 where
  pub id : String
  pub socket : Socket  -- `SocketImpl`; `Transport` is the transport of that object

-- The two implementations of a server transport; that over WebSocket is a parameter.
pub data AnyTransport (W : Type 0) : Type 0 where
  long_polling : Transport → AnyTransport W
  web_socket : W → AnyTransport W

-- The server's side of a connection, with the server's own closures for handlers.
abbrev pub Connection : Type 0 → Type 0
Connection W = SocketImpl Hook (AnyTransport W)

pub record Semaphore : Type 0 where
  pub capacity : ℕ
  pub used : ℕ

pub record Server (W : Type 0) : Type 0 where
  pub sockets : Map Socket
  pub handlers : Map (List ℕ)  -- which of the caller's functions, in the order of registration
  pub sessions : Map LongPollingSession
  pub room_manager : RoomManager
  pub ping_interval : ℕ
  pub ping_timeout : ℕ
  pub max_concurrency : ℤ
  pub semaphore : Option Semaphore
  pub compression_enabled : Bool
  pub buffer_size : ℤ
  pub heap : ℕ → Connection W
  pub next : ℕ
  pub closed_channels : ℕ → Bool  -- `disconnectChan`, by the connection that it is made for

pub data ServerOption : Type 0 where
  with_ping_interval with_ping_timeout : ℕ → ServerOption
  with_max_concurrency : ℤ → ServerOption
  with_compression : Bool → ServerOption
  with_buffer_size : ℤ → ServerOption

-- A goroutine that runs one of the caller's handlers.
pub record Task : Type 0 where
  pub function : ℕ
  pub socket : Socket
  pub content : Value

-- `make(chan struct{}, n)`: `none` is the panic on a negative size.
unfoldable make_semaphore : ℤ → Option Semaphore
make_semaphore (pos n) = some (record { capacity = n; used = 0 })
make_semaphore (negsuc n) = none

module _ {W : Type 0} where
  unfoldable pub apply_option : ServerOption → Server W → Option (Server W)
  unfolding make_semaphore
  apply_option (with_ping_interval d) s = some (record s { ping_interval = d })
  apply_option (with_ping_timeout d) s = some (record s { ping_timeout = d })
  apply_option (with_max_concurrency n) s = elim (make_semaphore n) [
    | none ↦ none
    | some sem ↦ some (record s { max_concurrency = n; semaphore = some sem })
  ]
  apply_option (with_compression b) s = some (record s { compression_enabled = b })
  apply_option (with_buffer_size n) s = some (record s { buffer_size = n })

  unfoldable pub apply_options : List ServerOption → Server W → Option (Server W)
  apply_options [] s = some s
  apply_options (o ∷ os) s = elim (apply_option o s) [ none ↦ none | some s' ↦ apply_options os s' ]

  unfoldable pub initial_server : Server W
  unfolding new_room_manager new_socket
  initial_server = record {
    sockets = [];
    handlers = [];
    sessions = [];
    room_manager = new_room_manager;
    ping_interval = 25_000_000_000;
    ping_timeout = 5_000_000_000;
    max_concurrency = pos 100;
    semaphore = none;
    compression_enabled = false;
    buffer_size = pos 1024;
    heap = λ a.
        new_socket "" (long_polling (LongPolling.new_transport "" (LongPolling.default_config) 0));
    next = 0;
    closed_channels = λ a. false;
  }

  -- The semaphore of the default limit, where no option has made one.
  unfoldable ensure_semaphore : Server W → Server W
  ensure_semaphore s = elim s.semaphore [
    | some sem ↦ s
    | none ↦
        if ltb_ℤ (pos 0) s.max_concurrency
        then record s { semaphore = make_semaphore s.max_concurrency }
        else s
  ]

  -- `none` is a panic.
  unfoldable new_server : List ServerOption → Option (Server W)
  unfolding apply_options initial_server ensure_semaphore
  new_server os = elim (apply_options os initial_server) [
    | none ↦ none
    | some s ↦ some (ensure_semaphore s)
  ]
