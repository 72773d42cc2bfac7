-- ===== src/Client.antt =====
-- socket/client.go. Each method is run by one goroutine from its first statement to its last: it
-- returns, it waits for a lock that nobody else holds, or the runtime ends the program. What is left
-- of a method behind a lock is its continuation.
pub mod Methods
pub mod Locking
pub mod Batching
pub mod Reconnect
pub mod Loops
use socket_go.Base.{
  ℕ, ◌+◌, ◌-◌, String, Bool, true, false, ◌||◌, not, List, [], ◌∷◌, ◌++◌, Option, none, some, ◌==◌,
  ltb, length, if◌then◌else◌,
}
use socket_go.Base.Int.{ℤ, pos, ltb_ℤ}
use socket_go.Base.Map.{Map, lookup, insert, delete, has, keys}
use socket_go.Socket.{
  Error, connection_closed, text, Value, str, failure, Event, event_disconnect, Message,
}
use socket_go.Socket.Impl.{Go, or_empty, go_all}

-- `sync.RWMutex`, as one goroutine sees it.
pub record Mutex : Type 0 where
  pub writer : Bool
  pub readers : ℕ

-- The methods of `Transport` that these functions call.
pub record ClientTransport (T : Type 0) : Type 0 where
  pub connect : T → Option Error × T
  pub close : T → Option Error × T

pub record Client (T : Type 0) : Type 0 where
  pub mutex : Mutex
  pub id : String
  pub conn : T
  pub handlers : Map (List ℕ)  -- which of the caller's functions
  pub rooms : Map Bool
  pub connected : Bool
  pub send_ch : List Message  -- the channels' buffers, oldest first
  pub message_buffer_ch : List Message
  pub batch_size : ℤ
  pub batch_interval : ℕ
  pub compression_enabled : Bool
  pub reconnect_delay : ℕ
  pub max_reconnect_delay : ℕ
  pub reconnect_attempts : ℤ
  pub cancelled : Bool
  pub loops : ℕ  -- how often `Connect` has started its three loops

pub data ClientOption : Type 0 where
  with_reconnect_delay with_max_reconnect_delay : ℕ → ClientOption
  with_reconnect_attempts : ℤ → ClientOption
  with_batch_send : ℤ → ℕ → ClientOption
  with_client_compression : Bool → ClientOption

-- `fatal`: an unlock of a lock that is not held.
pub data Run (T A : Type 0) : Type 0 where
  done : A → Client T → Run T A
  waits : Run T A
  fatal : Run T A

module _ {T : Type 0} where
  unfoldable pub apply_option : ClientOption → Client T → Client T
  apply_option (with_reconnect_delay d) c = record c { reconnect_delay = d }
  apply_option (with_max_reconnect_delay d) c = record c { max_reconnect_delay = d }
  apply_option (with_reconnect_attempts n) c = record c { reconnect_attempts = n }
  apply_option (with_batch_send n d) c = record c { batch_size = n; batch_interval = d }
  apply_option (with_client_compression b) c = record c { compression_enabled = b }

  unfoldable pub apply_options : List ClientOption → Client T → Client T
  unfolding apply_option
  apply_options [] c = c
  apply_options (o ∷ os) c = apply_options os (apply_option o c)

  -- `id` is what `generateID` gives.
  unfoldable pub new_client : String → T → List ClientOption → Client T
  unfolding apply_options
  new_client id t os = apply_options os (record {
    mutex = record { writer = false; readers = 0 };
    id = id;
    conn = t;
    handlers = [];
    rooms = [];
    connected = false;
    send_ch = [];
    message_buffer_ch = [];
    batch_size = pos 10;
    batch_interval = 50_000_000;
    compression_enabled = false;
    reconnect_delay = 1_000_000_000;
    max_reconnect_delay = 30_000_000_000;
    reconnect_attempts = pos 5;
    cancelled = false;
    loops = 0;
  })

module _ {T A : Type 0} where
  unfoldable pub lock : (Client T → Run T A) → Client T → Run T A
  lock k c =
      if c.mutex.writer || not (c.mutex.readers == 0)
      then waits
      else k (record c { mutex = record { writer = true; readers = 0 } })

  unfoldable pub unlock : (Client T → Run T A) → Client T → Run T A
  unlock k c =
      if c.mutex.writer
      then k (record c { mutex = record { writer = false; readers = c.mutex.readers } })
      else fatal

  unfoldable pub r_lock : (Client T → Run T A) → Client T → Run T A
  r_lock k c =
      if c.mutex.writer
      then waits
      else k (record c { mutex = record { writer = false; readers = c.mutex.readers + 1 } })

  unfoldable pub r_unlock : (Client T → Run T A) → Client T → Run T A
  r_unlock k c =
      if c.mutex.readers == 0
      then fatal
      else k
          (record c { mutex = record { writer = c.mutex.writer; readers = c.mutex.readers - 1 } })
