-- ===== src/LongPolling.antt =====
-- socket/transport/server_transport.go, the long-polling transport (lines 161-281). The clock is an
-- argument; `incomingMessages` is a channel, and a receive from it that finds nothing waits.
pub mod Delivery
pub mod Expiry
pub mod Messages
use socket_go.Base.{
  ℕ, ◌+◌, ◌-◌, String, Bool, true, false, List, [], ◌∷◌, ◌++◌, Option, none, some, length, ltb,
  if◌then◌else◌,
}
use socket_go.Socket.{Error, Bytes}

pub record Config : Type 0 where
  pub disconnect_timeout : ℕ
  pub buffer_size : ℕ

-- 60 s, in nanoseconds.
unfoldable pub default_config : Config
default_config = record { disconnect_timeout = 60_000_000_000; buffer_size = 100 }

pub record Transport : Type 0 where
  pub id : String
  pub pending_messages : List Bytes
  pub incoming_messages : List Bytes  -- the channel's buffer, oldest first
  pub capacity : ℕ
  pub last_activity : ℕ
  pub closed : Bool
  pub disconnect_timeout : ℕ

unfoldable pub new_transport : String → Config → ℕ → Transport
new_transport id config now = record {
  id = id;
  pending_messages = [];
  incoming_messages = [];
  capacity = config.buffer_size;
  last_activity = now;
  closed = false;
  disconnect_timeout = config.disconnect_timeout;
}

-- `none` is a read that waits; a close does not end it.
unfoldable pub read : Transport → Option (Bytes × Transport)
read t = elim t.incoming_messages [
  | [] ↦ none
  | m ∷ rest ↦ some (m, record t { incoming_messages = rest })
]

unfoldable pub write : Bytes → Transport → Option Error × Transport
write m t =
    if t.closed
    then (none, t)
    else (none, record t { pending_messages = t.pending_messages ++ m ∷ [] })

unfoldable pub close : Transport → Option Error × Transport
close t = (none, record t { closed = true })

pub data Response : Type 0 where
  messages : List Bytes → Response  -- 200, with the messages as JSON
  accepted : Response  -- 200
  gone : Response  -- 410
  bad_request : Response  -- 400
  unavailable : Response  -- 503
  not_found : Response  -- 404

unfoldable pub handle_poll : ℕ → Transport → Response × Transport
handle_poll now t =
    if t.closed
    then (gone, t)
    else (messages t.pending_messages, record t { last_activity = now; pending_messages = [] })

-- `body` is what reading the request's body gives.
unfoldable pub handle_send : ℕ → Option Bytes → Transport → Response × Transport
handle_send now body t =
    if t.closed
    then (gone, t)
    else (let t' = record t { last_activity = now } in
        elim body [
          | none ↦ (bad_request, t')
          | some m ↦
              if ltb (length t.incoming_messages) t.capacity
              then (accepted, record t' { incoming_messages = t.incoming_messages ++ m ∷ [] })
              else (unavailable, t')
        ])

unfoldable pub is_expired : ℕ → Transport → Bool
is_expired now t = if t.closed then true else ltb t.disconnect_timeout (now - t.last_activity)
