-- ===== src/Socket.antt =====
-- socket/socket.go: events, messages and the `Socket` interface, and the two dynamic kinds of value
-- that all packages share, `error` and `interface{}`.
pub mod Impl
use socket_go.Base.{ℕ, String, List}

-- Errors: the variables of socket.go and distributed/node.go, those made on the spot by `errors.New`
-- and `fmt.Errorf`, and those that come out of code which is not part of the repository.
pub data Error : Type 0 where
  connection_closed invalid_message timeout : Error
  process_not_found node_stopped : Error
  text : String → Error
  node_not_found : String → Error  -- `fmt.Errorf("node %s not found in cluster", nodeID)`
  bad_status : String → String → List ℕ → Error  -- `fmt.Errorf`, on a response's status and body
  foreign : ℕ → Error

-- `interface{}`: what the repository itself puts into one, and `opaque` for what callers put there.
mutual
  pub data Value : Type 0 where
    nil : Value
    str : String → Value
    failure : Error → Value
    obj : Fields → Value
    opaque : ℕ → Value

  pub data Fields : Type 0 where
    end : Fields
    field : String → Value → Fields → Fields

abbrev pub Event : Type 0
Event = String

abbrev pub event_connect : Event
event_connect = "connect"

abbrev pub event_disconnect : Event
event_disconnect = "disconnect"

abbrev pub event_error : Event
event_error = "error"

abbrev event_message : Event
event_message = "message"

pub record Message : Type 0 where
  pub event : Event
  pub content : Value

-- A value of the interface `Socket`: a pointer to its implementation, whose `ID()` never changes.
pub record Socket : Type 0 where
  pub id : String
  pub addr : ℕ

-- A Go result `(A, error)` of which one half is meant.
pub data Result {ℓ} (A : Type ℓ) : Type ℓ where
  ok : A → Result A
  err : Error → Result A

-- `[]byte`.
abbrev pub Bytes : Type 0
Bytes = List ℕ
