-- ===== src/Node.antt =====
-- socket/distributed/node.go, processes and nodes (lines 33-41, 64-74, 181-288, 519-540, 676-717 and 923-940). A `*Process` is an address in
-- `heap`; contexts are the flags `stopped` (the node's) and `cancelled` (the process's own).
pub mod Invariant
pub mod History
pub mod Registry
pub mod Mailbox
pub mod Subscriptions
pub mod Notify
pub mod Ids
pub mod Registration
use socket_go.Base.{
  ℕ, zero, suc, ◌+◌, String, Bool, true, false, ◌&&◌, ◌||◌, not, List, [], ◌∷◌, ◌++◌, Option, none,
  some, length, ltb, ◌==◌, if◌then◌else◌,
}
use socket_go.Base.Int.{ℤ, pos, negsuc}
use socket_go.Base.Map.{Map, lookup, insert, delete, has}
use socket_go.Socket.{Error, process_not_found, node_stopped, text, Value, Result, ok, err}

pub record Process : Type 0 where
  pub id : String
  pub function : ℕ  -- which of the caller's functions
  pub mailbox : List Value  -- the channel's buffer, oldest first
  pub capacity : ℕ
  pub alive : Bool
  pub cancelled : Bool
  pub running : Bool  -- its goroutine has not returned
  pub handled : List Value  -- the messages that `function` was called with, in order

pub record Node : Type 0 where
  pub processes : Map ℕ
  pub heap : ℕ → Process
  pub next : ℕ
  pub next_process_id : ℕ  -- `atomic.Uint64`
  pub stopped : Bool
  pub name : String
  pub subscriptions : Map (Map Bool)
  pub supervisors : Map (Unit {0})  -- which ids have one

abbrev pub default_mailbox : ℕ
default_mailbox = 100

unfoldable pub new_process : String → ℕ → ℕ → Process
new_process id f size = record {
  id = id;
  function = f;
  mailbox = [];
  capacity = size;
  alive = true;
  cancelled = false;
  running = true;
  handled = [];
}

unfoldable pub new_node : String → Node
unfolding new_process
new_node name = record {
  processes = [];
  heap = λ a. new_process "" 0 0;
  next = 0;
  next_process_id = 0;
  stopped = false;
  name = name;
  subscriptions = [];
  supervisors = [];
}

unfoldable pub update : ℕ → (Process → Process) → Node → Node
update a f n = record n { heap = λ b. if b == a then f (n.heap b) else n.heap b }

-- A new process object, registered under its id in place of whatever stood there.
unfoldable pub install : String → ℕ → ℕ → Node → Node
unfolding new_process
install id f size n = record n {
  processes = insert id n.next n.processes;
  heap = λ b. if b == n.next then new_process id f size else n.heap b;
  next = n.next + 1;
}

unfoldable pub spawn_process_with_id : String → ℕ → Node → Result String × Node
unfolding install
spawn_process_with_id id f n =
    if n.stopped then (err node_stopped, n) else (ok id, install id f default_mailbox n)

pub data Priority : Type 0 where
  low normal high critical : Priority

pub record ProcessOptions : Type 0 where
  pub priority : Priority
  pub mailbox_size : ℤ
  pub capabilities : Map ℤ

unfoldable pub default_process_options : ProcessOptions
default_process_options = record { priority = normal; mailbox_size = pos 100; capabilities = [] }

unfoldable pub mailbox_size_of : ℤ → ℕ
mailbox_size_of (pos zero) = default_mailbox
mailbox_size_of (pos (suc k)) = suc k
mailbox_size_of (negsuc k) = default_mailbox

unfoldable pub spawn_process_with_id_and_options :
    String → ℕ → ProcessOptions → Node → Result String × Node
unfolding install mailbox_size_of
spawn_process_with_id_and_options id f opts n =
    if n.stopped
    then (err node_stopped, n)
    else (ok id, install id f (mailbox_size_of opts.mailbox_size) n)

unfoldable pub push : Value → Process → Process
push m p = record p { mailbox = p.mailbox ++ m ∷ [] }

-- The `select` of `Send`: a full channel takes the default branch.
unfoldable pub offer : ℕ → Value → Node → Option Error × Node
unfolding update push
offer a m n =
    if ltb (length (n.heap a).mailbox) (n.heap a).capacity
    then (none, update a (push m) n)
    else (some (text "mailbox full"), n)

unfoldable pub send : String → Value → Node → Option Error × Node
unfolding offer
send to m n = elim (lookup to n.processes) [
  | none ↦ (some process_not_found, n)
  | some a ↦ if (n.heap a).alive then offer a m n else (some process_not_found, n)
]

unfoldable pub cancel : Process → Process
cancel p = record p { cancelled = true }

unfoldable pub retire : Process → Process
retire p = record p { cancelled = true; alive = false }

unfoldable pub kill : String → Node → Option Error × Node
unfolding update retire
kill id n = elim (lookup id n.processes) [
  | none ↦ (some process_not_found, n)
  | some a ↦ (
    none,
    record (update a retire n) {
      processes = delete id n.processes;
      subscriptions = delete id n.subscriptions;
    },
  )
]

-- The loop of `Stop` over the entries that its `range` meets.
unfoldable pub stop_each : Map ℕ → Node → Node
unfolding update cancel
stop_each [] n = n
stop_each ((id, a) ∷ rest) n =
    let n' = update a cancel n in stop_each rest (record n' { processes = delete id n'.processes })

unfoldable pub stop : Node → Node
unfolding stop_each
stop n = stop_each n.processes (record n { stopped = true })

unfoldable pub subscribe : String → String → Node → Node
subscribe id room n = record n {
  subscriptions =
      insert id
        (elim (lookup id n.subscriptions) [
          | none ↦ insert room true []
          | some rooms ↦ insert room true rooms
        ])
        n.subscriptions;
}

unfoldable pub unsubscribe : String → String → Node → Node
unsubscribe id room n = elim (lookup id n.subscriptions) [
  | none ↦ n
  | some rooms ↦
      let left = delete room rooms in
      record n {
        subscriptions =
            if length left == 0 then delete id n.subscriptions else insert id left n.subscriptions;
      }
]

-- The context of a process is done once it, or the node above it, is cancelled.
unfoldable pub is_done : Process → Node → Bool
is_done p n = p.cancelled || n.stopped

unfoldable pub take_next : List Value → Process → Process
take_next [] p = p
take_next (m ∷ rest) p = record p { mailbox = rest; handled = p.handled ++ m ∷ [] }

-- A round of a process's goroutine that takes `case msg := <-process.mailbox`.
unfoldable pub receive : ℕ → Node → Node
unfolding update take_next
receive a n = if (n.heap a).running then update a (take_next (n.heap a).mailbox) n else n

unfoldable pub halt : Process → Process
halt p = record p { running = false }

-- A round that takes `case <-ctx.Done()`.
unfoldable pub leave : ℕ → Node → Node
unfolding update halt is_done
leave a n = if is_done (n.heap a) n then update a halt n else n

-- `ok` carries the id of the answer; the numbers in it are all zero.
unfoldable get_process_stats : String → Node → Result String
get_process_stats id n = elim (lookup id n.processes) [
  | none ↦ err process_not_found
  | some a ↦ ok id
]
