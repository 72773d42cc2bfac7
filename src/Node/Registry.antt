-- ===== src/Node/Registry.antt =====
-- socket/distributed/node.go: the node as a map from ids to processes, and what each call does to
-- it.
pub mod Refinement
use socket_go.Base.{
  ℕ, ◌≤◌, String, ◌≡◌, inl, inr, ◌⊎◌, true, false, Option, none, some, arith, length, ltb, str_eq,
  ==_iff, eq_iff, if◌then◌else◌, Option-cases, is_some,
}
use socket_go.Base.Map.{lookup, lookup-insert, lookup-delete}
use socket_go.Socket.{Value, ok, err, Error, process_not_found, node_stopped, text}
use socket_go.Node.{
  Process, Node, ProcessOptions, new_process, update, install, spawn_process_with_id,
  spawn_process_with_id_and_options, mailbox_size_of, push, send, kill, retire, stop,
}
use socket_go.Node.Invariant.{Inv}
use socket_go.Node.History.{lookup-stop, stop-stopped}

unfoldable pub find : String → Node → Option Process
find id n = elim (lookup id n.processes) [ none ↦ none | some a ↦ some (n.heap a) ]

pub find-none : (id : String) (n : Node) → lookup id n.processes ≡ none → find id n ≡ none
unfolding find
find-none id n e = rw (e, find)

pub find-some :
    (id : String) (n : Node) {a : ℕ} → lookup id n.processes ≡ some a → find id n ≡ some (n.heap a)
unfolding find
find-some id n e = rw (e, find)

-- A registered process is alive and has not been cancelled.
find-live :
    (id : String) {n : Node} {p : Process}
    → Inv n
    → find id n ≡ some p
    → (p.alive ≡ true) × (p.cancelled ≡ false) × (p.id ≡ id) × (length p.mailbox ≤ p.capacity)
unfolding find
find-live id {n} inv h = elim (Option-cases (lookup id n.processes)) [
  | inl e ↦ absurd (ground arith)
  | inr (a, e) ↦ ground (arith, inv.live id a e, inv.named id a e, inv.bounded a)
]

find-install :
    (id j : String) (f size : ℕ) {n : Node}
    → Inv n
    → find j (install id f size n)
      ≡ (if str_eq id j then some (new_process id f size) else find j n)
unfolding find install
find-install id j f size {n} inv = elim (Option-cases (lookup j n.processes)) [
  | inl e ↦ ground (arith, lookup-insert id j n.next n.processes)
  | inr (a, e) ↦
      ground (arith, lookup-insert id j n.next n.processes, inv.fresh j a e, ==_iff a n.next)
]

pub find-update :
    (id j : String) (a : ℕ) (f : Process → Process) {n : Node}
    → Inv n
    → lookup id n.processes ≡ some a
    → find j (update a f n) ≡ (if str_eq id j then some (f (n.heap a)) else find j n)
unfolding find update
find-update id j a f {n} inv e = elim (Option-cases (lookup j n.processes)) [
  | inl h ↦ ground (arith, eq_iff id j)
  | inr (b, h) ↦ ground (arith, eq_iff id j, inv.named id a e, inv.named j b h, ==_iff b a)
]

-- On a node that satisfies its invariant and has not been stopped, a spawn registers a new process
-- under its id, in place of any other of that id; on a stopped node it fails and registers nothing.
pub find-spawn :
    (id j : String) (f : ℕ) (opts : ProcessOptions) {n : Node}
    → Inv n
    → let plain = spawn_process_with_id id f n in
      let sized = spawn_process_with_id_and_options id f opts n in
      (plain.0 ≡ (if n.stopped then err node_stopped else ok id))
      × (sized.0 ≡ plain.0)
      × (find j plain.1 ≡ (
          if n.stopped
          then find j n
          else if str_eq id j
          then some (new_process id f 100)
          else find j n))
      × (find j sized.1 ≡ (
          if n.stopped
          then find j n
          else if str_eq id j
          then some (new_process id f (mailbox_size_of opts.mailbox_size))
          else find j n))
unfolding spawn_process_with_id spawn_process_with_id_and_options
find-spawn id j f opts {n} inv = ground (
  arith,
  find-install id j f 100 inv,
  find-install id j f (mailbox_size_of opts.mailbox_size) inv,
)

-- What a send should answer, and make of the process with that id.
abbrev pub send_error : Option Process → Option Error
send_error none = some process_not_found
send_error (some p) = if ltb (length p.mailbox) p.capacity then none else some (text "mailbox full")

abbrev pub after_send : Value → Option Process → Option Process
after_send m none = none
after_send m (some p) = some (if ltb (length p.mailbox) p.capacity then push m p else p)

-- On a node that satisfies its invariant, `Send` on every branch: the error says whether there is
-- no such process or no room in its mailbox; the message goes to the end of that mailbox and
-- nowhere else; a send that fails changes nothing.
pub find-send :
    (to j : String) (m : Value) {n : Node}
    → Inv n
    → let (e, n') = send to m n in
      (e ≡ send_error (find to n))
      × (find j n' ≡ (if str_eq to j then after_send m (find to n) else find j n))
      × ((e ≡ none) ⊎ (n' ≡ n))
unfolding send find
find-send to j m {n} inv = elim (Option-cases (lookup to n.processes)) [
  | inl e ↦ ground (arith, eq_iff to j)
  | inr (a, e) ↦ ground (arith, inv.live to a e, eq_iff to j, find-update to j a (push m) inv e)
]

-- `Kill` fails on an unknown id, and otherwise takes that process out and no other.
pub find-kill :
    (id j : String) {n : Node}
    → Inv n
    → let (e, n') = kill id n in
      (e ≡ (if is_some (find id n) then none else some process_not_found))
      × (find j n' ≡ (if str_eq id j then none else find j n))
unfolding kill find update retire
find-kill id j {n} inv = elim (Option-cases (lookup id n.processes)) [
  | inl e ↦ ground (arith, eq_iff id j)
  | inr (a, e) ↦ elim (Option-cases (lookup j n.processes)) [
    | inl h ↦ ground (arith, eq_iff id j, lookup-delete id j n.processes)
    | inr (b, h) ↦ ground (
      arith,
      eq_iff id j,
      lookup-delete id j n.processes,
      inv.named id a e,
      inv.named j b h,
      ==_iff b a,
    )
  ]
]

pub find-stop : (id : String) {n : Node} → Inv n → find id (stop n) ≡ none
find-stop id {n} inv = find-none id (stop n) (lookup-stop id inv)

-- After a `Stop` of a node that satisfies its invariant nobody is registered, and no spawn, send or
-- kill succeeds any more.
stopped_refuses :
    (id : String) (f : ℕ) (m : Value) {n : Node}
    → Inv n
    → (find id (stop n) ≡ none)
      × ((spawn_process_with_id id f (stop n)).0 ≡ err node_stopped)
      × ((send id m (stop n)).0 ≡ some process_not_found)
      × ((kill id (stop n)).0 ≡ some process_not_found)
unfolding find spawn_process_with_id send kill
stopped_refuses id f m {n} inv = ground (arith, lookup-stop id inv, stop-stopped n)
