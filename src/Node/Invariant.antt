-- ===== src/Node/Invariant.antt =====
-- socket/distributed/node.go: the invariant of a node, on ids and pointers, registered processes,
-- mailboxes and subscriptions.
pub mod Topics
use socket_go.Base.{
  ℕ, ap, ◌<◌, ◌≤◌, String, ◌≡◌, refl, inl, inr, Bool, true, false, List, [], ◌∷◌, some, arith,
  length, length-append, ltb, ◌==◌, ==_iff, eq_iff, if_both, Bool-cases, Option-cases,
}
use socket_go.Base.Map.{
  Map, IsMap, lookup, insert, delete, lookup-insert, lookup-delete, insert-IsMap, delete-IsMap,
  length-insert_pos,
}
use socket_go.Socket.{Value, Result}
use socket_go.Node.{
  Process, Node, ProcessOptions, new_node, update, install, spawn_process_with_id,
  spawn_process_with_id_and_options, offer, send, kill, subscribe, unsubscribe, is_done,
  mailbox_size_of, receive, leave, push, take_next, halt, retire,
}

pub record Inv (n : Node) : Type 0 where
  pub fresh : (id : String) (a : ℕ) → lookup id n.processes ≡ some a → a < n.next
  pub named : (id : String) (a : ℕ) → lookup id n.processes ≡ some a → (n.heap a).id ≡ id
  pub live :
      (id : String) (a : ℕ)
      → lookup id n.processes ≡ some a
      → ((n.heap a).alive ≡ true) × ((n.heap a).cancelled ≡ false)
  pub distinct : IsMap n.processes
  pub bounded : (a : ℕ) → length (n.heap a).mailbox ≤ (n.heap a).capacity
  pub topics : IsMap n.subscriptions
  pub nonempty :
      (id : String) (rooms : Map Bool) → lookup id n.subscriptions ≡ some rooms → 0 < length rooms

-- An operation on one process that leaves the registry alone.
abbrev Keeps : Process → Process → Type 0
Keeps p q =
    (q.id ≡ p.id)
    × (q.alive ≡ p.alive)
    × (q.cancelled ≡ p.cancelled)
    × (length q.mailbox ≤ q.capacity)

pub new_node-Inv : (name : String) → Inv (new_node name)
unfolding new_node lookup
new_node-Inv name = record {
  fresh = λ id a h. cc;
  named = λ id a h. cc;
  live = λ id a h. cc;
  distinct = tt;
  bounded = λ a. omega arith;
  topics = tt;
  nonempty = λ id rooms h. cc;
}

pub update-Inv :
    (a : ℕ) (f : Process → Process) {n : Node}
    → Inv n
    → Keeps (n.heap a) (f (n.heap a))
    → Inv (update a f n)
unfolding update
update-Inv a f {n} inv k = record {
  fresh = inv.fresh;
  named = λ id b h. ground (arith, inv.named id b h, ==_iff b a);
  live = λ id b h. ground (arith, inv.live id b h, ==_iff b a);
  distinct = inv.distinct;
  bounded = λ b. ground (arith, inv.bounded b, ==_iff b a);
  topics = inv.topics;
  nonempty = inv.nonempty;
}

pub install-Inv : (id : String) (f size : ℕ) {n : Node} → Inv n → Inv (install id f size n)
unfolding install
install-Inv id f size {n} inv = record {
  fresh = λ j a h. ground (arith, lookup-insert id j n.next n.processes, inv.fresh j a);
  named = λ j a h. ground (
    arith,
    lookup-insert id j n.next n.processes,
    eq_iff id j,
    inv.fresh j a,
    inv.named j a,
    ==_iff a n.next,
  );
  live = λ j a h. ground (
    arith,
    lookup-insert id j n.next n.processes,
    eq_iff id j,
    inv.fresh j a,
    inv.live j a,
    ==_iff a n.next,
  );
  distinct = insert-IsMap id n.next n.processes inv.distinct;
  bounded = λ a. ground (arith, inv.bounded a, ==_iff a n.next);
  topics = inv.topics;
  nonempty = inv.nonempty;
}

pub spawn-Inv : (id : String) (f : ℕ) {n : Node} → Inv n → Inv (spawn_process_with_id id f n).1
unfolding spawn_process_with_id
spawn-Inv id f {n} inv =
    if_both {A = Result String × Node} (λ r. Inv r.1) n.stopped inv (install-Inv id f 100 inv)

pub spawn_with_options-Inv :
    (id : String) (f : ℕ) (opts : ProcessOptions) {n : Node}
    → Inv n
    → Inv (spawn_process_with_id_and_options id f opts n).1
unfolding spawn_process_with_id_and_options
spawn_with_options-Inv id f opts {n} inv =
    if_both {A = Result String × Node} (λ r. Inv r.1) n.stopped inv
      (install-Inv id f (mailbox_size_of opts.mailbox_size) inv)

offer-Inv : (a : ℕ) (m : Value) {n : Node} → Inv n → Inv (offer a m n).1
unfolding offer
offer-Inv a m {n} inv = elim (Bool-cases (ltb (length (n.heap a).mailbox) (n.heap a).capacity)) [
  | inl e ↦ simp e (
      update-Inv a (push m) inv (
        unfold push in
        (refl, refl, refl, ground (arith, length-append (n.heap a).mailbox (m ∷ [])))))
  | inr e ↦ simp e inv
]

pub send-Inv : (to : String) (m : Value) {n : Node} → Inv n → Inv (send to m n).1
unfolding send
send-Inv to m {n} inv = elim (Option-cases (lookup to n.processes)) [
  | inl e ↦ rw (e, send) inv
  | inr (a, e) ↦ rw (e, send, (inv.live to a e).0) (offer-Inv a m inv)
]

-- A process that is killed is no longer registered, so what holds of registered ones still holds.
kill_heap :
    (id : String) (a : ℕ) {n : Node}
    → Inv n
    → lookup id n.processes ≡ some a
    → Inv (record (update a retire n) {
      processes = delete id n.processes;
      subscriptions = delete id n.subscriptions;
    })
unfolding update retire
kill_heap id a {n} inv e = record {
  fresh = λ j b h. ground (arith, lookup-delete id j n.processes, inv.fresh j b);
  named = λ j b h. ground (arith, lookup-delete id j n.processes, inv.named j b, ==_iff b a);
  live = λ j b h. ground (
    arith,
    lookup-delete id j n.processes,
    inv.live j b,
    inv.named j b,
    inv.named id a e,
    eq_iff id j,
    ==_iff b a,
  );
  distinct = delete-IsMap id n.processes inv.distinct;
  bounded = λ b. ground (arith, inv.bounded b, ==_iff b a);
  topics = delete-IsMap id n.subscriptions inv.topics;
  nonempty = λ j rooms h. ground (arith, lookup-delete id j n.subscriptions, inv.nonempty j rooms);
}

pub kill-Inv : (id : String) {n : Node} → Inv n → Inv (kill id n).1
unfolding kill
kill-Inv id {n} inv = elim (Option-cases (lookup id n.processes)) [
  | inl e ↦ rw (e, kill) inv
  | inr (a, e) ↦ rw (e, kill) (kill_heap id a inv e)
]

take_next-Keeps :
    (ms : List Value) (p : Process)
    → p.mailbox ≡ ms
    → length p.mailbox ≤ p.capacity
    → Keeps p (take_next ms p)
unfolding take_next
take_next-Keeps [] p e h = (refl, refl, refl, h)
take_next-Keeps (m ∷ ms) p e h = (refl, refl, refl, omega (arith, ap length e))

pub receive-Inv : (a : ℕ) {n : Node} → Inv n → Inv (receive a n)
unfolding receive
receive-Inv a {n} inv = elim (Bool-cases (n.heap a).running) [
  | inl e ↦ simp e (
      update-Inv a (take_next (n.heap a).mailbox) inv
        (take_next-Keeps _ (n.heap a) refl (inv.bounded a)))
  | inr e ↦ simp e inv
]

pub leave-Inv : (a : ℕ) {n : Node} → Inv n → Inv (leave a n)
unfolding leave
leave-Inv a {n} inv = elim (Bool-cases (is_done (n.heap a) n)) [
  | inl e ↦ rw e (update-Inv a halt inv (unfold halt in (refl, refl, refl, inv.bounded a)))
  | inr e ↦ rw e inv
]
