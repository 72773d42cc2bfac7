-- ===== src/Supervisor/Restart.antt =====
-- socket/distributed/node.go, `restartProcess`: which process a restart replaces, and when it is
-- refused.
use socket_go.Base.{
  ℕ, String, ◌≡◌, inl, inr, Option, none, some, arith, str_eq, ==_iff, eq_iff, if◌then◌else◌,
  Option-cases,
}
use socket_go.Base.Map.{lookup, delete, lookup-insert, lookup-delete, delete-IsMap}
use socket_go.Node.{Node, update, cancel, install, new_process}
use socket_go.Node.Invariant.{Inv, install-Inv}
use socket_go.Node.Registry.{find}
use socket_go.Supervisor.{
  Supervisor, ProcessSpec, replace, restart_process, tracker_at, is_exhausted, track, find_spec,
}

drop-Inv :
    (id : String) (a : ℕ) {n : Node}
    → Inv n
    → lookup id n.processes ≡ some a
    → Inv (record (update a cancel n) { processes = delete id n.processes })
unfolding update cancel
drop-Inv id a {n} inv e = record {
  fresh = λ j b h. ground (arith, lookup-delete id j n.processes, inv.fresh j b);
  named = λ j b h. ground (arith, lookup-delete id j n.processes, inv.named j b, ==_iff b a);
  live = λ j b h. ground (
    arith,
    lookup-delete id j n.processes,
    inv.live j b,
    inv.named j b,
    inv.named id a e,
    eq_iff id j,
    ==_iff b a,
  );
  distinct = delete-IsMap id n.processes inv.distinct;
  bounded = λ b. ground (arith, inv.bounded b, ==_iff b a);
  topics = inv.topics;
  nonempty = inv.nonempty;
}

replace-Inv : (id : String) (f : ℕ) {n : Node} → Inv n → Inv (replace id f n)
unfolding replace update
replace-Inv id f {n} inv = elim (Option-cases (lookup id n.processes)) [
  | inl e ↦ rw (e, replace) (install-Inv id f 100 inv)
  | inr (a, e) ↦ rw (e, replace) (install-Inv id f 100 (drop-Inv id a inv e))
]

-- The id leads to a new process, and every other id to the process that it led to before.
pub find-replace :
    (id j : String) (f : ℕ) {n : Node}
    → Inv n
    → find j (replace id f n) ≡ (if str_eq id j then some (new_process id f 100) else find j n)
unfolding find replace install update cancel
find-replace id j f {n} inv = elim (Option-cases (lookup j n.processes)) [
  | inl h ↦ ground (
    arith,
    eq_iff id j,
    lookup-insert id j n.next n.processes,
    lookup-insert id j n.next (delete id n.processes),
    lookup-delete id j n.processes,
  )
  | inr (b, h) ↦ elim (Option-cases (lookup id n.processes)) [
    | inl e ↦ ground (
      arith,
      eq_iff id j,
      lookup-insert id j n.next n.processes,
      inv.fresh j b h,
      ==_iff b n.next,
    )
    | inr (a, e) ↦ ground (
      arith,
      eq_iff id j,
      lookup-insert id j n.next (delete id n.processes),
      lookup-delete id j n.processes,
      inv.fresh j b h,
      inv.named j b h,
      inv.named id a e,
      ==_iff b n.next,
      ==_iff b a,
    )
  ]
]

-- Whether a restart of `id` would go through: its tracker allows it, and it is supervised.
abbrev pub permits : ℕ → String → Supervisor → Option ProcessSpec
permits now id s = if is_exhausted (tracker_at id now s) s then none else find_spec id s.processes

pub restart_process-node :
    (now : ℕ) (id : String) (s : Supervisor) (n : Node)
    → (restart_process now id (s, n)).1
      ≡ elim (permits now id s) [ none ↦ n | some p ↦ replace id p.function n ]
unfolding restart_process
restart_process-node now id s n = ground arith

pub restart_process-spec :
    (now : ℕ) (id : String) (s : Supervisor) (n : Node)
    → (restart_process now id (s, n)).0.spec ≡ s.spec
unfolding restart_process track
restart_process-spec now id s n = ground arith

pub restart_process-Inv :
    (now : ℕ) (id : String) (s : Supervisor) {n : Node}
    → Inv n
    → Inv (restart_process now id (s, n)).1
restart_process-Inv now id s {n} inv = rw (restart_process-node now id s n) (go (permits now id s))
  where
    go : (o : Option ProcessSpec) → Inv (elim o [ none ↦ n | some p ↦ replace id p.function n ])
    go none = inv
    go (some p) = replace-Inv id p.function inv
