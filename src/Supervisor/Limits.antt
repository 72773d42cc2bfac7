-- ===== src/Supervisor/Limits.antt =====
-- socket/distributed/node.go, `restartProcess`: the limit on restarts within a window of time.
use socket_go.Base.{
  ℕ, suc, ◌+◌, ◌≤◌, ◌<◌, ◌-◌, String, ◌≡◌, refl, inl, inr, ◌⊎◌, true, false, ◌&&◌, List, [], ◌∷◌,
  none, some, arith, All, is_some, str_eq, eq_iff, if◌then◌else◌, Bool-cases,
}
use socket_go.Base.Int.{pos}
use socket_go.Base.Map.{lookup, lookup-insert, insert}
use socket_go.Node.{Node, update, cancel, install}
use socket_go.Supervisor.{
  Supervisor, RestartTracker, restart_process, replace, is_exhausted, tracker_at, track,
}
use socket_go.Supervisor.Restart.{permits, restart_process-spec}

-- How many process objects the node makes for `id` while these restarts are asked for, each at its
-- time: a restart that is carried out takes one new address on the node.
unfoldable pub count_restarts : String → List (ℕ × String) → Supervisor × Node → ℕ
count_restarts id [] sn = 0
count_restarts id ((now, j) ∷ calls) sn =
    let sn' = restart_process now j sn in
    (if str_eq j id then sn'.1.next - sn.1.next else 0) + count_restarts id calls sn'

-- A restart makes one object where the limit permits it, and none otherwise.
next-restart_process :
    (now : ℕ) (j : String) (s : Supervisor) (n : Node)
    → (restart_process now j (s, n)).1.next ≡ n.next + (if is_some (permits now j s) then 1 else 0)
unfolding restart_process replace install update cancel track
next-restart_process now j s n = ground arith

-- What is known of the tracker after `c` restarts in the window that begins at `from`.
abbrev Tracked : String → ℕ → ℕ → Supervisor → Type 0
Tracked id from c s =
    (c ≡ 0)
    ⊎ ((t : RestartTracker) × (lookup id s.restarts ≡ some t)
        × (c ≤ t.count)
        × (from ≤ t.last_time))

-- The tracker that a restart leaves.
restart_process-tracker :
    (now : ℕ) (id j : String) (s : Supervisor) (n : Node)
    → lookup id (restart_process now j (s, n)).0.restarts ≡ (
        if str_eq j id
        then elim (permits now j s) [
          | none ↦ some (tracker_at j now s)
          | some p ↦ some (record { count = (tracker_at j now s).count + 1; last_time = now })
        ]
        else lookup id s.restarts)
unfolding restart_process track
restart_process-tracker now id j s n = ground (
  arith,
  eq_iff j id,
  lookup-insert j id (tracker_at j now s) s.restarts,
  lookup-insert j id (record { count = (tracker_at j now s).count + 1; last_time = now })
      (insert j (tracker_at j now s) s.restarts),
)

-- A restart that is refused for `id`, or is another's.
restart_process-refused :
    (now from m c : ℕ) (id j : String) (s : Supervisor) (n : Node)
    → now ≤ from + s.restart_period
    → (str_eq j id && is_some (permits now j s)) ≡ false
    → Tracked id from c s
    → Tracked id from c (restart_process now j (s, n)).0
restart_process-refused now from m c id j s n late e (inl z) = inl z
restart_process-refused now from m c id j s n late e (inr (t, here, many, recent)) = inr (
  t,
  unfold tracker_at in ground (arith, restart_process-tracker now id j s n, eq_iff j id),
  many,
  recent,
)

restart_process-granted :
    (now from m c : ℕ) (id j : String) (s : Supervisor) (n : Node)
    → s.max_restarts ≡ pos (suc m)
    → from ≤ now
    → now ≤ from + s.restart_period
    → (str_eq j id && is_some (permits now j s)) ≡ true
    → Tracked id from c s
    → (c < suc m) × Tracked id from (c + 1) (restart_process now j (s, n)).0
unfolding is_exhausted tracker_at
restart_process-granted now from m c id j s n e early late g (inl z) = (
  omega arith,
  inr (
    record { count = (tracker_at id now s).count + 1; last_time = now },
    ground (arith, restart_process-tracker now id j s n, eq_iff j id),
    omega arith,
    early,
  ),
)
restart_process-granted now from m c id j s n e early late g (inr (t, here, many, recent)) = (
  ground (arith, e, eq_iff j id),
  inr (
    record { count = (tracker_at id now s).count + 1; last_time = now },
    ground (arith, restart_process-tracker now id j s n, eq_iff j id),
    ground arith,
    early,
  ),
)

-- The restarts that are still to come, given `c` before them in the window.
window_bound :
    (from period m c : ℕ) (id : String) (calls : List (ℕ × String)) (s : Supervisor) (n : Node)
    → s.max_restarts ≡ pos (suc m)
    → s.restart_period ≡ period
    → All (λ call. (from ≤ call.0) × (call.0 ≤ from + period)) calls
    → c ≤ suc m
    → Tracked id from c s
    → c + count_restarts id calls (s, n) ≤ suc m
unfolding count_restarts
window_bound from period m c id [] s n e p w h known = omega arith
window_bound from period m c id ((now, j) ∷ calls) s n e p w h known =
    let r = restart_process now j (s, n) in
    let same : r.0.spec ≡ s.spec = restart_process-spec now j s n in
    let limit : r.0.max_restarts ≡ pos (suc m) = rw same e in
    let span : r.0.restart_period ≡ period = rw same p in
    let late : now ≤ from + s.restart_period = omega (arith, w.0.1, p) in
    elim (Bool-cases (str_eq j id && is_some (permits now j s))) [
      | inr refused ↦
          (ground (
            arith,
            refused,
            next-restart_process now j s n,
            window_bound from period m c id calls r.0 r.1 limit span w.1 h
                (restart_process-refused now from m c id j s n late refused known),
          ))
      | inl granted ↦
          let next = restart_process-granted now from m c id j s n e w.0.0 late granted known in
          (ground (
            arith,
            granted,
            next-restart_process now j s n,
            window_bound from period m (c + 1) id calls r.0 r.1 limit span w.1
                (omega (arith, next.0)) next.1,
          ))
    ]

-- With a positive `MaxRestarts`, and restarts asked for at times within one window no longer than
-- `RestartPeriod`: at most `MaxRestarts` new processes are made for an id, however many restarts are
-- asked for and whatever else is restarted in between.
pub count_restarts-le :
    (from m : ℕ) (id : String) (calls : List (ℕ × String)) (s : Supervisor) (n : Node)
    → s.max_restarts ≡ pos (suc m)
    → All (λ call. (from ≤ call.0) × (call.0 ≤ from + s.restart_period)) calls
    → count_restarts id calls (s, n) ≤ suc m
count_restarts-le from m id calls s n e w =
    omega
      (arith, window_bound from s.restart_period m 0 id calls s n e refl w (omega arith) (inl refl))
