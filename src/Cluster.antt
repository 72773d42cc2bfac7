-- ===== src/Cluster.antt =====
-- socket/distributed/node.go, the cluster (lines 493-669 and 719-795). Times are numbers of
-- nanoseconds since a fixed moment; `discoverNode`, the heartbeat, the gossip and the load update do
-- nothing but print. The loads are floating-point numbers that nothing reads, and are left out.
pub mod Membership
pub mod Heartbeat
use socket_go.Base.{
  ℕ, ◌+◌, ◌*◌, String, Bool, true, false, List, [], ◌∷◌, ◌++◌, Option, none, some, ltb,
  if◌then◌else◌,
}
use socket_go.Base.Int.{ℤ}
use socket_go.Base.Map.{Map, lookup, insert, delete, has, keys}
use socket_go.Socket.{Error, node_not_found, Value, Result, ok, err}
use socket_go.Node.{Node}
use socket_go.Supervisor.{Strategy, ProcessSpec, SupervisorSpec, new_supervisor}

pub record ClusterNode : Type 0 where
  pub id : String
  pub address : String
  pub last_seen : ℕ
  pub capabilities : Map ℤ

pub record ClusterConfig : Type 0 where
  pub discovery_addresses : List String
  pub heartbeat_interval : ℕ
  pub gossip_interval : ℕ
  pub node_capabilities : Map ℤ

pub record Cluster : Type 0 where
  pub local_node : Node
  pub remote_nodes : Map ClusterNode
  pub config : ClusterConfig

unfoldable pub new_cluster : Node → ClusterConfig → Cluster
new_cluster n config = record { local_node = n; remote_nodes = []; config = config }

-- `lastSeen.Before(threshold)`, with the three intervals on the other side.
unfoldable pub is_stale : ℕ → ClusterConfig → ClusterNode → Bool
is_stale now config node = ltb (node.last_seen + 3 * config.heartbeat_interval) now

-- The loop of `checkNodeLiveness` over the entries that its `range` meets.
unfoldable pub drop_stale : ℕ → ClusterConfig → Map ClusterNode → Map ClusterNode → Map ClusterNode
unfolding is_stale
drop_stale now config [] remote = remote
drop_stale now config ((id, node) ∷ rest) remote =
    drop_stale now config rest (if is_stale now config node then delete id remote else remote)

unfoldable pub check_node_liveness : ℕ → Cluster → Cluster
unfolding drop_stale
check_node_liveness now c = record c {
  remote_nodes = drop_stale now c.config c.remote_nodes c.remote_nodes;
}

-- The call that is announced is not made.
unfoldable pub remote_call : String → String → Value → Cluster → Option Error
remote_call node_id to m c =
    if has node_id c.remote_nodes then none else some (node_not_found node_id)

-- The goroutines of `BroadcastMessage` run each at a time of its own: `at id` is the cluster that the
-- one for `id` meets.
unfoldable pub collect : List String → String → Value → (String → Cluster) → Map Error
unfolding remote_call
collect [] to m at = []
collect (id ∷ ids) to m at =
    let rest = collect ids to m at in
    elim (remote_call id to m (at id)) [ none ↦ rest | some e ↦ insert id e rest ]

unfoldable pub broadcast_message : String → Value → Cluster → (String → Cluster) → Map Error
unfolding collect
broadcast_message to m c at = collect (keys c.remote_nodes) to m at

pub record DistributedSupervisorSpec : Type 0 where
  pub local : SupervisorSpec  -- the five fields that `localSpec` copies
  pub remote_processes : Map (List ProcessSpec)

unfoldable check_remotes : List String → Cluster → Option Error
check_remotes [] c = none
check_remotes (id ∷ ids) c =
    if has id c.remote_nodes then check_remotes ids c else some (node_not_found id)

unfoldable new_distributed_supervisor : DistributedSupervisorSpec → Cluster → Option Error × Cluster
unfolding check_remotes
new_distributed_supervisor spec c =
    let (r, n) = new_supervisor spec.local c.local_node in
    let c' = record c { local_node = n } in
    elim r [ err e ↦ (some e, c') | ok s ↦ (check_remotes (keys spec.remote_processes) c', c') ]
