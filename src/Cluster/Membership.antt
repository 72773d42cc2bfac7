-- ===== src/Cluster/Membership.antt =====
-- socket/distributed/node.go: who is in the cluster, and what a call to one that is not answers.
use socket_go.Base.{
  ℕ, String, ◌≡◌, refl, inl, inr, not, ◌&&◌, List, [], ◌∷◌, Option, none, some, arith, eq_iff,
  if◌then◌else◌, Bool-cases, Option-cases,
}
use socket_go.Base.Map.{
  Map, IsMap, lookup, lookup-insert, lookup-delete, delete, has, keys, mem, mem-keys,
}
use socket_go.Socket.{node_not_found, Value}
use socket_go.Cluster.{
  Cluster, ClusterNode, ClusterConfig, is_stale, drop_stale, check_node_liveness, remote_call,
  collect, broadcast_message,
}

-- What a check makes of one node's entry.
abbrev pub survives : ℕ → ClusterConfig → Option ClusterNode → Option ClusterNode
survives now config none = none
survives now config (some node) = if is_stale now config node then none else some node

lookup-drop_stale :
    (now : ℕ) (config : ClusterConfig) (id : String) (todo remote : Map ClusterNode)
    → IsMap todo
    → lookup id (drop_stale now config todo remote) ≡ elim (lookup id todo) [
      | none ↦ lookup id remote
      | some node ↦ if is_stale now config node then none else lookup id remote
    ]
unfolding drop_stale lookup
lookup-drop_stale now config id [] remote d = refl
lookup-drop_stale now config id ((k, node) ∷ rest) remote d =
    elim (Bool-cases (is_stale now config node)) [
      | inl old ↦ rw old (
          ground (
            arith,
            old,
            eq_iff k id,
            d.0,
            lookup-drop_stale now config id rest (delete k remote) d.1,
            lookup-delete k id remote,
          ))
      | inr fine ↦
          rw fine (
            ground (arith, fine, eq_iff k id, d.0, lookup-drop_stale now config id rest remote d.1))
    ]

-- In a cluster whose node ids are distinct, a check drops a node exactly when it was last seen more
-- than three heartbeat intervals ago.
pub lookup-check_node_liveness :
    (now : ℕ) (id : String) (c : Cluster)
    → IsMap c.remote_nodes
    → lookup id (check_node_liveness now c).remote_nodes
      ≡ survives now c.config (lookup id c.remote_nodes)
unfolding check_node_liveness
lookup-check_node_liveness now id c d =
    ground (arith, lookup-drop_stale now c.config id c.remote_nodes c.remote_nodes d)

lookup-collect :
    (id : String) (ids : List String) (to : String) (m : Value) (at : String → Cluster)
    → lookup id (collect ids to m at) ≡ (if mem id ids then remote_call id to m (at id) else none)
unfolding collect lookup
lookup-collect id [] to m at = refl
lookup-collect id (k ∷ ids) to m at = elim (Option-cases (remote_call k to m (at k))) [
  | inl e ↦ ground (arith, e, eq_iff k id, lookup-collect id ids to m at)
  | inr (x, e) ↦ ground (
    arith,
    e,
    eq_iff k id,
    lookup-collect id ids to m at,
    lookup-insert k id x (collect ids to m at),
  )
]

-- `BroadcastMessage` answers, for each node that it finds in the cluster, what the call to that
-- node answers when its turn comes, and nothing for any other node: so it reports exactly the nodes
-- that leave in between.
lookup-broadcast_message :
    (id to : String) (m : Value) (c : Cluster) (at : String → Cluster)
    → lookup id (broadcast_message to m c at) ≡ (
        if has id c.remote_nodes && not (has id (at id).remote_nodes)
        then some (node_not_found id)
        else none)
unfolding broadcast_message remote_call
lookup-broadcast_message id to m c at =
    ground (arith, lookup-collect id (keys c.remote_nodes) to m at, mem-keys id c.remote_nodes)
