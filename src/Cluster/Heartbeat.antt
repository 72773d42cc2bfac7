-- ===== src/Cluster/Heartbeat.antt =====
-- socket/distributed/node.go: `startHeartbeat` (lines 586-599) as far as its ticks go, at the times that
-- are given; the heartbeats themselves are only printed.
use socket_go.Base.{
  leb, ltb, ◌+◌, ◌*◌, ◌<◌, ℕ, String, ◌≡◌, refl, ap, ◌∙◌, inl, inr, Bool, true, ◌&&◌, List, [], ◌∷◌,
  Option, none, some, arith, if◌then◌else◌, Bool-cases,
}
use socket_go.Base.Map.{Map, IsMap, lookup, delete-IsMap}
use socket_go.Socket.{node_not_found, Value}
use socket_go.Node.{Node}
use socket_go.Cluster.{
  Cluster, ClusterNode, ClusterConfig, new_cluster, is_stale, drop_stale, check_node_liveness,
  remote_call,
}
use socket_go.Cluster.Membership.{survives, lookup-check_node_liveness}

-- The ticks, one after the other.
unfoldable ticks_each : List ℕ → Cluster → Cluster
ticks_each [] c = c
ticks_each (now ∷ ticks) c = ticks_each ticks (check_node_liveness now c)

-- `none` is the panic of `time.NewTicker` on an interval that is not positive.
unfoldable pub start_heartbeat : List ℕ → Cluster → Option Cluster
unfolding ticks_each
start_heartbeat ticks c =
    if ltb 0 c.config.heartbeat_interval then some (ticks_each ticks c) else none

-- No tick comes more than three intervals after the time.
abbrev is_in_time : List ℕ → ℕ → ℕ → Bool
is_in_time [] interval seen = true
is_in_time (now ∷ ticks) interval seen =
    leb now (seen + 3 * interval) && is_in_time ticks interval seen

abbrev pub lasting : List ℕ → ClusterConfig → Option ClusterNode → Option ClusterNode
lasting ticks config none = none
lasting ticks config (some node) =
    if is_in_time ticks config.heartbeat_interval node.last_seen then some node else none

drop_stale-IsMap :
    (now : ℕ) (config : ClusterConfig) (todo remote : Map ClusterNode)
    → IsMap remote
    → IsMap (drop_stale now config todo remote)
unfolding drop_stale
drop_stale-IsMap now config [] remote d = d
drop_stale-IsMap now config ((id, node) ∷ rest) remote d =
    elim (Bool-cases (is_stale now config node)) [
      | inl e ↦ rw e (drop_stale-IsMap now config rest _ (delete-IsMap id remote d))
      | inr e ↦ rw e (drop_stale-IsMap now config rest remote d)
    ]

lasting-survives :
    (now : ℕ) (ticks : List ℕ) (config : ClusterConfig) (o : Option ClusterNode)
    → lasting ticks config (survives now config o) ≡ lasting (now ∷ ticks) config o
unfolding is_stale
lasting-survives now ticks config none = refl
lasting-survives now ticks config (some node) = ground arith

lookup-ticks_each :
    (ticks : List ℕ) (id : String) (c : Cluster)
    → IsMap c.remote_nodes
    → lookup id (ticks_each ticks c).remote_nodes
      ≡ lasting ticks c.config (lookup id c.remote_nodes)
unfolding ticks_each check_node_liveness
lookup-ticks_each [] id c d = ground arith
lookup-ticks_each (now ∷ ticks) id c d =
    let kept : IsMap (check_node_liveness now c).remote_nodes =
      drop_stale-IsMap now c.config c.remote_nodes c.remote_nodes d in
    lookup-ticks_each ticks id (check_node_liveness now c) kept
    ∙ ap (lasting ticks c.config) (lookup-check_node_liveness now id c d)
    ∙ lasting-survives now ticks c.config (lookup id c.remote_nodes)

-- In a cluster whose node ids are distinct and whose heartbeat interval is positive, `startHeartbeat`
-- runs, and a node is still there behind any number of its ticks exactly when none of them came more
-- than three intervals after it was last seen. A new cluster stays empty, as nothing else enters a
-- node: every call to another node fails. Where the interval is zero it panics instead.
pub lookup-start_heartbeat :
    (ticks : List ℕ) (id to : String) (m : Value) (n : Node) (c : Cluster)
    → IsMap c.remote_nodes
    → 0 < c.config.heartbeat_interval
    → ((c' : Cluster) × (start_heartbeat ticks c ≡ some c')
        × (lookup id c'.remote_nodes ≡ lasting ticks c.config (lookup id c.remote_nodes)))
      × ((c' : Cluster) × (start_heartbeat ticks (new_cluster n c.config) ≡ some c')
          × (remote_call id to m c' ≡ some (node_not_found id)))
      × (start_heartbeat ticks (record c { config = record c.config { heartbeat_interval = 0 } })
          ≡ none)
unfolding remote_call new_cluster start_heartbeat
lookup-start_heartbeat ticks id to m n c d h = (
  (ticks_each ticks c, ground arith, lookup-ticks_each ticks id c d),
  (
    ticks_each ticks (new_cluster n c.config),
    ground arith,
    ground (arith, lookup-ticks_each ticks id (new_cluster n c.config) tt, nobody id),
  ),
  ground arith,
)
  where
    nobody : (j : String) → lookup {V = ClusterNode} j [] ≡ none
    nobody j = unfold lookup in refl
