-- ===== src/Examples/Clusters.antt =====
-- A cluster of two remote nodes, and groups of two processes.
use socket_go.Base.Map.{IsMap, lookup}
use socket_go.Cluster.{new_cluster, remote_call}
use socket_go.Cluster.Heartbeat.{start_heartbeat, lasting, lookup-start_heartbeat}
use socket_go.Base.{none, List, some, ℕ, String, ◌≡◌, refl, [], ◌∷◌, arith, At}
use socket_go.Base.Int.{pos, ◌+ℤ◌}
use socket_go.Socket.{nil, Value, node_not_found}
use socket_go.Node.{new_node}
use socket_go.Cluster.{Cluster, ClusterNode}
use socket_go.Balancer.{
  Group, Entry, Strategy, round_robin, weighted_round_robin, pick, target, panic, send_group,
  remove_process, remove_first, total_weight,
}
use socket_go.Node.{Node, default_process_options}
use socket_go.Node.History.{spawns, spawns_with, run}
use socket_go.Balancer.RoundRobin.{remove_process-panics}
use socket_go.Balancer.Weighted.{pick-weighted}

abbrev seen : String → ℕ → ClusterNode
seen id t = record { id = id; address = ""; last_seen = t; capabilities = [] }

abbrev cluster : Cluster
cluster = record {
  local_node = new_node "here";
  remote_nodes = ("old", seen "old" 1) ∷ ("new", seen "new" 90) ∷ [];
  config = record {
    discovery_addresses = [];
    heartbeat_interval = 10;
    gossip_interval = 10;
    node_capabilities = [];
  };
}

cluster-IsMap : IsMap cluster.remote_nodes
cluster-IsMap = unfold lookup in (refl, (refl, tt))

abbrev a : Entry
a = record { node_id = "here"; process_id = "a"; weight = pos 1 }

abbrev b : Entry
b = record { node_id = "new"; process_id = "b"; weight = pos 3 }

abbrev group : Strategy → ℕ → Group
group strategy i = record {
  id = "g";
  process_list = a ∷ b ∷ [];
  strategy = strategy;
  next_index = i;
}

lookup-start_heartbeat_example :
    ((c : Cluster) × (start_heartbeat (25 ∷ 35 ∷ []) cluster ≡ some c)
      × (lookup "old" c.remote_nodes
          ≡ lasting (25 ∷ 35 ∷ []) cluster.config (lookup "old" cluster.remote_nodes)))
    × ((c : Cluster) × (start_heartbeat
            (25 ∷ 35 ∷ [])
            (new_cluster (new_node "here") cluster.config)
          ≡ some c)
        × (remote_call "old" "p" nil c ≡ some (node_not_found "old")))
    × (start_heartbeat
          (25 ∷ 35 ∷ [])
          (record cluster { config = record cluster.config { heartbeat_interval = 0 } })
        ≡ none)
lookup-start_heartbeat_example =
    lookup-start_heartbeat (25 ∷ 35 ∷ []) "old" "p" nil (new_node "here") cluster cluster-IsMap
      (omega arith)

-- Two processes of the node, the first of which has room for one message.
abbrev workers : Node
workers =
    run
      (spawns_with "a" 1 (record default_process_options { mailbox_size = pos 1 })
        ∷ spawns "b" 2
        ∷ [])
      (new_node "here")

abbrev local_group : Group
local_group = record (group round_robin 1) { process_list = a ∷ record a { process_id = "b" } ∷ [] }

abbrev staffed : Cluster
staffed = record cluster { local_node = workers }

abbrev three : List (ℕ × Value)
three = (0, nil) ∷ (0, nil) ∷ (0, nil) ∷ []

remove_process-panics_example :
    (send_group 0 nil (remove_process "here" "a" (group round_robin 1)) cluster).0 ≡ panic
unfolding remove_process remove_first
remove_process-panics_example =
    remove_process-panics 0 nil "here" "a" (group round_robin 1) cluster refl (omega arith)
      (omega arith)

pick-weighted_example :
    (e : Entry) × (pick 2 (group weighted_round_robin 0) ≡ (target e, group weighted_round_robin 0))
    × At e (a ∷ b ∷ [])
unfolding total_weight ◌+ℤ◌
pick-weighted_example = pick-weighted 2 (group weighted_round_robin 0) refl refl
