-- ===== src/Tests/Cores.antt =====
-- The scheduler's state: status updates, storage and the HTTP API.
use riak_mesos_legacy.Base.{none, ◌↔◌, List, ◌≡◌, refl, true, [], ◌∷◌, some, All}
use riak_mesos_legacy.Base.Text.{Text, codes, text_eq}
use riak_mesos_legacy.Base.Map.{has}
use riak_mesos_legacy.Scheduler.Cluster.{Cluster, has_node, handle_node_status_update}
use riak_mesos_legacy.Scheduler.Core.{done, persist, with_clusters, status_update}
use riak_mesos_legacy.Scheduler.Core.Updates.{Lacks, status_update-unknown, status_update-known}
use riak_mesos_legacy.Scheduler.Server.Contract.{Keeps}
use riak_mesos_legacy.Scheduler.Server.Routes.{Entry, remove_node, table, serve}
use riak_mesos_legacy.Scheduler.Server.Routes.Mux.{answers, dispatch}
use riak_mesos_legacy.Scheduler.Server.Routes.Requests.{serve-Keeps}
use riak_mesos_legacy.Scheduler.Server.Routes.Unambiguous.{Among, mux-table_iff}
use riak_mesos_legacy.Tests.Sample.{
  outside, config, id_1, id_2, cluster, core, zookeeper, explorer, http, running,
}

core-Lacks : All (Lacks id_2) core.state.clusters
unfolding has_node has text_eq
core-Lacks = (refl, tt)

status_update-unknown_example : status_update explorer zookeeper (running id_2) core ≡ done core tt
status_update-unknown_example =
    status_update-unknown explorer zookeeper (running id_2) core core-Lacks

cluster-has_node : has_node id_1 cluster ≡ true
unfolding has_node has text_eq
cluster-has_node = refl

status_update-known_example :
    (c' : Cluster) × (handle_node_status_update explorer (running id_1) cluster ≡ some c')
    × (status_update explorer zookeeper (running id_1) core
        ≡ persist zookeeper (with_clusters core ((codes "c", c') ∷ [])))
status_update-known_example =
    status_update-known explorer zookeeper (running id_1) core [] (codes "c") cluster [] refl tt
      cluster-has_node

-- The parts of the path of a node.
abbrev node_path : List Text
node_path = codes "api" ∷ codes "v1" ∷ codes "clusters" ∷ codes "c" ∷ codes "nodes" ∷ id_1 ∷ []

serve-Keeps_example : Keeps core (
    serve dispatch config outside http zookeeper
      (codes "uuid")
      none
      (codes "DELETE")
      node_path
      core)
serve-Keeps_example =
    serve-Keeps dispatch config outside http zookeeper (codes "uuid") none (codes "DELETE")
      node_path core

mux-table_iff_example :
    (dispatch table (codes "DELETE") node_path ≡ some (remove_node, codes "c" ∷ id_1 ∷ [])) ↔ (
      (e : Entry) × Among e table
      × (answers (codes "DELETE") node_path e ≡ some (remove_node, codes "c" ∷ id_1 ∷ [])))
mux-table_iff_example =
    mux-table_iff (codes "DELETE") node_path (remove_node, codes "c" ∷ id_1 ∷ []) dispatch
      (λ _ _ _. refl)
