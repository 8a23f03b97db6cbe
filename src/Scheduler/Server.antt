-- ===== src/Scheduler/Server.antt =====
-- scheduler/server.go: the handlers of the HTTP API. The JSON of a body is left unwritten; a request
-- for a file, the debug pages and the listener are not modelled.
pub mod Proxy
pub mod Router
pub mod Routes
pub mod Contract
use riak_mesos_legacy.Base.{ℕ, List, [], ◌∷◌, ◌++◌, Bool, Option, none, some, if◌then◌else◌}
use riak_mesos_legacy.Base.Text.{Text, codes}
use riak_mesos_legacy.Base.Map.{Map, lookup, insert, has}
use riak_mesos_legacy.Scheduler.Config.{Config, Outside}
use riak_mesos_legacy.Scheduler.Node.{Node}
use riak_mesos_legacy.Scheduler.Node
use riak_mesos_legacy.Scheduler.Cluster.{
  Cluster, new_framework_riak_cluster, rolling_restart, kill_next, create_node,
}
use riak_mesos_legacy.Scheduler.Core.{
  SchedulerState, Core, Outcome, done, panics, continue, Zookeeper, persist, with_clusters,
  map_values,
}

pub data Body : Type 0 where
  nothing : Body
  message : Text → Body
  cluster_json : Cluster → Body
  clusters_json : Map Cluster → Body
  node_json : Node → Body
  nodes_json : Map Node → Body

pub record Reply : Type 0 where
  pub code : ℕ
  pub body : Body

abbrev pub reply : ℕ → Body → Reply
reply code body = record { code = code; body = body }

abbrev pub cluster_not_found : Text → Reply
cluster_not_found name = reply 404 (message (codes "Cluster " ++ (name ++ codes " not found")))

abbrev pub node_not_found : Text → Reply
node_not_found id = reply 404 (message (codes "Node " ++ (id ++ codes " not found")))

-- Stores the core and answers; a handler that ignores the error of Persist ends so.
abbrev pub persist_and : Zookeeper → Core → Reply → Outcome Reply
persist_and zk core r = continue (persist zk core) (λ core' _. done core' r)

abbrev pub put_cluster : Core → Text → Cluster → Core
put_cluster core k c = with_clusters core (insert k c core.state.clusters)

unfoldable pub create_cluster : Outside → Zookeeper → Text → Core → Outcome Reply
create_cluster out zk name core =
    let c = new_framework_riak_cluster out name in
    if has name core.state.clusters
    then done core (reply 409 nothing)
    else persist_and zk (put_cluster core name c) (reply 200 (cluster_json c))

unfoldable pub restart_cluster : Zookeeper → Text → Core → Outcome Reply
restart_cluster zk name core = elim (lookup name core.state.clusters) [
  | none ↦ done core (cluster_not_found name)
  | some c ↦
      let c' = rolling_restart c in
      persist_and zk (put_cluster core name c') (reply 202 (cluster_json c'))
]

unfoldable pub remove_cluster : Zookeeper → Text → Core → Outcome Reply
remove_cluster zk name core = elim (lookup name core.state.clusters) [
  | none ↦ done core (cluster_not_found name)
  | some c ↦
      let c' = kill_next (record c { nodes = map_values Node.kill_next c.nodes }) in
      persist_and zk (put_cluster core name c') (reply 202 nothing)
]

-- `none` for a body that cannot be read. Persist returns no error, so its 503 is not reached.
unfoldable pub set_config : Zookeeper → Text → Option Text → Core → Outcome Reply
set_config zk name body core = elim (lookup name core.state.clusters) [
  | none ↦ done core (cluster_not_found name)
  | some c ↦ elim body [
    | none ↦ done core (reply 503 (message (codes "Unable to read file: ")))
    | some text ↦
        persist_and zk (put_cluster core name (record c { riak_config = text }))
          (reply 200 (message (codes "Success!")))
  ]
]

unfoldable pub get_config : Text → Core → Outcome Reply
get_config name core = elim (lookup name core.state.clusters) [
  | none ↦ done core (cluster_not_found name)
  | some c ↦ done core (reply 200 (message c.riak_config))
]

unfoldable pub set_advanced_config : Zookeeper → Text → Option Text → Core → Outcome Reply
set_advanced_config zk name body core = elim (lookup name core.state.clusters) [
  | none ↦ done core (cluster_not_found name)
  | some c ↦ elim body [
    | none ↦ done core (reply 503 (message (codes "Unable to read file: ")))
    | some text ↦
        persist_and zk (put_cluster core name (record c { advanced_config = text }))
          (reply 200 (message (codes "Success!")))
  ]
]

unfoldable pub get_advanced_config : Text → Core → Outcome Reply
get_advanced_config name core = elim (lookup name core.state.clusters) [
  | none ↦ done core (cluster_not_found name)
  | some c ↦ done core (reply 200 (message c.advanced_config))
]

unfoldable pub serve_clusters : Core → Outcome Reply
serve_clusters core = done core (reply 200 (clusters_json core.state.clusters))

-- http.NotFound has a body of its own.
unfoldable pub get_cluster : Text → Core → Outcome Reply
get_cluster name core = elim (lookup name core.state.clusters) [
  | none ↦ done core (reply 404 (message (codes "404 page not found")))
  | some c ↦ done core (reply 200 (cluster_json c))
]

unfoldable pub remove_node : Zookeeper → Text → Text → Core → Outcome Reply
remove_node zk name id core = elim (lookup name core.state.clusters) [
  | none ↦ done core (cluster_not_found name)
  | some c ↦ elim (lookup id c.nodes) [
    | none ↦ done core (node_not_found id)
    | some n ↦
        persist_and zk
          (put_cluster core name (record c { nodes = insert id (Node.kill_next n) c.nodes }))
          (reply 202 nothing)
  ]
]

-- `uuid` is the fresh identifier of the node.
unfoldable pub create_node_handler :
    Config → Outside → Zookeeper → Text → Text → Core → Outcome Reply
create_node_handler sc out zk uuid name core = elim (lookup name core.state.clusters) [
  | none ↦ done core (cluster_not_found name)
  | some c ↦ elim (create_node sc out uuid c) [
    | none ↦ panics core
    | some (c', n) ↦ persist_and zk (put_cluster core name c') (reply 200 (node_json n))
  ]
]

unfoldable pub serve_nodes : Text → Core → Outcome Reply
serve_nodes name core = elim (lookup name core.state.clusters) [
  | none ↦ done core (cluster_not_found name)
  | some c ↦ done core (reply 200 (nodes_json c.nodes))
]
