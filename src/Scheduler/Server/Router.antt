-- ===== src/Scheduler/Server/Router.antt =====
-- ServeExecutorArtifact of scheduler/server.go: the requests the router knows, by their handlers.
use riak_mesos_legacy.Base.{Option}
use riak_mesos_legacy.Base.Text.{Text}
use riak_mesos_legacy.Scheduler.Config.{Config, Outside}
use riak_mesos_legacy.Scheduler.Core.{Core, Outcome, Zookeeper}
use riak_mesos_legacy.Scheduler.Server.{
  Reply, create_cluster, restart_cluster, remove_cluster, set_config, get_config,
  set_advanced_config, get_advanced_config, serve_clusters, get_cluster, remove_node,
  create_node_handler, serve_nodes,
}
use riak_mesos_legacy.Scheduler.Server.Proxy.{Http, Query, node_query, node_create_type}

-- The routes of ServeExecutorArtifact that the state answers, with their variables and their body;
-- `uuid` is the fresh identifier of a new node.
pub data Route : Type 0 where
  clusters_route : Route
  create_cluster_route restart_cluster_route remove_cluster_route get_cluster_route : Text → Route
  nodes_route : Text → Route
  create_node_route : Text → Text → Route
  remove_node_route : Text → Text → Route
  set_config_route set_advanced_config_route : Text → Option Text → Route
  get_config_route get_advanced_config_route : Text → Route
  query_route : Query → Text → Text → Route
  create_type_route : Text → Text → Text → Option Text → Route

module _ (sc : Config) (out : Outside) (http : Http) (zk : Zookeeper) where
  -- The router.
  unfoldable pub handle : Route → Core → Outcome Reply
  handle clusters_route = serve_clusters
  handle (create_cluster_route name) = create_cluster out zk name
  handle (restart_cluster_route name) = restart_cluster zk name
  handle (remove_cluster_route name) = remove_cluster zk name
  handle (get_cluster_route name) = get_cluster name
  handle (nodes_route name) = serve_nodes name
  handle (create_node_route uuid name) = create_node_handler sc out zk uuid name
  handle (remove_node_route name id) = remove_node zk name id
  handle (set_config_route name body) = set_config zk name body
  handle (set_advanced_config_route name body) = set_advanced_config zk name body
  handle (get_config_route name) = get_config name
  handle (get_advanced_config_route name) = get_advanced_config name
  handle (query_route query name id) = node_query http query name id
  handle (create_type_route name id bucket_type body) =
      node_create_type http name id bucket_type body
