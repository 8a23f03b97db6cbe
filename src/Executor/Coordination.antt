-- ===== src/Executor/Coordination.antt =====
-- The node's entry in Zookeeper (executor/node.go: getCoordinatedChild and setCoordinatedData).
pub mod Address
use riak_mesos_legacy.Base.{ℕ, Bool, true, ◌⊎◌, inl, inr}
use riak_mesos_legacy.Base.Text.{Text, codes}
use riak_mesos_legacy.Scheduler.Config.{TaskData}
use riak_mesos_legacy.Metadata.Namespace.{Namespace, framework_namespace}
use riak_mesos_legacy.Metadata.Zookeeper.{ZkError, Zk}
use riak_mesos_legacy.Metadata.Retry.{Action, pure, ◌>>=◌, ◌>>◌}
use riak_mesos_legacy.Metadata.Manager.{ZkNode, log_panic, set_data}
use riak_mesos_legacy.Metadata.Tree.{
  get_root_node, create_child_if_not_exists, get_child, make_child,
}

-- templateData.
pub record TemplateData : Type 0 where
  pub http_port : ℕ
  pub pb_port : ℕ
  pub handoff_port : ℕ
  pub fully_qualified_node_name : Text
  pub disterl_port : ℕ

pub record CoordinatedData : Type 0 where
  pub framework_name : Text
  pub cluster_name : Text
  pub node_name : Text
  pub disterl_port : ℕ
  pub pb_port : ℕ
  pub http_port : ℕ
  pub hostname : Text

unfoldable pub coordinated_data : TaskData → TemplateData → CoordinatedData
coordinated_data t config = record {
  node_name = t.fully_qualified_node_name;
  disterl_port = config.disterl_port;
  pb_port = config.pb_port;
  http_port = config.http_port;
  hostname = t.host;
  cluster_name = t.cluster_name;
  framework_name = t.framework_name;
}

module _ (z : Zk) where
  open z use {State}

  -- `if err != nil { log.Panic(err) }` after a call that gives a node.
  abbrev node_or_panic : ZkError ⊎ ZkNode → Action State ZkNode
  node_or_panic (inl e) = log_panic e
  node_or_panic (inr node) = pure node

  unfoldable pub get_coordinated_child : Text → Text → Action State ZkNode
  unfolding get_root_node create_child_if_not_exists get_child make_child
  get_coordinated_child framework_name task_id = get_root_node z framework_name >>= λ root.
      create_child_if_not_exists z root (codes "coordinator")
      >> get_child z root (codes "coordinator")
      >>= node_or_panic
      >>= λ coordinator.
          create_child_if_not_exists z coordinator (codes "coordinatedNodes")
          >> get_child z coordinator (codes "coordinatedNodes")
          >>= node_or_panic
          >>= λ nodes. make_child z nodes task_id true >>= node_or_panic

  unfoldable pub set_coordinated_data :
      (CoordinatedData → Text) → TaskData → ZkNode → TemplateData → Action State ZkNode
  unfolding set_data coordinated_data
  set_coordinated_data serialize t child config =
      set_data z (serialize (coordinated_data t config)) child
