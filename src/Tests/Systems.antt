-- ===== src/Tests/Systems.antt =====
-- Witnesses: the scheduler as a whole, after a cluster and a node have been asked for.
use riak_mesos_legacy.Base.{◌≡◌, ◌↔◌, ◌⊎◌, refl, [], ◌∷◌, none, some, true}
use riak_mesos_legacy.Base.Text.{Text, codes, itoa, text_eq}
use riak_mesos_legacy.Base.Map.{lookup, insert, has}
use riak_mesos_legacy.Scheduler.Node.{new_framework_riak_node, current_id}
use riak_mesos_legacy.Scheduler.Cluster.{
  has_node, new_framework_riak_cluster, create_node, get_next_simple_id,
}
use riak_mesos_legacy.Scheduler.Core.{
  Core, core_of, done, persist, set_data, exported, registered, restarted,
}
use riak_mesos_legacy.Scheduler.Server.{create_cluster, create_node_handler}
use riak_mesos_legacy.Scheduler.Server.Router.{handle, create_cluster_route, create_node_route}
use riak_mesos_legacy.Scheduler.System.{Since, here, later, requested, first_start}
use riak_mesos_legacy.Scheduler.System.Sound.{BothSound}
use riak_mesos_legacy.Scheduler.System.Reachable.{AnyId, Since-IsSound, Since-one_cluster}
use riak_mesos_legacy.Scheduler.Start.{
  Machine, Settings, DriverConfig, credential_of, binding_of, run,
}
use riak_mesos_legacy.Scheduler.Start.Identity.{registered-run}
use riak_mesos_legacy.Framework.{name_is_valid}
use riak_mesos_legacy.Framework.Names.{IsFrameName, name_is_valid_iff}
use riak_mesos_legacy.Tests.Sample.{outside, config, http, zookeeper, id_1, fresh_node}

abbrev one_cluster : Core
one_cluster = core_of (
    handle config outside http zookeeper (create_cluster_route (codes "c"))
      (first_start (codes "master")))

abbrev one_node : Core
one_node = core_of (
    handle config outside http zookeeper (create_node_route (codes "uuid") (codes "c")) one_cluster)

one_node-Since : Since config (first_start (codes "master")) one_node
one_node-Since = later (later here (requested _ _ _ _ _)) (requested _ _ _ _ _)

Since-IsSound_example : BothSound config.framework_name AnyId one_node
Since-IsSound_example = Since-IsSound config (codes "master") one_node-Since

made :
    lookup (codes "c") one_node.state.clusters
    ≡ some (record (new_framework_riak_cluster outside (codes "c")) {
      nodes = (id_1, record (fresh_node 1) { ports = 10 }) ∷ [];
    })
unfolding lookup insert has handle create_cluster create_node_handler create_node
    new_framework_riak_node new_framework_riak_cluster current_id itoa text_eq persist set_data
    get_next_simple_id
made = refl

Since-one_cluster_example : codes "c" ≡ codes "c"
unfolding has_node has text_eq
Since-one_cluster_example =
    Since-one_cluster config (codes "master") id_1 (codes "c") (codes "c") _ _ one_node-Since made
      made refl refl

abbrev machine : Machine
machine = record {
  hostname = some (codes "h");
  port = some 8080;
  use_super_chroot = codes "true";
  read_file = λ name. none;
  lookup_ip = λ name. none;
}

abbrev settings : Settings
settings = record {
  scheduler_hostname = [];
  framework_name = codes "riak";
  framework_role = codes "role";
  zookeepers = codes "zk:2181" ∷ [];
  scheduler_ip_addr = [];
  user = [];
  node_cpus = codes "1.0";
  node_mem = codes "1.0";
  node_disk = codes "1.0";
  auth_provider = [];
  mesos_auth_principal = [];
  mesos_auth_secret_file = [];
  use_reservations = true;
}

-- The core after it has registered.
abbrev known_core : Core
known_core = core_of (registered zookeeper (codes "id") (first_start (codes "master")))

registered_once :
    registered zookeeper (codes "id") (first_start (codes "master")) ≡ done known_core tt
unfolding registered persist set_data
registered_once = refl

abbrev driver : DriverConfig
driver = record {
  framework = record {
    name = codes "riak";
    id = some (codes "id");
    failover_timeout = 86400;
    webui_url = codes "uri";
    checkpoint = true;
    role = codes "role";
    user = codes "guest";
    principal = none;
  };
  master = codes "master";
  credential = none;
  hostname_override = codes "h";
  binding_address = none;
  login = none;
}

run_again :
    run machine settings config (restarted (codes "master") known_core).state (codes "master")
    ≡ some driver
unfolding run restarted registered persist set_data exported credential_of binding_of
run_again = refl

registered-run_example : (known : Text) × (driver.framework.id ≡ some known)
registered-run_example =
    registered-run config machine settings driver zookeeper (codes "master") (codes "master")
      (codes "id") here registered_once here run_again

name_is_valid_iff_example :
    (name_is_valid (codes "riak-2") ≡ true) ↔ ((codes "riak-2" ≡ []) ⊎ IsFrameName (codes "riak-2"))
name_is_valid_iff_example = name_is_valid_iff (codes "riak-2")
