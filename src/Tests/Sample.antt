-- ===== src/Tests/Sample.antt =====
-- A small scheduler for the examples: one cluster of one node, and an offer of one slave.
use riak_mesos_legacy.Base.{ℕ, refl, true, false, List, [], ◌∷◌, none, some, keep}
use riak_mesos_legacy.Base.Int.{pos}
use riak_mesos_legacy.Base.Text.{Text, codes}
use riak_mesos_legacy.Mesos.{
  Resource, Offer, TaskStatus, task_running, MesosUtil, IsMesosUtil, OperationType, launch, reserve,
  unreserve, create, destroy, Operation,
}
use riak_mesos_legacy.Common.Offer.{OfferHelper, ResourceGroup, Ask, Intn}
use riak_mesos_legacy.Common.Offer.Take.{IsIntn}
use riak_mesos_legacy.Scheduler.ProcessState.{unknown, started, starting}
use riak_mesos_legacy.Scheduler.Config.{Config, Outside}
use riak_mesos_legacy.Scheduler.Node.{Node, empty_task_data}
use riak_mesos_legacy.Scheduler.Explorer.{Explorer}
use riak_mesos_legacy.Scheduler.Cluster.{Cluster}
use riak_mesos_legacy.Scheduler.Core.{SchedulerState, Core, Zookeeper, written}
use riak_mesos_legacy.Scheduler.Server.Proxy.{Http}
use riak_mesos_legacy.RiakExplorer.{Web, responds}
use riak_mesos_legacy.RiakExplorer.Reply.{
  Json, no_links, no_ping, no_plan, no_repair, no_status, no_ring_ready,
}

abbrev plain : Text → Resource
plain name = record {
  name = name;
  scalar = none;
  ranges = none;
  role = none;
  reservation = none;
  disk = none;
}

abbrev with_resources : OperationType → List Resource → Operation
with_resources kind rs = record { kind = kind; task_infos = []; resources = rs }

abbrev pub util : MesosUtil
util = record {
  new_scalar_resource = λ name v. record (plain name) { scalar = some v };
  new_scalar_resource_with_reservation = λ name v principal role. record (plain name) {
    scalar = some v;
    role = some role;
    reservation = some (record { principal = some principal });
  };
  new_volume_resource_with_reservation = λ v path id principal role. record (plain (codes "disk")) {
    scalar = some v;
    role = some role;
    reservation = some (record { principal = some principal });
    disk = some (record { persistence_id = some id; container_path = some path });
  };
  new_ranges_resource = λ name vs. record (plain name) { ranges = some vs };
  add_resource_reservation = λ r principal role. record r {
    role = some role;
    reservation = some (record { principal = some principal });
  };
  filter_resources = λ rs p. keep p rs;
  new_launch_operation = λ ts. record { kind = launch; task_infos = ts; resources = [] };
  new_destroy_operation = with_resources destroy;
  new_unreserve_operation = with_resources unreserve;
  new_reserve_operation = with_resources reserve;
  new_create_operation = with_resources create;
}

pub util-IsMesosUtil : IsMesosUtil util
util-IsMesosUtil = record {
  filters = λ rs p. refl;
  launches = λ ts. refl;
  launches_tasks = λ ts. refl;
  destroys = λ rs. refl;
  unreserves = λ rs. refl;
  reserves = λ rs. refl;
  creates = λ rs. refl;
  ranges_name = λ name vs. refl;
  ranges_ranges = λ name vs. refl;
  scalar_name = λ name v. refl;
  reserved_scalar_name = λ name v principal role. refl;
  volume_name = λ v path id principal role. refl;
}

-- The first port is always the one drawn.
abbrev pub first : Intn
first n = 0

pub first-IsIntn : IsIntn first
first-IsIntn n h = h

abbrev pub outside : Outside
outside = record {
  util = util;
  intn = first;
  parse_amount = λ t. some (pos 1000);
  marshal = λ d. d.fully_qualified_node_name;
  asset = λ name. name;
}

abbrev pub config : Config
config = record {
  zookeepers = codes "zk:2181" ∷ [];
  framework_name = codes "riak";
  framework_role = codes "role";
  mesos_auth_principal = codes "principal";
  node_cpus = codes "1.0";
  node_mem = codes "1.0";
  node_disk = codes "1.0";
  compatibility_mode = false;
  host_uri = codes "host";
  riak_uri = codes "riak";
  cepmd_uri = codes "cepmd";
  uri = codes "uri";
  use_super_chroot = codes "true";
  executor_value = codes "executor";
  executor_shell = false;
  executor_args = λ id. id ∷ [];
}

-- A node of the given number, as it is created.
abbrev pub fresh_node : ℕ → Node
fresh_node id = record {
  reconciled = false;
  last_asked_to_reconcile = 0;
  simple_id = id;
  destination_state = started;
  current_state = unknown;
  task_status = none;
  generation = 0;
  slave_id = none;
  hostname = [];
  task_data = empty_task_data;
  framework_name = codes "riak";
  cluster_name = codes "c";
  role = codes "role";
  principal = codes "principal";
  cpus = pos 1000;
  mem = pos 1000;
  disk = pos 1000;
  ports = 3;
  uuid = codes "uuid";
  container_path = codes "root";
  restart_generation = 0;
}

-- The same node with its task running.
abbrev pub up_node : ℕ → Node
up_node id = record (fresh_node id) { reconciled = true; current_state = started }

abbrev pub id_1 : Text
id_1 = codes "riak-c-1"

abbrev pub id_2 : Text
id_2 = codes "riak-c-2"

-- A cluster with one running node.
abbrev pub cluster : Cluster
cluster = record {
  name = codes "c";
  nodes = (id_1, up_node 1) ∷ [];
  graveyard = [];
  riak_config = codes "config";
  advanced_config = codes "advanced";
  is_killed = false;
  is_restarting = false;
  generation = 0;
}

-- The cluster with a second node, which is starting.
abbrev pub pair : Cluster
pair = record cluster {
  nodes = (id_1, up_node 1) ∷ (id_2, record (up_node 2) { current_state = starting }) ∷ [];
}

abbrev pub state : SchedulerState
state = record {
  mesos_master = codes "master";
  framework_id = some (codes "id");
  clusters = (codes "c", cluster) ∷ [];
  graveyard = [];
}

abbrev pub core : Core
core = record { state = state; stored = state; persists = 0; enabled = true }

abbrev pub zookeeper : Zookeeper
zookeeper n = written

-- Every request is answered with status 200 and the address that was asked, or the data put.
abbrev pub web : Web
web = record {
  get = λ url. responds 200 url;
  put = λ url data_. responds 200 data_;
  parses = λ url. true;
}

-- Every body reports success.
abbrev pub json : Json
json = record {
  changed = λ key body. record { success = codes "ok"; error = []; links = no_links };
  ping = λ body. no_ping;
  plan = λ body. no_plan;
  repair = λ body. no_repair;
  status = λ body. no_status;
  ring_ready = λ body. no_ring_ready;
}

abbrev pub explorer : Explorer
explorer = record { web = λ retry. web; json = json }

abbrev pub http : Http
http = record { web = web; format = λ text. text }

abbrev pub running : Text → TaskStatus
running id = record { task_id = id; state = task_running; slave_id = some (codes "slave") }

abbrev pub offer : Offer
offer = record {
  id = codes "offer";
  slave_id = some (codes "slave");
  hostname = codes "host";
  resources = [];
}

abbrev pub unreserved : ResourceGroup
unreserved = record {
  cpus = pos 4000;
  mem = pos 64000;
  disk = pos 5000;
  ports = 31005 ∷ 31001 ∷ 31002 ∷ 31009 ∷ [];
}

abbrev pub helper : OfferHelper
helper = record {
  mesos_offer = offer;
  offer_id_str = codes "offer";
  persistence_ids = [];
  reserved_resources = record { cpus = pos 0; mem = pos 0; disk = pos 0; ports = [] };
  unreserved_resources = unreserved;
  resources_to_reserve = [];
  resources_to_unreserve = [];
  volumes_to_create = [];
  volumes_to_destroy = [];
  tasks_to_launch = [];
}

abbrev pub small_ask : Ask
small_ask = record { cpus = pos 1000; mem = pos 1000; disk = pos 1000; ports = 3 }
