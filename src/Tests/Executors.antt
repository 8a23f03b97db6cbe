-- ===== src/Tests/Executors.antt =====
-- The executor, from a launch to a kill.
use riak_mesos_legacy.Base.{
  ℕ, ◌<◌, ◌^◌, ◌↔◌, length, ◌≡◌, refl, true, false, List, [], ◌∷◌, Option, none, some,
}
use riak_mesos_legacy.Base.Text.{Text, codes, text_eq}
use riak_mesos_legacy.Base.Split.{contains, join}
use riak_mesos_legacy.Scheduler.Config.{TaskData}
use riak_mesos_legacy.Metadata.Namespace.{
  get_components, get_zk_path, make_sub_space, framework_namespace,
}
use riak_mesos_legacy.Metadata.Zookeeper.{Zk}
use riak_mesos_legacy.Metadata.Retry.{with_retry}
use riak_mesos_legacy.Metadata.Manager
use riak_mesos_legacy.Metadata.Manager.{
  create_connection, try_set_data, try_get_node, get_node, try_create, make_node,
  try_create_if_not_exists, create_if_not_exists,
}
use riak_mesos_legacy.Metadata.Tree.{
  create_each, create_below_first, create_ns_if_not_exists, try_get_root_node, get_root_node, below,
  make_child, get_child, create_child_if_not_exists, new_metadata_manager,
}
use riak_mesos_legacy.Executor.{RiakNode, Core, done, Master, send_status, send_by_driver}
use riak_mesos_legacy.Executor.Coordination.{
  CoordinatedData, coordinated_data, get_coordinated_child, set_coordinated_data,
}
use riak_mesos_legacy.Executor.Coordination.Address.{entry}
use riak_mesos_legacy.Cepm.{new_cpmd}
use riak_mesos_legacy.Executor.Node.{
  Template, Site, render, configure_riak, install, announce, start_cpmd, run, set_node, next,
}
use riak_mesos_legacy.Executor.Node.Generation.{decode, next_iff}
use riak_mesos_legacy.Mesos.{task_running}
use riak_mesos_legacy.Executor.Callbacks.{
  first_node, new_executor, new_riak_node, launch_task, handle, kills,
}
use riak_mesos_legacy.Executor.Callbacks.Launch.{Launched, launch_task-Launched}
use riak_mesos_legacy.Executor.Callbacks.Alive.{IsUp, StaysUp, core_of, handle-StaysUp}
use riak_mesos_legacy.Tests.Store.{Single, store, temporary, temporary-Ephemeral, close_single}

abbrev task_data : TaskData
task_data = record {
  fully_qualified_node_name = codes "a@b";
  zookeepers = [];
  framework_name = codes "f";
  cluster_name = codes "c";
  uri = codes "u";
  host = codes "b";
  use_super_chroot = false;
  http_port = 1;
  pb_port = 2;
  handoff_port = 3;
  disterl_port = 4;
}

abbrev fine : Template
fine = record { fetched = true; parsed = true; opened = true; executed = true }

abbrev site : Site
site = record {
  config = fine;
  advanced = fine;
  listens = true;
  kernel_dirs = some (codes "k" ∷ []);
  installed = true;
  epmd_killed = true;
  wd_known = true;
  started = true;
}

-- The master takes every status.
abbrev master : Master
master n = true

abbrev serialize : CoordinatedData → Text
serialize d = d.node_name

abbrev deserialize : List ℕ → Option TaskData
deserialize b = some task_data

abbrev status_data : ℕ → List ℕ
status_data p = p ∷ []

abbrev z : Zk
z = temporary (get_zk_path (entry (codes "f") (codes "t")))

abbrev before : Core Single
before = record (new_executor (store 0 none)) { driver = true }

abbrev after : Core Single
after = core_of (launch_task z master serialize status_data deserialize site (codes "t") [] before)

launch-done :
    launch_task z master serialize status_data deserialize site (codes "t") [] before
    ≡ done after tt
unfolding start_cpmd new_cpmd close_single launch_task send_status send_by_driver new_riak_node
    set_node run configure_riak render install announce get_coordinated_child set_coordinated_data
    coordinated_data new_metadata_manager create_connection create_ns_if_not_exists
    create_below_first create_each create_if_not_exists try_create_if_not_exists try_create
    get_root_node try_get_root_node get_node try_get_node create_child_if_not_exists get_child
    make_child make_node below with_retry Manager.set_data try_set_data get_zk_path get_components
    entry join make_sub_space framework_namespace contains text_eq
launch-done = refl

launch_task-Launched_example :
    Launched z master serialize status_data deserialize site
      (codes "t")
      task_data
      (temporary-Ephemeral (get_zk_path (entry (codes "f") (codes "t"))))
      before
      after
launch_task-Launched_example =
    launch_task-Launched z master serialize status_data deserialize site (codes "t") [] task_data
      (temporary-Ephemeral (get_zk_path (entry (codes "f") (codes "t")))) before after tt refl
      launch-done

after-IsUp : IsUp after
unfolding start_cpmd new_cpmd close_single launch_task send_status send_by_driver new_riak_node
    set_node run configure_riak render install announce get_coordinated_child set_coordinated_data
    coordinated_data new_metadata_manager create_connection create_ns_if_not_exists
    create_below_first create_each create_if_not_exists try_create_if_not_exists try_create
    get_root_node try_get_root_node get_node try_get_node create_child_if_not_exists get_child
    make_child make_node below with_retry Manager.set_data try_set_data get_zk_path get_components
    entry join make_sub_space framework_namespace contains text_eq
after-IsUp = refl

handle-StaysUp_example : StaysUp (handle z master serialize status_data deserialize kills after)
handle-StaysUp_example =
    handle-StaysUp z master serialize status_data deserialize kills after refl after-IsUp

abbrev running : RiakNode
running = record (first_node (codes "t") task_data) { generation = 300 }

abbrev launched : Core Single
launched = record before { riak_node = some running }

next_iff_example :
    ((data_ : List ℕ) × (length data_ ≡ 4)
      × (decode data_ ≡ 300)
      × (next z master serialize status_data launched
          ≡ done
              (record launched {
                sent = (record { state = task_running; data_sent = data_ }) ∷ [];
                riak_node = some (record running { generation = 301 });
              })
              tt))
    ↔ (300 < 2 ^ 28)
next_iff_example = next_iff z master serialize status_data launched running refl refl refl
