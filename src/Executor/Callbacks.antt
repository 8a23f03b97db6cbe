-- ===== src/Executor/Callbacks.antt =====
-- The callbacks of ExecutorCore (executor/executor.go), each under its lock.
pub mod Launch
pub mod Alive
use riak_mesos_legacy.Base.{ℕ, Bool, true, false, List, [], Option, none, some, if◌then◌else◌}
use riak_mesos_legacy.Base.Text.{Text, codes, text_eq}
use riak_mesos_legacy.Mesos.{TaskState, task_starting, task_killed, task_failed}
use riak_mesos_legacy.Scheduler.Config.{TaskData}
use riak_mesos_legacy.Metadata.Zookeeper.{Zk}
use riak_mesos_legacy.Metadata.Tree.{new_metadata_manager}
use riak_mesos_legacy.Executor.{
  RiakNode, Update, Core, Ran, done, panics, exits, Step, pure, panic, exit, ◌>>=◌, ◌>>◌, metadata,
  Master, send_status,
}
use riak_mesos_legacy.Executor.Coordination.{CoordinatedData}
use riak_mesos_legacy.Executor.Node.{Site, set_node, run, finish, force_finish, next}

-- What a callback does when the program starts: main sets the driver once it has started it.
abbrev pub new_executor : {S : Type 0} → S → Core S
new_executor s = record { riak_node = none; driver = false; sent = []; stopped = false; zk = s }

unfoldable pub set_driver : {S : Type 0} → Step S (Unit {0})
set_driver c = done (record c { driver = true }) tt

-- Reregistered.
unfoldable pub reregistered : {S : Type 0} → Step S (Unit {0})
unfolding set_driver
reregistered = set_driver

-- The node that NewRiakNode makes.
abbrev pub first_node : Text → TaskData → RiakNode
first_node task_id t = record {
  task_id = task_id;
  task_data = t;
  generation = 0;
  running = false;
  kill_status = task_failed;
  pm = none;
  looping = none;
}

module _ (z : Zk) (master : Master) (serialize : CoordinatedData → Text) (status_data : ℕ → List ℕ)
    (deserialize : List ℕ → Option TaskData) where
  open z use {State}

  -- NewRiakNode.
  unfoldable pub new_riak_node : Text → List ℕ → Step State RiakNode
  unfolding new_metadata_manager
  new_riak_node task_id task_bytes = elim (deserialize task_bytes) [
    | none ↦ panic
    | some t ↦ metadata (new_metadata_manager z t.framework_name) >> pure (first_node task_id t)
  ]

  -- LaunchTask. A second launch ends the process by log.Fatalf.
  unfoldable pub launch_task : Site → Text → List ℕ → Step State (Unit {0})
  unfolding send_status new_riak_node set_node run
  launch_task site task_id task_bytes =
      send_status master (record { state = task_starting; data_sent = [] }) >> λ c.
      elim c.riak_node [
        | some n ↦ exits c
        | none ↦
            (new_riak_node task_id task_bytes >>= λ n.
            set_node n >> run z master serialize status_data site n)
              c
      ]

  unfoldable pub kill_task : Step State (Unit {0})
  unfolding send_status finish
  kill_task c = elim c.riak_node [
    | none ↦ panics c
    | some n ↦
        (send_status master (record { state = task_killed; data_sent = [] })
            >> finish z master serialize status_data)
          c
  ]

  unfoldable pub framework_message : Text → Step State (Unit {0})
  unfolding force_finish
  framework_message msg =
      if text_eq msg (codes "finish") then force_finish z master serialize status_data else pure tt

  -- Shutdown, which takes no lock.
  unfoldable pub shutdown : Step State (Unit {0})
  shutdown c = exits (record c { stopped = true })

  -- The cases of signalWatcher.
  pub data Signal : Type 0 where
    sigusr1 sigusr2 : Signal

  unfoldable pub signal_watcher : Signal → Step State (Unit {0})
  unfolding finish next
  signal_watcher sigusr1 = finish z master serialize status_data
  signal_watcher sigusr2 = next z master serialize status_data

  -- What the driver, or a signal, may call.
  pub data Callback : Type 0 where
    reregisters kills shuts_down : Callback
    launches : Site → Text → List ℕ → Callback
    sends_message : Text → Callback
    signals : Signal → Callback

  unfoldable pub handle : Callback → Step State (Unit {0})
  unfolding launch_task kill_task framework_message shutdown signal_watcher reregistered
  handle reregisters = reregistered
  handle kills = kill_task
  handle shuts_down = shutdown
  handle (launches site task_id task_bytes) = launch_task site task_id task_bytes
  handle (sends_message msg) = framework_message msg
  handle (signals s) = signal_watcher s
