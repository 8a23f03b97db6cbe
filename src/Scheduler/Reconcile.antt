-- ===== src/Scheduler/Reconcile.antt =====
-- scheduler/reconcilation.go: the loop that asks for lost statuses, and kills, removes and restarts
-- nodes.
pub mod Removal
use riak_mesos_legacy.Base.{
  ℕ, Bool, false, not, ◌||◌, List, [], ◌∷◌, ◌++◌, Option, none, some, if◌then◌else◌, is_empty,
}
use riak_mesos_legacy.Base.Text.{Text}
use riak_mesos_legacy.Base.Map.{Map, insert, erase}
use riak_mesos_legacy.Mesos.{TaskStatus}
use riak_mesos_legacy.Scheduler.Node.{Node, current_id, executor_id}
use riak_mesos_legacy.Scheduler.Cluster.{
  Cluster, get_nodes_to_kill_or_remove, remove_node, can_be_removed, get_nodes_to_restart,
  get_node_tasks_to_reconcile,
}
use riak_mesos_legacy.Scheduler.Core.{
  SchedulerState, Core, Outcome, done, panics, continue, Zookeeper, persist, with_clusters,
}

-- How the driver answers a call.
pub data Answer : Type 0 where
  accepted refused not_running : Answer

-- The Mesos driver: its answers to a message for an executor on a slave and to a kill of a task.
pub record Driver : Type 0 where
  pub send_finish : Text → Option Text → Answer
  pub kill_task : Text → Answer

-- What was asked of the driver.
pub data Request : Type 0 where
  finish_message : Text → Option Text → Request
  kill_request : Text → Request
  reconcile_request : List TaskStatus → Request

-- finishRiakNode, then killRiakNode if the message failed: `none` is log.Fatal.
unfoldable pub stop_node : Driver → Node → Option (List Request)
stop_node d n =
    let asked = finish_message (executor_id n) n.slave_id in
    elim (d.send_finish (executor_id n) n.slave_id) [
      | accepted ↦ some (asked ∷ [])
      | refused ↦ elim (d.kill_task (current_id n)) [
        | not_running ↦ none
        | _ ↦ some (asked ∷ kill_request (current_id n) ∷ [])
      ]
      | not_running ↦ none
    ]

unfoldable pub stop_nodes : Driver → List Node → Option (List Request)
unfolding stop_node
stop_nodes d [] = some []
stop_nodes d (n ∷ ns) = elim (stop_node d n) [
  | none ↦ none
  | some asked ↦ elim (stop_nodes d ns) [ none ↦ none | some rest ↦ some (asked ++ rest) ]
]

abbrev pub values : Map Node → List Node
values [] = []
values ((k, n) ∷ m) = n ∷ values m

unfoldable pub remove_nodes : List Node → Cluster → Cluster
remove_nodes [] c = c
remove_nodes (n ∷ ns) c = remove_nodes ns (remove_node n c)

-- What one round of the loop of killTasks leaves of a cluster: the cluster, whether it goes to the
-- graveyard, whether the state is dirty, and the requests made.
pub record Round : Type 0 where
  pub cluster : Cluster
  pub buried : Bool
  pub dirty : Bool
  pub requests : List Request

-- The body of the loop of killTasks.
unfoldable pub kill_round : Driver → Cluster → Option Round
unfolding stop_nodes remove_nodes
kill_round d c =
    let found = get_nodes_to_kill_or_remove c.nodes ([], []) in
    let c' = remove_nodes (values found.1) c in
    let r = get_nodes_to_restart c' in
    elim (stop_nodes d (values found.0)) [
      | none ↦ none
      | some killed ↦ elim (stop_nodes d r.1) [
        | none ↦ none
        | some restarted ↦ some (record {
          cluster = r.0;
          buried = can_be_removed c';
          dirty = not (is_empty found.1) || can_be_removed c' || r.2;
          requests = killed ++ restarted;
        })
      ]
    ]

-- The cluster after its round, under its name in the graveyard or in its place.
unfoldable pub settle : Text → Round → SchedulerState → SchedulerState
settle k r s =
    if r.buried
    then record s {
      clusters = erase r.cluster.name s.clusters;
      graveyard = insert r.cluster.name r.cluster s.graveyard;
    }
    else record s { clusters = insert k r.cluster s.clusters }

-- The loop of killTasks over the clusters: the state, `stateDirty` and the requests.
unfoldable pub kill_rounds :
    Driver → Map Cluster → SchedulerState → Option (SchedulerState × Bool × List Request)
unfolding kill_round settle
kill_rounds d [] s = some (s, false, [])
kill_rounds d ((k, c) ∷ m) s = elim (kill_round d c) [
  | none ↦ none
  | some r ↦ elim (kill_rounds d m (settle k r s)) [
    | none ↦ none
    | some (s', dirty, requests) ↦ some (s', r.dirty || dirty, r.requests ++ requests)
  ]
]

-- log.Fatal ends the process: nothing more is stored.
unfoldable pub kill_tasks : Driver → Zookeeper → Core → Outcome (List Request)
unfolding kill_rounds persist
kill_tasks d zk core = elim (kill_rounds d core.state.clusters core.state) [
  | none ↦ panics core
  | some (s, dirty, requests) ↦
      let core' = record core { state = s } in
      if dirty
      then continue (persist zk core') (λ core'' _. done core'' requests)
      else done core' requests
]

-- The loop of reconcileTasks: the clusters, `tasksReconcilable` and the requests.
unfoldable pub reconcile_tasks : ℕ → Map Cluster → Map Cluster × Bool × List Request
reconcile_tasks now [] = ([], false, [])
reconcile_tasks now ((k, c) ∷ m) =
    let r = get_node_tasks_to_reconcile now c.nodes in
    let rest = reconcile_tasks now m in
    (
      (k, record c { nodes = r.0 }) ∷ rest.0,
      not (is_empty r.1) || rest.1,
      (if is_empty r.1 then [] else reconcile_request r.1 ∷ []) ++ rest.2,
    )

-- One tick: nothing is killed while some status is asked for.
unfoldable pub reconcile : Driver → Zookeeper → ℕ → Core → Outcome (List Request)
unfolding reconcile_tasks kill_tasks
reconcile d zk now core =
    let r = reconcile_tasks now core.state.clusters in
    let core' = with_clusters core r.0 in
    if not core.enabled then done core [] else if r.1 then done core' r.2 else kill_tasks d zk core'
