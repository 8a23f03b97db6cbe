-- ===== src/Scheduler/Core.antt =====
-- scheduler/state.go and the callbacks of scheduler/scheduler.go that keep the state: registration
-- and status updates. A handler is a function of the core, under its lock; its outcome is the new
-- core with a result, or a panic that leaves the core behind.
pub mod Updates
pub mod Stored
use riak_mesos_legacy.Base.{
  ℕ, suc, ◌+◌, Bool, true, false, ◌||◌, List, [], ◌∷◌, Option, none, some, if◌then◌else◌,
}
use riak_mesos_legacy.Base.Text.{Text}
use riak_mesos_legacy.Base.Map.{Map, insert}
use riak_mesos_legacy.Mesos.{TaskStatus}
use riak_mesos_legacy.Scheduler.Node.{Node}
use riak_mesos_legacy.Scheduler.Explorer.{Explorer}
use riak_mesos_legacy.Scheduler.Cluster.{Cluster, has_node, handle_node_status_update}

-- SchedulerState without its node of Zookeeper.
pub record SchedulerState : Type 0 where
  pub mesos_master : Text
  pub framework_id : Option Text
  pub clusters : Map Cluster
  pub graveyard : Map Cluster

-- emptySchedulerState.
abbrev pub empty_scheduler_state : SchedulerState
empty_scheduler_state = record {
  mesos_master = [];
  framework_id = none;
  clusters = [];
  graveyard = [];
}

-- The parts of SchedulerCore that change: the state, what Zookeeper holds of it, the number of
-- calls of Persist so far, and whether the reconciliation is enabled.
pub record Core : Type 0 where
  pub state : SchedulerState
  pub stored : SchedulerState
  pub persists : ℕ
  pub enabled : Bool

pub data Outcome {ℓ} (A : Type ℓ) : Type ℓ where
  done : Core → A → Outcome A
  panics : Core → Outcome A

-- Goes on where a step has not panicked.
abbrev pub continue {ℓ κ} :
    {A : Type ℓ} {B : Type κ} → Outcome A → (Core → A → Outcome B) → Outcome B
continue (done c a) f = f c a
continue (panics c) f = panics c

-- The core that an outcome leaves.
abbrev pub core_of {ℓ} : {A : Type ℓ} → Outcome A → Core
core_of (done c a) = c
core_of (panics c) = c

-- The two fields of a node that its JSON leaves out come back as their zero values.
unfoldable pub exported_node : Node → Node
exported_node n = record n { reconciled = false; last_asked_to_reconcile = 0 }

unfoldable pub map_values {ℓ κ} : {A : Type ℓ} {B : Type κ} → (A → B) → Map A → Map B
map_values f [] = []
map_values f ((k, a) ∷ m) = (k, f a) ∷ map_values f m

unfoldable pub exported_cluster : Cluster → Cluster
unfolding map_values exported_node
exported_cluster c = record c {
  nodes = map_values exported_node c.nodes;
  graveyard = map_values exported_node c.graveyard;
}

-- What DeserializeSchedulerState reads back from what `serialize` writes.
unfoldable pub exported : SchedulerState → SchedulerState
unfolding exported_cluster
exported s = record s {
  clusters = map_values exported_cluster s.clusters;
  graveyard = map_values exported_cluster s.graveyard;
}

-- How a write to Zookeeper ends, its retries included: a write that is not acknowledged has been
-- made for all that.
pub data Write : Type 0 where
  written refused unacknowledged : Write

-- Zookeeper: how the write of the given call of Persist ends.
abbrev pub Zookeeper : Type 0
Zookeeper = ℕ → Write

-- SetData panics once its retries are used up, and returns no error otherwise.
unfoldable pub set_data : Write → Core → Outcome (Unit {0})
unfolding exported
set_data written core =
    done (record core { stored = exported core.state; persists = suc core.persists }) tt
set_data refused core = panics (record core { persists = suc core.persists })
set_data unacknowledged core =
    panics (record core { stored = exported core.state; persists = suc core.persists })

unfoldable pub persist : Zookeeper → Core → Outcome (Unit {0})
unfolding set_data
persist zk core = set_data (zk core.persists) core

abbrev pub with_clusters : Core → Map Cluster → Core
with_clusters core m = record core { state = record (core.state) { clusters = m } }

-- Registered. The error of Persist is only logged.
unfoldable pub registered : Zookeeper → Text → Core → Outcome (Unit {0})
unfolding persist
registered zk framework_id core =
    continue
      (persist zk
        (record core { state = record (core.state) { framework_id = some framework_id } }))
      (λ core' _. done (record core' { enabled = true }) tt)

unfoldable pub reregistered : Core → Outcome (Unit {0})
reregistered core = done (record core { enabled = true }) tt

-- GetSchedulerState and NewSchedulerCore after a restart of the scheduler: the stored state is
-- loaded, and Run sets the master.
unfoldable pub restarted : Text → Core → Core
restarted mesos_master core = record core {
  state = record (core.stored) { mesos_master = mesos_master };
  enabled = false;
}

-- The first loop of StatusUpdate: the clusters after it and whether one has the node; `none` where
-- the handler dereferences nil.
unfoldable pub update_first : Explorer → TaskStatus → Map Cluster → Option (Map Cluster × Bool)
update_first ex status [] = some ([], false)
update_first ex status ((k, c) ∷ m) =
    let rest = update_first ex status m in
    if has_node status.task_id c
    then elim (handle_node_status_update ex status c) [
      | none ↦ none
      | some c' ↦ some ((k, c') ∷ m, true)
    ]
    else elim rest [ none ↦ none | some (m', found) ↦ some ((k, c) ∷ m', found) ]

-- StatusUpdate. The search of the killed clusters only logs.
unfoldable pub status_update : Explorer → Zookeeper → TaskStatus → Core → Outcome (Unit {0})
unfolding persist update_first
status_update ex zk status core = elim (update_first ex status core.state.clusters) [
  | none ↦ panics core
  | some (m, found) ↦
      if found then persist zk (with_clusters core m) else done (with_clusters core m) tt
]
