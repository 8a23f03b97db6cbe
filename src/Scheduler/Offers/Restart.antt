-- ===== src/Scheduler/Offers/Restart.antt =====
-- What ResourceOffers of scheduler/scheduler.go launches after a restart (scheduler/state.go: Persist and
-- GetSchedulerState).
use riak_mesos_legacy.Base.{◌≡◌, ◌⊎◌, true, [], ◌∷◌}
use riak_mesos_legacy.Base.Text.{Text}
use riak_mesos_legacy.Base.Map.{Map}
use riak_mesos_legacy.Mesos.{TaskInfo, Offer}
use riak_mesos_legacy.Common.Offer.Launched.{Launches}
use riak_mesos_legacy.Scheduler.ProcessState.{reserved, at_most}
use riak_mesos_legacy.Scheduler.Config.{Config}
use riak_mesos_legacy.Scheduler.Node.{Node, current_id}
use riak_mesos_legacy.Scheduler.Cluster.{Cluster}
use riak_mesos_legacy.Scheduler.Core.{Core}

-- The task is that of a node that has not been launched: at most its reservation was asked for.
pub record IsUnlaunched (t : TaskInfo) (n : Node) : Type 0 where
  pub task_id : t.task_id ≡ current_id n
  pub at_rest : at_most n.current_state reserved ≡ true

abbrev pub UnlaunchedIn : TaskInfo → Map Node → Type 0
UnlaunchedIn t [] = ⊥
UnlaunchedIn t ((k, n) ∷ m) = IsUnlaunched t n ⊎ UnlaunchedIn t m

abbrev pub UnlaunchedInAny : TaskInfo → Map Cluster → Type 0
UnlaunchedInAny t [] = ⊥
UnlaunchedInAny t ((k, c) ∷ m) = UnlaunchedIn t c.nodes ⊎ UnlaunchedInAny t m
