-- ===== src/Tests/Rounds.antt =====
-- A round of the reconciliation.
use riak_mesos_legacy.Base.{◌≡◌, refl, false, [], ◌∷◌, some, none, arith}
use riak_mesos_legacy.Base.Text.{codes, itoa, text_eq}
use riak_mesos_legacy.Base.Map.{insert, erase}
use riak_mesos_legacy.Scheduler.ProcessState.{shutdown}
use riak_mesos_legacy.Scheduler.Node
use riak_mesos_legacy.Scheduler.Node.{Node, current_id, can_be_killed}
use riak_mesos_legacy.Scheduler.Cluster.{
  Cluster, get_nodes_to_kill_or_remove, get_nodes_to_restart, remove_node,
}
use riak_mesos_legacy.Scheduler.Cluster.Numbering.{IsNumbered}
use riak_mesos_legacy.Scheduler.Reconcile.{
  Driver, accepted, Round, stop_nodes, remove_nodes, kill_round,
}
use riak_mesos_legacy.Tests.Sample.{cluster, up_node, id_1}

abbrev driver : Driver
driver = record { send_finish = λ id slave. accepted; kill_task = λ id. accepted }

-- The cluster with its node shut down for good.
abbrev doomed : Cluster
doomed = record cluster {
  nodes =
      (id_1, record (up_node 1) { destination_state = shutdown; current_state = shutdown }) ∷ [];
}

doomed-IsNumbered : IsNumbered (codes "riak") doomed
unfolding current_id itoa
doomed-IsNumbered = record {
  live = (
    record { key = refl; framework_name = refl; cluster_name = refl; numbered = omega arith },
    tt,
  );
  dead = tt;
  live_keys = (tt, tt);
  dead_keys = tt;
  apart = (tt, tt);
}

abbrev no_round : Round
no_round = record { cluster = cluster; buried = false; dirty = false; requests = [] }

abbrev round : Round
round = elim (kill_round driver doomed) [ none ↦ no_round | some r ↦ r ]

doomed-round : kill_round driver doomed ≡ some round
unfolding kill_round get_nodes_to_kill_or_remove can_be_killed Node.can_be_removed stop_nodes
    remove_nodes remove_node get_nodes_to_restart insert erase text_eq current_id itoa
doomed-round = refl

-- The node is buried.
round-removes : round.cluster.nodes ≡ []
unfolding kill_round get_nodes_to_kill_or_remove can_be_killed Node.can_be_removed stop_nodes
    remove_nodes remove_node get_nodes_to_restart insert erase text_eq current_id itoa
round-removes = refl
