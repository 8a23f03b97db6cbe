-- ===== src/Scheduler/Node/Identity.antt =====
-- The names of a node (scheduler/node.go).
use riak_mesos_legacy.Base.{◌+◌, ◌≡◌, ◌≢◌, arith}
use riak_mesos_legacy.Base.Text.{codes, append_cancel, itoa, itoa_inj}
use riak_mesos_legacy.Base.Split.{last_part_inj, itoa-Plain}
use riak_mesos_legacy.Mesos.{Offer}
use riak_mesos_legacy.Scheduler.Node.{Node, current_id, executor_id, launched}

-- Two nodes of one cluster with the same id have the same number.
pub current_id_inj :
    (m n : Node)
    → m.framework_name ≡ n.framework_name
    → m.cluster_name ≡ n.cluster_name
    → current_id m ≡ current_id n
    → m.simple_id ≡ n.simple_id
unfolding current_id
current_id_inj m n f c e = itoa_inj (
    append_cancel (codes "-") (
      append_cancel n.cluster_name
        (append_cancel (codes "-") (append_cancel n.framework_name (rw (f, c) at e)))))

-- Two nodes of one framework with the same id are of the same cluster: the number has no dash.
pub current_id-cluster_name :
    (m n : Node)
    → m.framework_name ≡ n.framework_name
    → current_id m ≡ current_id n
    → m.cluster_name ≡ n.cluster_name
unfolding current_id
current_id-cluster_name m n f e =
    last_part_inj b'-' m.cluster_name n.cluster_name (itoa m.simple_id) (itoa n.simple_id)
      (itoa-Plain b'-' m.simple_id (omega arith)) (itoa-Plain b'-' n.simple_id (omega arith))
      (append_cancel (codes "-") (append_cancel n.framework_name (rw f at e)))

-- A launch changes the executor id of the node.
pub executor_id-launched :
    (n : Node) (offer : Offer) → executor_id (launched n offer) ≢ executor_id n
unfolding executor_id
executor_id-launched n offer e =
    let same : n.generation + 1 ≡ n.generation = itoa_inj (
      append_cancel (codes "-") (
        append_cancel n.uuid (
          append_cancel (codes "-") (
            append_cancel n.cluster_name
              (append_cancel (codes "-") (append_cancel n.framework_name e)))))) in
    absurd (omega arith)
