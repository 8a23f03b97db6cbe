-- ===== src/Tests/Clusters.antt =====
-- Nodes and clusters.
use riak_mesos_legacy.Base.{
  ℕ, ◌<◌, ◌≡◌, ◌≢◌, ◌↔◌, refl, Bool, true, false, [], ◌∷◌, some, none, arith, length, All,
  if◌then◌else◌,
}
use riak_mesos_legacy.Base.Text.{Text, codes, text_eq, itoa}
use riak_mesos_legacy.Base.Map.{lookup, insert, has}
use riak_mesos_legacy.Mesos.{task_running}
use riak_mesos_legacy.Base.Int.{◌+ℤ◌, ◌-ℤ◌}
use riak_mesos_legacy.Common.Offer.{
  OfferHelper, can_fit, apply_unreserved, make_reservation, make_volume, apply, apply_scalars,
  take_ports, slice_loc, ports_ask,
}
use riak_mesos_legacy.Scheduler.ProcessState.{reserved, starting}
use riak_mesos_legacy.Scheduler.Node
use riak_mesos_legacy.Scheduler.Node.{
  Node, current_id, executor_id, launched, can_be_scheduled, can_join_cluster, can_be_joined,
  needs_to_be_reconciled, apply_unreserved_offer, has_requested_reservation, has_restarted,
  is_restarting, restart, finish, start, run, kill_next,
}
use riak_mesos_legacy.Scheduler.Explorer.{full_name, rex_hostname, do_join, attempts}
use riak_mesos_legacy.RiakExplorer.Address.{Command, command_uri, command_url}
use riak_mesos_legacy.Scheduler.Explorer.Retries.{IsAccepted, do_join_iff}
use riak_mesos_legacy.Scheduler.Cluster.{
  Cluster, create_node, join, join_any, updated, handle_node_status_update, apply_offer,
  get_nodes_to_restart, visit,
}
use riak_mesos_legacy.Scheduler.Cluster.Membership.{
  Accepted, handle_node_status_update_lem, join_lem, state_after,
}
use riak_mesos_legacy.Scheduler.Cluster.Numbering.{IsNumbered, create_node-IsNumbered}
use riak_mesos_legacy.Scheduler.Cluster.Rolling.{Restarted, rolling_ends_iff, rolling_picks_first}
use riak_mesos_legacy.Tests.Sample.{
  outside, config, fresh_node, up_node, id_1, id_2, cluster, pair, explorer, running, offer, helper,
}

fresh_node-can_be_scheduled : can_be_scheduled (fresh_node 1) ≡ true
unfolding can_be_scheduled
fresh_node-can_be_scheduled = ground arith

do_join_iff_example : (do_join explorer (up_node 1) (up_node 2) ≡ true) ↔ (
    (k : ℕ) × (k < 6)
    × IsAccepted (explorer.json.changed (codes "join")) (codes "not_single_node") (
        (explorer.web k).get (
          command_url
            (rex_hostname (up_node 1))
            (command_uri (Command.join (full_name (up_node 2)) (full_name (up_node 1)))))))
do_join_iff_example = do_join_iff explorer (up_node 1) (up_node 2)

id_1-current_id : id_1 ≡ current_id (up_node 1)
unfolding current_id itoa
id_1-current_id = refl

cluster-IsNumbered : IsNumbered (codes "riak") cluster
cluster-IsNumbered = record {
  live = (
    record {
      key = id_1-current_id;
      framework_name = refl;
      cluster_name = refl;
      numbered = omega arith;
    },
    tt,
  );
  dead = tt;
  live_keys = (tt, tt);
  dead_keys = tt;
  apart = (tt, tt);
}

abbrev second : Node
second = record (fresh_node 2) { ports = 10 }

create_node-second :
    create_node config outside (codes "uuid") cluster
    ≡ some (record cluster { nodes = insert (current_id second) second cluster.nodes }, second)
unfolding create_node Node.new_framework_riak_node
create_node-second = refl

create_node_example :
    let c' : Cluster = record cluster { nodes = insert (current_id second) second cluster.nodes } in
    IsNumbered (codes "riak") c'
    × (has (current_id second) cluster.nodes ≡ false)
    × (has (current_id second) cluster.graveyard ≡ false)
    × ((k : Text)
        → lookup k c'.nodes
          ≡ (if text_eq (current_id second) k then some second else lookup k cluster.nodes))
    × (c'.graveyard ≡ cluster.graveyard)
create_node_example =
    create_node-IsNumbered (codes "riak") config outside (codes "uuid") cluster _ second refl
      cluster-IsNumbered create_node-second

up_node-lookup : lookup (current_id (up_node 1)) cluster.nodes ≡ some (up_node 1)
unfolding lookup text_eq current_id itoa
up_node-lookup = refl

-- The cluster with its node as it was created, and what the offer makes of it.
abbrev young : Cluster
young = record cluster { nodes = (id_1, fresh_node 1) ∷ [] }

abbrev offered : Cluster × OfferHelper × Bool × Bool
offered = elim (apply_offer config outside young helper) [
  | none ↦ (cluster, helper, false, false)
  | some r ↦ r
]

young-offered : apply_offer config outside young helper ≡ some (offered.0, offered.1, true, false)
unfolding apply_offer visit needs_to_be_reconciled can_be_scheduled apply_unreserved_offer
    has_requested_reservation apply_unreserved make_reservation make_volume apply apply_scalars
    take_ports slice_loc ports_ask can_fit ◌+ℤ◌ ◌-ℤ◌
young-offered = refl

young-reserves :
    lookup id_1 (offered.0).nodes
    ≡ some (record (fresh_node 1) {
      slave_id = offer.slave_id;
      hostname = offer.hostname;
      current_state = reserved;
    })
unfolding lookup text_eq apply_offer visit needs_to_be_reconciled can_be_scheduled
    apply_unreserved_offer has_requested_reservation apply_unreserved make_reservation make_volume
    apply apply_scalars take_ports slice_loc ports_ask can_fit ◌+ℤ◌ ◌-ℤ◌
young-reserves = refl

young-IsNumbered : IsNumbered (codes "riak") young
unfolding current_id
young-IsNumbered = record {
  live = (
    record {
      key = id_1-current_id;
      framework_name = refl;
      cluster_name = refl;
      numbered = omega arith;
    },
    tt,
  );
  dead = tt;
  live_keys = (tt, tt);
  dead_keys = tt;
  apart = (tt, tt);
}

id_1-lookup : lookup id_1 cluster.nodes ≡ some (up_node 1)
unfolding lookup text_eq
id_1-lookup = refl

abbrev starting_node : Node
starting_node = record (up_node 2) { current_state = starting }

abbrev pair_after : Cluster
pair_after = record pair {
  nodes =
      (id_1, up_node 1)
      ∷ (
        id_2,
        record (up_node 2) { task_status = some (running id_2); slave_id = some (codes "slave") },
      )
      ∷ [];
}

pair-alive : has id_2 pair.graveyard ≡ false
unfolding has
pair-alive = refl

pair-lookup : lookup id_2 pair.nodes ≡ some starting_node
unfolding lookup text_eq
pair-lookup = refl

pair-updated : handle_node_status_update explorer (running id_2) pair ≡ some pair_after
unfolding handle_node_status_update updated join can_join_cluster run insert lookup has text_eq
pair-updated = refl

handle_node_status_update_lem_example :
    (n' : Node) × (lookup id_1 pair_after.nodes
      ≡ (if text_eq id_2 id_1 then some n' else lookup id_1 pair.nodes))
    × (n'.current_state ≡ state_after task_running starting)
    × (n'.reconciled ≡ true)
    × (n'.task_status ≡ some (running id_2))
    × (n'.slave_id ≡ some (codes "slave"))
handle_node_status_update_lem_example =
    handle_node_status_update_lem explorer (running id_2) pair pair_after starting_node id_1
      pair-alive pair-lookup pair-updated

pair-joins : (join explorer pair.nodes starting_node).1 ≡ true
unfolding join join_any can_join_cluster can_be_joined do_join attempts text_eq
pair-joins = refl

join_lem_example :
    (can_join_cluster starting_node ≡ true)
    × (length pair.nodes ≢ 1)
    × Accepted explorer pair.nodes starting_node
join_lem_example = join_lem explorer pair.nodes starting_node pair-joins

-- The cluster in a rolling restart that is over, and in one that has begun.
abbrev over : Cluster
over = record cluster { is_restarting = true }

abbrev begun : Cluster
begun = record cluster { is_restarting = true; generation = 1 }

over-Restarted : All (Restarted 0) over.nodes
unfolding has_restarted
over-Restarted = (refl, tt)

rolling_ends_iff_example :
    ((get_nodes_to_restart over).0.is_restarting ≡ false) ↔ All (Restarted 0) over.nodes
rolling_ends_iff_example = rolling_ends_iff over refl

begun-waits : (has_restarted 1 (up_node 1) ≡ false) × (is_restarting 1 (up_node 1) ≡ false)
unfolding has_restarted is_restarting
begun-waits = (refl, refl)

rolling_picks_first_example :
    ((get_nodes_to_restart begun).1 ≡ restart 1 (up_node 1) ∷ [])
    × ((get_nodes_to_restart begun).0.nodes ≡ insert id_1 (restart 1 (up_node 1)) begun.nodes)
rolling_picks_first_example =
    rolling_picks_first begun [] id_1 (up_node 1) [] refl refl tt (begun-waits.0) (begun-waits.1)
