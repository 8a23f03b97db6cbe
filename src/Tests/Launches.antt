-- ===== src/Tests/Launches.antt =====
-- An offer on which a node with a reservation is launched, also after a restart.
use riak_mesos_legacy.Base.{◌≡◌, ◌⊎◌, refl, List, [], ◌∷◌, some, none, length, All}
use riak_mesos_legacy.Base.Int.{pos, ◌+ℤ◌, ◌-ℤ◌}
use riak_mesos_legacy.Base.Text.{Text, codes, text_eq}
use riak_mesos_legacy.Mesos.{Resource, Offer, Operation}
use riak_mesos_legacy.Common.Ranges.{
  ports_of, port_iterator, ranges_to_array, array_to_ranges, sort, less, extend_ranges,
}
use riak_mesos_legacy.Common.Offer.{
  new_offer_helper, get_ports, get_resource, apply, apply_scalars, apply_reserved, apply_unreserved,
  take_ports, slice_loc, ports_ask, scalar_ask, disk_ask, can_fit, operations, maybe_unreserve,
  has_persistence_id,
}
use riak_mesos_legacy.Common.Offer.Exclusive.{NoLaunch, NoReturn}
use riak_mesos_legacy.Common.Offer.Launched.{Launches}
use riak_mesos_legacy.Scheduler.ProcessState.{reserved}
use riak_mesos_legacy.Scheduler.Node.{
  Node, needs_to_be_reconciled, can_be_scheduled, has_requested_reservation, apply_reserved_offer,
  take_asks,
}
use riak_mesos_legacy.Scheduler.Cluster.{apply_offer, visit, visits}
use riak_mesos_legacy.Scheduler.Core.{Core, done, panics, persist, set_data, exported, restarted}
use riak_mesos_legacy.Scheduler.Offers.{operations_for_offer, offer_to_cluster, offer_to_clusters}
use riak_mesos_legacy.Scheduler.Offers.Exclusive.{operations_for_offer-exclusive}
use riak_mesos_legacy.Tests.Sample.{
  fresh_node, offer, util-IsMesosUtil, outside, config, id_1, cluster, state, core, zookeeper,
}

abbrev amount : Text → Resource
amount name = record {
  name = name;
  scalar = some (pos 100000);
  ranges = none;
  role = none;
  reservation = none;
  disk = none;
}

abbrev kept : Text → Resource
kept name = record (amount name) { reservation = some (record { principal = none }) }

-- An offer with free resources, five ports and what a node has reserved.
abbrev full_offer : Offer
full_offer = record offer {
  resources =
      amount (codes "cpus")
      ∷ amount (codes "mem")
      ∷ amount (codes "disk")
      ∷ record (amount (codes "ports")) {
        scalar = none;
        ranges = some (record { begin = 31000; end = 31004 } ∷ []);
      }
      ∷ kept (codes "cpus")
      ∷ kept (codes "mem")
      ∷ kept (codes "disk")
      ∷ [];
}

abbrev waiting : Node
waiting = record (fresh_node 1) {
  current_state = reserved;
  slave_id = some (codes "slave");
  hostname = codes "host";
}

abbrev ready : Core
ready = record core {
  state = record state {
    clusters = (codes "c", record cluster { nodes = (id_1, waiting) ∷ [] }) ∷ [];
  };
}

-- What the scheduler asks for on the offer.
abbrev asked : Core × List Operation
asked = elim (operations_for_offer config outside zookeeper full_offer ready) [
  | done c ops ↦ (c, ops)
  | panics c ↦ (c, [])
]

ready-asked :
    operations_for_offer config outside zookeeper full_offer ready ≡ done (asked.0) (asked.1)
unfolding operations_for_offer new_offer_helper offer_to_clusters offer_to_cluster apply_offer
    visits visit needs_to_be_reconciled can_be_scheduled has_requested_reservation get_ports
    get_resource ports_of apply_reserved_offer take_asks apply apply_scalars apply_reserved
    apply_unreserved take_ports slice_loc can_fit port_iterator persist set_data text_eq
    has_persistence_id ranges_to_array array_to_ranges ports_ask scalar_ask disk_ask ◌+ℤ◌ ◌-ℤ◌ sort
    less extend_ranges
ready-asked = refl

-- One launch of one task.
asked-launches : length (asked.1) ≡ 1
unfolding operations_for_offer new_offer_helper offer_to_clusters offer_to_cluster apply_offer
    visits visit needs_to_be_reconciled can_be_scheduled has_requested_reservation get_ports
    get_resource ports_of apply_reserved_offer take_asks apply apply_scalars apply_reserved
    apply_unreserved take_ports slice_loc can_fit port_iterator persist set_data text_eq
    has_persistence_id ranges_to_array array_to_ranges ports_ask scalar_ask disk_ask ◌+ℤ◌ ◌-ℤ◌
    operations sort less extend_ranges maybe_unreserve
asked-launches = refl

operations_for_offer-exclusive_example : All NoLaunch (asked.1) ⊎ All NoReturn (asked.1)
operations_for_offer-exclusive_example =
    operations_for_offer-exclusive config outside zookeeper full_offer ready (asked.0) (asked.1)
      util-IsMesosUtil ready-asked

abbrev stored_core : Core
stored_core = record ready { stored = exported ready.state; persists = 1 }

-- What it asks for on the offer after a restart.
abbrev asked_again : Core × List Operation
asked_again =
    elim (operations_for_offer config outside zookeeper full_offer
      (restarted (codes "other") stored_core)) [ done c ops ↦ (c, ops) | panics c ↦ (c, []) ]
