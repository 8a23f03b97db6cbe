-- ===== src/Tests/Offers.antt =====
-- Offers and port ranges.
use mathlib.Core.List.{Perm}
use riak_mesos_legacy.Base.{ℕ, ◌≡◌, refl, List, [], ◌∷◌, ◌++◌, some, none, map, arith, length, All}
use riak_mesos_legacy.Base.Int.{pos}
use riak_mesos_legacy.Base.Text.{codes, text_eq}
use riak_mesos_legacy.Mesos.{Resource}
use riak_mesos_legacy.Common.Ranges.{sort, array_to_ranges, ranges_to_array, port_iterator}
use riak_mesos_legacy.Common.Ranges.Sorted.{IsSmall, Ascending, Distinct}
use riak_mesos_legacy.Common.Ranges.RoundTrip.{ranges_to_array-array_to_ranges}
use riak_mesos_legacy.Common.Reserved.{get_persistence_id}
use riak_mesos_legacy.Common.Offer.{
  ResourceGroup, OfferHelper, Ask, nobody, apply, maybe_unreserve, get_persistence_ids,
  apply_scalars, take_ports, slice_loc, ports_ask,
}
use riak_mesos_legacy.Common.Offer.Apply.{IsAsk, IsCharged, apply_lem}
use riak_mesos_legacy.Common.Offer.Ports.{apply-ports}
use riak_mesos_legacy.Common.Offer.Unreserve.{IsTracking, maybe_unreserve-destroys}
use riak_mesos_legacy.Scheduler.Node.{Node}
use riak_mesos_legacy.Tests.Sample.{
  util, util-IsMesosUtil, first, first-IsIntn, offer, helper, unreserved, small_ask,
}

small_ask-IsAsk : IsAsk small_ask
small_ask-IsAsk = record { cpus = omega arith; mem = omega arith; disk = omega arith }

apply_lem_example :
    (g : ResourceGroup) × (rs : List Resource) × (apply util first unreserved small_ask nobody
      ≡ some (g, rs))
    × IsCharged unreserved g small_ask
apply_lem_example =
    apply_lem util first unreserved small_ask nobody first-IsIntn small_ask-IsAsk (omega arith)

abbrev ports_only : Ask
ports_only = record { cpus = pos 0; mem = pos 0; disk = pos 0; ports = 3 }

abbrev left : ResourceGroup
left = record unreserved { ports = 31009 ∷ [] }

abbrev asked : Resource
asked = record {
  name = codes "ports";
  scalar = none;
  ranges = some (array_to_ranges (31005 ∷ 31001 ∷ 31002 ∷ []));
  role = none;
  reservation = none;
  disk = none;
}

unreserved-IsSmall : All IsSmall unreserved.ports
unreserved-IsSmall = ground arith

unreserved-Distinct : Distinct unreserved.ports
unreserved-Distinct = ground arith

apply-asked : apply util first unreserved ports_only nobody ≡ some (left, asked ∷ [])
unfolding apply apply_scalars take_ports slice_loc ports_ask
apply-asked = refl

apply-ports_example :
    (ports : List ℕ) × (port_iterator util (asked ∷ []) ≡ some ports)
    × (length ports ≡ 3)
    × Ascending ports
    × Perm (ports ++ 31009 ∷ []) unreserved.ports
apply-ports_example =
    apply-ports util util-IsMesosUtil first nobody unreserved left ports_only (asked ∷ [])
      first-IsIntn refl unreserved-IsSmall unreserved-Distinct apply-asked

array_to_ranges_example :
    ranges_to_array (array_to_ranges unreserved.ports) ≡ some (sort unreserved.ports)
array_to_ranges_example =
    ranges_to_array-array_to_ranges unreserved.ports unreserved-IsSmall unreserved-Distinct

abbrev volume : Resource
volume = record {
  name = codes "disk";
  scalar = some (pos 1000);
  ranges = none;
  role = some (codes "role");
  reservation = some (record { principal = some (codes "principal") });
  disk = some (record { persistence_id = some (codes "v"); container_path = some (codes "root") });
}

abbrev idle : OfferHelper
idle = record helper {
  mesos_offer = record offer { resources = volume ∷ [] };
  persistence_ids = codes "v" ∷ [];
}

idle-IsTracking : IsTracking util idle
unfolding get_persistence_ids text_eq
idle-IsTracking = refl

maybe_unreserve_example :
    map get_persistence_id (maybe_unreserve util idle).volumes_to_destroy ≡ codes "v" ∷ []
maybe_unreserve_example = maybe_unreserve-destroys util idle idle-IsTracking refl refl

-- The offer with what the node has reserved.
abbrev reserved_helper : OfferHelper
reserved_helper = record helper {
  reserved_resources = record { cpus = pos 1000; mem = pos 1000; disk = pos 1000; ports = [] };
}
