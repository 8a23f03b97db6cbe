-- ===== src/Scheduler/Node/Offers.antt =====
-- ApplyUnreservedOffer of scheduler/node.go: what a node takes of an offer that it reserves.
use riak_mesos_legacy.Base.{◌≡◌, refl, false, ◌++◌, some, arith}
use riak_mesos_legacy.Base.Int.{ℤ, pos, ◌+ℤ◌, ◌≤ℤ◌}
use riak_mesos_legacy.Common.Offer.{OfferHelper, can_fit_unreserved}
use riak_mesos_legacy.Common.Offer.Asked.{amounts}
use riak_mesos_legacy.Common.Offer.Apply.{IsCharged, IsSolvent}
use riak_mesos_legacy.Common.Offer.Calls.{reserver, volume_ask}
use riak_mesos_legacy.Scheduler.ProcessState.{reserved}
use riak_mesos_legacy.Scheduler.Config.{Outside}
use riak_mesos_legacy.Scheduler.Node.{Node, node_ask, whole_ask, owner, apply_unreserved_offer}

-- The amounts of the settings are not negative.
pub record IsSane (n : Node) : Type 0 where
  pub cpus : pos 0 ≤ℤ n.cpus
  pub mem : pos 0 ≤ℤ n.mem
  pub disk : pos 0 ≤ℤ n.disk

-- A node has made its reservation: what it and its executor need, and no more, is gone from the offer;
-- what the node itself needs is to be reserved, and its disk to be a volume, for its owner; the node
-- stands on the offer's slave, and nothing is launched or given back.
pub record IsReserved (out : Outside) (n : Node) (h : OfferHelper) (n' : Node) (h' : OfferHelper)
    : Type 0 where
  pub charged : IsCharged h.unreserved_resources h'.unreserved_resources (whole_ask n)
  pub solvent : IsSolvent h'.unreserved_resources
  pub reserve :
      h'.resources_to_reserve
      ≡ h.resources_to_reserve
        ++ amounts out.util out.intn (node_ask n 0) (reserver n.principal n.role)
  pub create :
      h'.volumes_to_create
      ≡ h.volumes_to_create ++ amounts out.util out.intn (volume_ask n.disk) (owner n)
  pub kept : h'.reserved_resources ≡ h.reserved_resources
  pub tasks : h'.tasks_to_launch ≡ h.tasks_to_launch
  pub unreserve : h'.resources_to_unreserve ≡ h.resources_to_unreserve
  pub destroy : h'.volumes_to_destroy ≡ h.volumes_to_destroy
  pub slave : n'.slave_id ≡ h.mesos_offer.slave_id
  pub hostname : n'.hostname ≡ h.mesos_offer.hostname
  pub state : n'.current_state ≡ reserved

pub pos_zero : (a : ℤ) → pos 0 +ℤ a ≡ a
unfolding ◌+ℤ◌
pos_zero a = ground arith

-- A node whose needs the offer does not meet changes nothing.
apply_unreserved_offer-refused :
    (out : Outside) (n : Node) (h : OfferHelper)
    → can_fit_unreserved h (whole_ask n) ≡ false
    → apply_unreserved_offer out n h ≡ some (n, h, false)
unfolding apply_unreserved_offer
apply_unreserved_offer-refused out n h unfit = rw unfit refl
