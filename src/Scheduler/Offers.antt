-- ===== src/Scheduler/Offers.antt =====
-- ResourceOffers of scheduler/scheduler.go: what is asked for on each offer.
pub mod Exclusive
pub mod Due
pub mod Launches
pub mod Restart
use riak_mesos_legacy.Base.{
  Bool, true, false, ◌||◌, List, [], ◌∷◌, ◌++◌, Option, none, some, if◌then◌else◌,
}
use riak_mesos_legacy.Base.Text.{Text}
use riak_mesos_legacy.Base.Map.{Map, lookup, insert}
use riak_mesos_legacy.Mesos.{Offer, Operation, launch, TaskInfo}
use riak_mesos_legacy.Common.Offer.{OfferHelper, new_offer_helper, maybe_unreserve, operations}
use riak_mesos_legacy.Scheduler.Config.{Config, Outside}
use riak_mesos_legacy.Scheduler.Cluster.{Cluster, apply_offer}
use riak_mesos_legacy.Scheduler.Core.{
  Core, Outcome, done, panics, continue, Zookeeper, persist, with_clusters,
}

-- ApplyOffer for the cluster at the head of `rest`, with the write of a dirty state. `before` holds
-- the clusters that the loop has passed, so that the write stores the whole map.
unfoldable pub offer_to_cluster :
    Config
    → Outside
    → Zookeeper
    → Map Cluster
    → Text
    → Cluster
    → Map Cluster
    → OfferHelper
    → Core
    → Outcome (Cluster × OfferHelper × Bool)
offer_to_cluster sc out zk before k c rest h core = elim (apply_offer sc out c h) [
  | none ↦ panics core
  | some (c', h', dirty, needs) ↦
      let core' = with_clusters core (before ++ (k, c') ∷ rest) in
      if dirty
      then continue (persist zk core') (λ core'' _. done core'' (c', h', needs))
      else done core' (c', h', needs)
]

-- The loop over the clusters for one offer: the offer and `needsReconciliation`.
unfoldable pub offer_to_clusters :
    Config
    → Outside
    → Zookeeper
    → Map Cluster
    → Map Cluster
    → OfferHelper
    → Core
    → Outcome (OfferHelper × Bool)
unfolding offer_to_cluster
offer_to_clusters sc out zk before [] h core = done core (h, false)
offer_to_clusters sc out zk before ((k, c) ∷ rest) h core =
    continue (offer_to_cluster sc out zk before k c rest h core) (λ core' r.
      continue (offer_to_clusters sc out zk (before ++ (k, r.0) ∷ []) rest r.1 core')
        (λ core'' s. done core'' (s.0, r.2 || s.1)))

-- The operations for one offer.
unfoldable pub operations_for_offer :
    Config → Outside → Zookeeper → Offer → Core → Outcome (List Operation)
unfolding offer_to_clusters
operations_for_offer sc out zk offer core = elim (new_offer_helper out.util offer) [
  | none ↦ panics core
  | some h ↦ continue (offer_to_clusters sc out zk [] core.state.clusters h core) (λ core' r.
      done core' (operations out.util (if r.1 then r.0 else maybe_unreserve out.util (r.0))))
]

unfoldable pub create_operations_for_offers :
    Config
    → Outside
    → Zookeeper
    → List Offer
    → Map (List Operation)
    → Core
    → Outcome (Map (List Operation))
unfolding operations_for_offer
create_operations_for_offers sc out zk [] found core = done core found
create_operations_for_offers sc out zk (offer ∷ offers) found core =
    continue (operations_for_offer sc out zk offer core)
      (λ core' ops. create_operations_for_offers sc out zk offers (insert offer.id ops found) core')

-- A call of the Mesos driver.
pub data DriverCall : Type 0 where
  launch_tasks : Text → List TaskInfo → DriverCall
  accept_offers : Text → List Operation → DriverCall

abbrev is_launch : Operation → Bool
is_launch op = elim op.kind [ launch ↦ true | _ ↦ false ]

-- The loop of acceptOffer in compatibility mode: the tasks of the last launch.
unfoldable pub launched_tasks : List TaskInfo → List Operation → List TaskInfo
launched_tasks tasks [] = tasks
launched_tasks tasks (op ∷ ops) = launched_tasks (if is_launch op then op.task_infos else tasks) ops

-- acceptOffer up to the driver's reply, which can only end the process.
unfoldable pub accept_offer : Config → Offer → List Operation → DriverCall
unfolding launched_tasks
accept_offer sc offer ops =
    if sc.compatibility_mode
    then launch_tasks offer.id (launched_tasks [] ops)
    else accept_offers offer.id ops

abbrev or_empty : Option (List Operation) → List Operation
or_empty none = []
or_empty (some ops) = ops

calls : Config → Map (List Operation) → List Offer → List DriverCall
unfolding accept_offer
calls sc found [] = []
calls sc found (offer ∷ offers) =
    accept_offer sc offer (or_empty (lookup offer.id found)) ∷ calls sc found offers

-- ResourceOffers: the driver's calls, one for each offer; they run side by side.
unfoldable pub resource_offers :
    Config → Outside → Zookeeper → List Offer → Core → Outcome (List DriverCall)
unfolding create_operations_for_offers calls
resource_offers sc out zk offers core =
    continue (create_operations_for_offers sc out zk offers [] core)
      (λ core' found. done core' (calls sc found offers))
