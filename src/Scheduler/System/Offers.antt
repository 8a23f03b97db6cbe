-- ===== src/Scheduler/System/Offers.antt =====
-- ResourceOffers of scheduler/scheduler.go and the state.
use riak_mesos_legacy.Base.{
  Option, ◌≡◌, refl, ap, sym, subst, ◌∙◌, inl, inr, Bool, List, [], ◌∷◌, ◌++◌, some, arith,
  Bool-cases, Option-cases,
}
use riak_mesos_legacy.Base.Text.{Text}
use riak_mesos_legacy.Base.Map.{Map}
use riak_mesos_legacy.Mesos.{Offer, Operation}
use riak_mesos_legacy.Common.Offer.{OfferHelper, new_offer_helper}
use riak_mesos_legacy.Scheduler.Config.{Config, Outside}
use riak_mesos_legacy.Scheduler.Cluster.{Cluster, apply_offer}
use riak_mesos_legacy.Scheduler.Cluster.Numbering.Rewrites.{apply_offer-IsNumbered}
use riak_mesos_legacy.Scheduler.Core.{
  Core, Outcome, done, panics, continue, Write, written, refused, unacknowledged, Zookeeper,
  set_data, persist, with_clusters,
}
use riak_mesos_legacy.Scheduler.Offers.{
  offer_to_cluster, offer_to_clusters, operations_for_offer, create_operations_for_offers,
  resource_offers,
}
use riak_mesos_legacy.Scheduler.System.Sound.{
  AllKept, BothSound, Leaves, Keeps, Along-AllKept, Along-middle, persist-Leaves, continue-Leaves,
  with_clusters-BothSound,
}

apply_offer-name :
    (sc : Config) (out : Outside) (c c' : Cluster) (h h' : OfferHelper) (dirty needs : Bool)
    → apply_offer sc out c h ≡ some (c', h', dirty, needs)
    → c'.name ≡ c.name
unfolding apply_offer
apply_offer-name sc out c c' h h' dirty needs e = ground arith

append-middle :
    (before rest : Map Cluster) (entry : Text × Cluster)
    → (before ++ entry ∷ []) ++ rest ≡ before ++ entry ∷ rest
append-middle [] rest entry = refl
append-middle (x ∷ before) rest entry = ap (λ m. x ∷ m) (append-middle before rest entry)

-- Where the offer to a cluster has been made, the cluster stands in its place.
abbrev IsPut : Map Cluster → Text → Map Cluster → Outcome (Cluster × OfferHelper × Bool) → Type 0
IsPut before k rest (done core r) = core.state.clusters ≡ before ++ (k, r.0) ∷ rest
IsPut before k rest (panics core) = Unit

stored-IsPut :
    (before rest : Map Cluster) (k : Text) (r : Cluster × OfferHelper × Bool) (core : Core)
    (w : Write)
    → core.state.clusters ≡ before ++ (k, r.0) ∷ rest
    → IsPut before k rest (continue (set_data w core) (λ core' _. done core' r))
unfolding set_data
stored-IsPut before rest k r core written e = e
stored-IsPut before rest k r core refused e = tt
stored-IsPut before rest k r core unacknowledged e = tt

module _ (sc : Config) (out : Outside) (zk : Zookeeper) where
  offer_to_cluster-IsPut :
      (before rest : Map Cluster) (k : Text) (c : Cluster) (h : OfferHelper) (core : Core)
      → IsPut before k rest (offer_to_cluster sc out zk before k c rest h core)
  unfolding offer_to_cluster persist
  offer_to_cluster-IsPut before rest k c h core = elim (Option-cases (apply_offer sc out c h)) [
    | inl e ↦ rw (IsPut, e) tt
    | inr ((c', h', dirty, needs), e) ↦ elim (Bool-cases dirty) [
      | inl b ↦
          rw (IsPut, e, b) (stored-IsPut before rest k (c', h', needs) _ (zk core.persists) refl)
      | inr b ↦ rw (IsPut, e, b) refl
    ]
  ]

  module _ (framework : Text) (P : Option Text → Type 0) where
    offer_to_cluster-Leaves :
        (before rest : Map Cluster) (k : Text) (c : Cluster) (h : OfferHelper) (core : Core)
        → AllKept framework (before ++ (k, c) ∷ rest)
        → BothSound framework P core
        → Leaves framework P (offer_to_cluster sc out zk before k c rest h core)
    unfolding offer_to_cluster
    offer_to_cluster-Leaves before rest k c h core kept v =
        elim (Option-cases (apply_offer sc out c h)) [
          | inl e ↦ rw (Leaves, e) v
          | inr ((c', h', dirty, needs), e) ↦
              let same : Keeps framework c c' = record {
                name = apply_offer-name sc out c c' h h' dirty needs e;
                numbered =
                    λ w. (apply_offer-IsNumbered framework sc out c c' h h' dirty needs w e).0;
              } in
              let core' = with_clusters core (before ++ (k, c') ∷ rest) in
              let v' =
                with_clusters-BothSound framework P core _
                  (Along-AllKept framework _ _ (Along-middle framework before rest k c c' same)
                    kept)
                  v in
              elim (Bool-cases dirty) [
                | inl b ↦
                    rw (Leaves, e, b)
                      (continue-Leaves framework P (persist zk core') _
                        (persist-Leaves framework P zk core' v') (λ core'' _ _ w. w))
                | inr b ↦ rw (Leaves, e, b) v'
              ]
        ]

    offer_to_clusters-Leaves :
        (before rest : Map Cluster) (h : OfferHelper) (core : Core)
        → core.state.clusters ≡ before ++ rest
        → BothSound framework P core
        → Leaves framework P (offer_to_clusters sc out zk before rest h core)
    unfolding offer_to_clusters
    offer_to_clusters-Leaves before [] h core p v = v
    offer_to_clusters-Leaves before ((k, c) ∷ rest) h core p v =
        let first = offer_to_cluster sc out zk before k c rest h core in
        continue-Leaves framework P first _
          (offer_to_cluster-Leaves before rest k c h core (subst (AllKept framework) p v.0.live) v)
          (λ core' r e w.
            let put : core'.state.clusters ≡ before ++ (k, r.0) ∷ rest =
              subst (IsPut before k rest) e (offer_to_cluster-IsPut before rest k c h core) in
            continue-Leaves framework P
              (offer_to_clusters sc out zk (before ++ (k, r.0) ∷ []) rest r.1 core') _
              (offer_to_clusters-Leaves (before ++ (k, r.0) ∷ []) rest r.1 core'
                (put ∙ sym (append-middle before rest (k, r.0))) w)
              (λ core'' s _ w'. w'))

    operations_for_offer-Leaves :
        (offer : Offer) (core : Core)
        → BothSound framework P core
        → Leaves framework P (operations_for_offer sc out zk offer core)
    unfolding operations_for_offer
    operations_for_offer-Leaves offer core v =
        elim (Option-cases (new_offer_helper out.util offer)) [
          | inl e ↦ rw (Leaves, e) v
          | inr (h, e) ↦
              rw (Leaves, e)
                (continue-Leaves framework P
                  (offer_to_clusters sc out zk [] core.state.clusters h core) _
                  (offer_to_clusters-Leaves [] core.state.clusters h core refl v)
                  (λ core' r _ w. w))
        ]

    create_operations_for_offers-Leaves :
        (offers : List Offer) (found : Map (List Operation)) (core : Core)
        → BothSound framework P core
        → Leaves framework P (create_operations_for_offers sc out zk offers found core)
    unfolding create_operations_for_offers
    create_operations_for_offers-Leaves [] found core v = v
    create_operations_for_offers-Leaves (offer ∷ offers) found core v =
        continue-Leaves framework P (operations_for_offer sc out zk offer core) _
          (operations_for_offer-Leaves offer core v)
          (λ core' ops _ w. create_operations_for_offers-Leaves offers _ core' w)

    pub resource_offers-Leaves :
        (offers : List Offer) (core : Core)
        → BothSound framework P core
        → Leaves framework P (resource_offers sc out zk offers core)
    unfolding resource_offers
    resource_offers-Leaves offers core v =
        continue-Leaves framework P (create_operations_for_offers sc out zk offers [] core) _
          (create_operations_for_offers-Leaves offers [] core v) (λ core' found _ w. w)
