-- ===== src/Scheduler/Offers/Launches.antt =====
-- ResourceOffers of scheduler/scheduler.go: what is launched on an offer.
use mathlib.Core.Option.{some_inj}
use riak_mesos_legacy.Base.{
  ◌≡◌, ◌⊎◌, subst, inl, inr, Bool, List, [], ◌∷◌, ◌++◌, some, arith, All, Option-cases,
}
use riak_mesos_legacy.Base.Opt.{>>=-eq-some}
use riak_mesos_legacy.Base.Text.{Text}
use riak_mesos_legacy.Base.Map.{Map}
use riak_mesos_legacy.Mesos.{TaskInfo, Offer, Operation, MesosUtil, IsMesosUtil}
use riak_mesos_legacy.Common.Offer.{OfferHelper, new_offer_helper}
use riak_mesos_legacy.Common.Offer.Launched.{Launches, given_back-Launches}
use riak_mesos_legacy.Scheduler.Config.{Config, Outside}
use riak_mesos_legacy.Scheduler.Cluster.{Cluster, visits, apply_offer}
use riak_mesos_legacy.Scheduler.Core.{Core, done, Zookeeper, with_clusters}
use riak_mesos_legacy.Scheduler.Offers.{offer_to_cluster, offer_to_clusters, operations_for_offer}
use riak_mesos_legacy.Scheduler.Offers.Exclusive.{continue-done, done-result, stored-result}
use riak_mesos_legacy.Scheduler.Offers.Due.{DueIn, Ready, visits-All, DueIn-Ready}

-- The task is that of some node of some cluster of the map.
abbrev pub DueInAny : TaskInfo → Map Cluster → Type 0
DueInAny t [] = ⊥
DueInAny t ((k, c) ∷ m) = DueIn t c.nodes ⊎ DueInAny t m

abbrev pub AllReady : (TaskInfo → Type 0) → Text × Cluster → Type 0
AllReady P (k, c) = All (Ready P) c.nodes

pub DueInAny-AllReady :
    (P : TaskInfo → Type 0) (m : Map Cluster)
    → ((t : TaskInfo) → DueInAny t m → P t)
    → All (AllReady P) m
DueInAny-AllReady P [] f = tt
DueInAny-AllReady P ((k, c) ∷ m) f =
    (DueIn-Ready P c.nodes (λ t d. f t (inl d)), DueInAny-AllReady P m (λ t d. f t (inr d)))

module _ (sc : Config) (out : Outside) (zk : Zookeeper) (P : TaskInfo → Type 0) where
  apply_offer-All :
      (c : Cluster) (h : OfferHelper) (r : Cluster × OfferHelper × Bool × Bool)
      → All (Ready P) c.nodes
      → All P h.tasks_to_launch
      → apply_offer sc out c h ≡ some r
      → All P r.1.tasks_to_launch
  unfolding apply_offer
  apply_offer-All c h r f all e =
      let (s, went, e') = >>=-eq-some (visits sc out c.nodes h) _ e in
      subst (λ (x : Cluster × OfferHelper × Bool × Bool). All P x.1.tasks_to_launch) (some_inj.0 e')
        (visits-All sc out P c.nodes h s f all went)

  offer_to_cluster-All :
      (before : Map Cluster) (k : Text) (c : Cluster) (rest : Map Cluster) (h : OfferHelper)
      (core core' : Core) (r : Cluster × OfferHelper × Bool)
      → All (Ready P) c.nodes
      → All P h.tasks_to_launch
      → offer_to_cluster sc out zk before k c rest h core ≡ done core' r
      → All P r.1.tasks_to_launch
  unfolding offer_to_cluster
  offer_to_cluster-All before k c rest h core core' r f all e =
      elim (Option-cases (apply_offer sc out c h)) [
        | inl panic ↦ absurd (cc (rw (offer_to_cluster, panic) at e))
        | inr ((c', h', dirty, needs), went) ↦
            subst (λ (x : Cluster × OfferHelper × Bool). All P x.1.tasks_to_launch)
              (stored-result zk dirty (with_clusters core (before ++ (k, c') ∷ rest)) core'
                (c', h', needs) r (rw (offer_to_cluster, went) at e))
              (apply_offer-All c h _ f all went)
      ]

  offer_to_clusters-All :
      (before m : Map Cluster) (h : OfferHelper) (core core' : Core) (r : OfferHelper × Bool)
      → All (AllReady P) m
      → All P h.tasks_to_launch
      → offer_to_clusters sc out zk before m h core ≡ done core' r
      → All P r.0.tasks_to_launch
  unfolding offer_to_clusters
  offer_to_clusters-All before [] h core core' r f all e =
      subst (λ (x : OfferHelper × Bool). All P x.0.tasks_to_launch) (done-result _ _ _ _ e) all
  offer_to_clusters-All before ((k, c) ∷ m) h core core' r (f, fs) all e =
      let (core1, s, here, e') = continue-done _ _ core' r e in
      let (core2, t, later, e'') = continue-done _ _ core' r e' in
      subst (λ (x : OfferHelper × Bool). All P x.0.tasks_to_launch) (done-result _ _ _ _ e'')
        (offer_to_clusters-All (before ++ (k, s.0) ∷ []) m s.1 core1 core2 t fs
          (offer_to_cluster-All before k c m h core core1 s f all here) later)

new_offer_helper-tasks :
    (u : MesosUtil) (offer : Offer) (h : OfferHelper)
    → new_offer_helper u offer ≡ some h
    → h.tasks_to_launch ≡ []
unfolding new_offer_helper
new_offer_helper-tasks u offer h e = ground arith

module _ (sc : Config) (out : Outside) (zk : Zookeeper) (offer : Offer) (core core' : Core)
    (ops : List Operation) (laws : IsMesosUtil out.util) where
  pub operations_for_offer-Launches :
      (P : TaskInfo → Type 0)
      → All (AllReady P) core.state.clusters
      → operations_for_offer sc out zk offer core ≡ done core' ops
      → All (Launches P) ops
  unfolding operations_for_offer
  operations_for_offer-Launches P f e = elim (Option-cases (new_offer_helper out.util offer)) [
    | inl panic ↦ absurd (cc (rw (operations_for_offer, panic) at e))
    | inr (h, made) ↦
        let (core'', r, went, e') =
          continue-done _ _ core' ops (rw (operations_for_offer, made) at e) in
        let start : All P h.tasks_to_launch =
          rw (new_offer_helper-tasks out.util offer h made) tt in
        subst (λ (x : List Operation). All (Launches P) x) (done-result _ _ _ _ e')
          (given_back-Launches out.util laws P (r.1) (r.0)
            (offer_to_clusters-All sc out zk P [] core.state.clusters h core core'' r f start went))
  ]
