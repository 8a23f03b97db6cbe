-- ===== src/Scheduler/Offers/Exclusive.antt =====
-- ResourceOffers of scheduler/scheduler.go: an offer that a task is launched on is not given back.
use mathlib.Core.Option.{some_inj}
use riak_mesos_legacy.Base.{
  ◌≡◌, ◌⊎◌, refl, ap, subst, ◌∙◌, inl, inr, Bool, true, false, List, [], ◌∷◌, ◌++◌, Option, none,
  some, arith, All, Option-cases, if◌then◌else◌,
}
use riak_mesos_legacy.Base.Opt.{>>=-eq-some}
use riak_mesos_legacy.Base.Text.{Text}
use riak_mesos_legacy.Base.Map.{Map}
use riak_mesos_legacy.Mesos.{Resource, Offer, Operation, IsMesosUtil, MesosUtil}
use riak_mesos_legacy.Common.Offer.{
  OfferHelper, apply_reserved, apply_unreserved, make_reservation, make_volume, new_offer_helper,
}
use riak_mesos_legacy.Common.Offer.Exclusive.{KeepsAll, NoLaunch, NoReturn, operations-KeepsAll}
use riak_mesos_legacy.Scheduler.Config.{Config, Outside}
use riak_mesos_legacy.Scheduler.Node.{Node, apply_reserved_offer, apply_unreserved_offer, take_asks}
use riak_mesos_legacy.Scheduler.Cluster.{Cluster, Visit, visit, visits, apply_offer}
use riak_mesos_legacy.Scheduler.Core.{
  Core, Outcome, done, panics, continue, persist, with_clusters, Zookeeper,
}
use riak_mesos_legacy.Scheduler.Offers.{offer_to_cluster, offer_to_clusters, operations_for_offer}

-- What is to be given back is the same.
abbrev Same : OfferHelper → OfferHelper → Type 0
Same h h' =
    (h'.resources_to_unreserve ≡ h.resources_to_unreserve)
    × (h'.volumes_to_destroy ≡ h.volumes_to_destroy)

Same-trans : (a b c : OfferHelper) → Same a b → Same b c → Same a c
Same-trans a b c p q = (q.0 ∙ p.0, q.1 ∙ p.1)

module _ (sc : Config) (out : Outside) where
  apply_unreserved_offer-Same :
      (n : Node) (h : OfferHelper) (r : Node × OfferHelper × Bool)
      → apply_unreserved_offer out n h ≡ some r
      → Same h r.1
  unfolding apply_unreserved_offer apply_unreserved make_reservation make_volume
  apply_unreserved_offer-Same n h r e = ground arith

  take_asks-Same :
      (n : Node) (h : OfferHelper) (r : OfferHelper × List Resource × List Resource)
      → take_asks sc out n h ≡ some (some r)
      → Same h r.0
  unfolding take_asks apply_unreserved apply_reserved
  take_asks-Same n h r e = ground arith

  apply_reserved_offer-Same :
      (n : Node) (h : OfferHelper) (r : Node × OfferHelper × Bool)
      → apply_reserved_offer sc out n h ≡ some r
      → Same h r.1
  unfolding apply_reserved_offer
  apply_reserved_offer-Same n h r e = elim (Option-cases (take_asks sc out n h)) [
    | inl panic ↦ absurd (ground arith)
    | inr (none, asked) ↦ ground arith
    | inr (some (h', task_ask, exec_ask), asked) ↦
        let same = take_asks-Same n h (h', task_ask, exec_ask) asked in ground arith
  ]

  visit-Same :
      (n : Node) (h : OfferHelper) (v : Visit) → visit sc out n h ≡ some v → Same h v.helper
  unfolding visit
  visit-Same n h v e = elim (Option-cases (apply_reserved_offer sc out n h)) [
    | inl no_reserved ↦ elim (Option-cases (apply_unreserved_offer out n h)) [
      | inl no_unreserved ↦ ground arith
      | inr (s, b) ↦ let same = apply_unreserved_offer-Same n h s b in ground arith
    ]
    | inr (r, a) ↦
        let same_reserved = apply_reserved_offer-Same n h r a in
        elim (Option-cases (apply_unreserved_offer out n h)) [
          | inl no_unreserved ↦ ground arith
          | inr (s, b) ↦ let same = apply_unreserved_offer-Same n h s b in ground arith
        ]
  ]

  visits-Same :
      (m : Map Node) (h : OfferHelper) (r : Map Node × OfferHelper × Bool × Bool)
      → visits sc out m h ≡ some r
      → Same h r.1
  unfolding visits
  visits-Same [] h r e = ground arith
  visits-Same ((k, n) ∷ m) h r e =
      let (v, visited, e') = >>=-eq-some (visit sc out n h) _ e in
      let (s, went, e'') = >>=-eq-some (visits sc out m v.helper) _ e' in
      let first = visit-Same n h v visited in
      let rest = visits-Same m v.helper s went in ground arith

  apply_offer-Same :
      (c : Cluster) (h : OfferHelper) (r : Cluster × OfferHelper × Bool × Bool)
      → apply_offer sc out c h ≡ some r
      → Same h r.1
  unfolding apply_offer
  apply_offer-Same c h r e =
      let (s, went, e') = >>=-eq-some (visits sc out c.nodes h) _ e in
      let same = visits-Same c.nodes h s went in ground arith

pub continue-done :
    {A B : Type 0} (o : Outcome A) (f : Core → A → Outcome B) (core' : Core) (b : B)
    → continue o f ≡ done core' b
    → (core'' : Core) × (a : A) × (o ≡ done core'' a) × (f core'' a ≡ done core' b)
continue-done (done core'' a) f core' b e = (core'', a, refl, e)
continue-done (panics core'') f core' b e = absurd (cc e)

-- The result of an outcome, if there is one.
result : {A : Type 0} → Outcome A → Option A
result (done c a) = some a
result (panics c) = none

pub done-result :
    {A : Type 0} (c c' : Core) (a b : A) → ◌≡◌ {A = Outcome A} (done c a) (done c' b) → a ≡ b
unfolding result
done-result c c' a b e = some_inj.0 (ap result e)

pub stored-result :
    (zk : Zookeeper) {A : Type 0} (dirty : Bool) (core core' : Core) (a b : A)
    → (if dirty then continue (persist zk core) (λ c _. done c a) else done core a) ≡ done core' b
    → a ≡ b
stored-result zk true core core' a b e =
    let (core'', t, stored, e') = continue-done (persist zk core) (λ c _. done c a) core' b e in
    done-result _ _ _ _ e'
stored-result zk false core core' a b e = done-result _ _ _ _ e

module _ (sc : Config) (out : Outside) (zk : Zookeeper) where
  offer_to_cluster-Same :
      (before : Map Cluster) (k : Text) (c : Cluster) (rest : Map Cluster) (h : OfferHelper)
      (core core' : Core) (r : Cluster × OfferHelper × Bool)
      → offer_to_cluster sc out zk before k c rest h core ≡ done core' r
      → Same h r.1
  unfolding offer_to_cluster
  offer_to_cluster-Same before k c rest h core core' r e =
      elim (Option-cases (apply_offer sc out c h)) [
        | inl panic ↦ absurd (cc (rw (offer_to_cluster, panic) at e))
        | inr ((c', h', dirty, needs), went) ↦
            subst (λ (x : Cluster × OfferHelper × Bool). Same h x.1)
              (stored-result zk dirty (with_clusters core (before ++ (k, c') ∷ rest)) core'
                (c', h', needs) r (rw (offer_to_cluster, went) at e))
              (apply_offer-Same sc out c h _ went)
      ]

  offer_to_clusters-Same :
      (before m : Map Cluster) (h : OfferHelper) (core core' : Core) (r : OfferHelper × Bool)
      → offer_to_clusters sc out zk before m h core ≡ done core' r
      → Same h r.0
  unfolding offer_to_clusters
  offer_to_clusters-Same before [] h core core' r e =
      subst (λ (x : OfferHelper × Bool). Same h x.0) (done-result _ _ _ _ e) (refl, refl)
  offer_to_clusters-Same before ((k, c) ∷ m) h core core' r e =
      let (core1, s, here, e') = continue-done _ _ core' r e in
      let (core2, t, later, e'') = continue-done _ _ core' r e' in
      let first = offer_to_cluster-Same before k c m h core core1 s here in
      let rest = offer_to_clusters-Same (before ++ (k, s.0) ∷ []) m s.1 core1 core2 t later in
      subst (λ (x : OfferHelper × Bool). Same h x.0) (done-result _ _ _ _ e'')
        (Same-trans h s.1 t.0 first rest)

new_offer_helper-KeepsAll :
    (u : MesosUtil) (offer : Offer) (h : OfferHelper)
    → new_offer_helper u offer ≡ some h
    → KeepsAll h
unfolding new_offer_helper
new_offer_helper-KeepsAll u offer h e = ground arith

-- If mesosutil does what it documents, the operations that the scheduler asks for on an offer,
-- when it does not panic, launch nothing, or neither destroy a volume nor unreserve anything.
pub operations_for_offer-exclusive :
    (sc : Config) (out : Outside) (zk : Zookeeper) (offer : Offer) (core core' : Core)
    (ops : List Operation)
    → IsMesosUtil out.util
    → operations_for_offer sc out zk offer core ≡ done core' ops
    → All NoLaunch ops ⊎ All NoReturn ops
unfolding operations_for_offer
operations_for_offer-exclusive sc out zk offer core core' ops laws e =
    elim (Option-cases (new_offer_helper out.util offer)) [
      | inl panic ↦ absurd (cc (rw (operations_for_offer, panic) at e))
      | inr (h, made) ↦
          let (core'', r, went, e') =
            continue-done _ _ core' ops (rw (operations_for_offer, made) at e) in
          let same = offer_to_clusters-Same sc out zk [] core.state.clusters h core core'' r went in
          let keeps = new_offer_helper-KeepsAll out.util offer h made in
          subst (λ (x : List Operation). All NoLaunch x ⊎ All NoReturn x) (done-result _ _ _ _ e')
            (operations-KeepsAll out.util laws (r.0) (r.1) (same.0 ∙ keeps.0, same.1 ∙ keeps.1))
    ]
