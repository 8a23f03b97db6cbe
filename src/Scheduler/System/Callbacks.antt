-- ===== src/Scheduler/System/Callbacks.antt =====
-- The callbacks of scheduler/scheduler.go and the state.
use mathlib.Core.Option.{some_inj}
use riak_mesos_legacy.Base.{
  Option, ◌≡◌, refl, ap, sym, subst, ◌∙◌, ◌⊎◌, inl, inr, Bool, [], ◌∷◌, some, arith, Bool-cases,
  Option-cases,
}
use riak_mesos_legacy.Base.Text.{Text}
use riak_mesos_legacy.Base.Map.{Map, lookup, has}
use riak_mesos_legacy.Base.Along.{Along, Along-refl}
use riak_mesos_legacy.Mesos.{TaskStatus}
use riak_mesos_legacy.Common.Offer.{OfferHelper}
use riak_mesos_legacy.Scheduler.Config.{Config, Outside}
use riak_mesos_legacy.Scheduler.Explorer.{Explorer}
use riak_mesos_legacy.Scheduler.Cluster.{Cluster, apply_offer, has_node, handle_node_status_update}
use riak_mesos_legacy.Scheduler.Node.{Node}
use riak_mesos_legacy.Scheduler.Cluster.Numbering.{IsNumbered}
use riak_mesos_legacy.Scheduler.Cluster.Numbering.Rewrites.{handle_node_status_update-IsNumbered}
use riak_mesos_legacy.Scheduler.Core.{
  Core, Zookeeper, persist, with_clusters, registered, update_first, status_update,
}
use riak_mesos_legacy.Scheduler.System.Sound.{
  BothSound, Leaves, Keeps, Keeps-refl, Along-AllKept, persist-Leaves, continue-Leaves,
  with_clusters-BothSound,
}

handle-name :
    (ex : Explorer) (status : TaskStatus) (c c' : Cluster)
    → handle_node_status_update ex status c ≡ some c'
    → c'.name ≡ c.name
unfolding handle_node_status_update
handle-name ex status c c' e = ground arith

apply_offer-name :
    (sc : Config) (out : Outside) (c c' : Cluster) (h h' : OfferHelper) (dirty needs : Bool)
    → apply_offer sc out c h ≡ some (c', h', dirty, needs)
    → c'.name ≡ c.name
unfolding apply_offer
apply_offer-name sc out c c' h h' dirty needs e = ground arith

dead_or_alive :
    (ex : Explorer) (status : TaskStatus) (c c' : Cluster)
    → handle_node_status_update ex status c ≡ some c'
    → (c' ≡ c) ⊎ ((n : Node) × (lookup status.task_id c.nodes ≡ some n))
unfolding handle_node_status_update
dead_or_alive ex status c c' e = elim (Bool-cases (has status.task_id c.graveyard)) [
  | inl dead ↦ inl (sym (some_inj.0 (rw dead at e)))
  | inr alive ↦ elim (Option-cases (lookup status.task_id c.nodes)) [
    | inl f ↦ absurd (cc (rw (alive, f) at e))
    | inr (n, f) ↦ inr (n, f)
  ]
]

module _ (framework : Text) (P : Option Text → Type 0) where
  handle-Keeps :
      (ex : Explorer) (status : TaskStatus) (c c' : Cluster)
      → handle_node_status_update ex status c ≡ some c'
      → Keeps framework c c'
  handle-Keeps ex status c c' e = elim (dead_or_alive ex status c c' e) [
    | inl same ↦ subst (Keeps framework c) (sym same) (Keeps-refl framework c)
    | inr (n, f) ↦ record {
      name = handle-name ex status c c' e;
      numbered = λ v.
          let (c'', e', v', _) = handle_node_status_update-IsNumbered framework ex status c n v f in
          subst (IsNumbered framework) (some_inj.0 (sym e' ∙ e)) v';
    }
  ]

  update_first-Along :
      (ex : Explorer) (status : TaskStatus) (m m' : Map Cluster) (found : Bool)
      → update_first ex status m ≡ some (m', found)
      → Along (Keeps framework) m m'
  unfolding update_first
  update_first-Along ex status [] m' found e =
      subst (Along (Keeps framework) []) (ap (λ r. r.0) (some_inj.0 e)) tt
  update_first-Along ex status ((k, c) ∷ m) m' found e =
      elim (Bool-cases (has_node status.task_id c)) [
        | inl b ↦ elim (Option-cases (handle_node_status_update ex status c)) [
          | inl f ↦ absurd (cc (rw (b, f) at e))
          | inr (c', f) ↦
              subst (Along (Keeps framework) ((k, c) ∷ m))
                (ap (λ r. r.0) (some_inj.0 (rw (b, f) at e)))
                (
                  refl,
                  handle-Keeps ex status c c' f,
                  Along-refl (Keeps framework) (Keeps-refl framework) m,
                )
        ]
        | inr b ↦ elim (Option-cases (update_first ex status m)) [
          | inl f ↦ absurd (cc (rw (b, f) at e))
          | inr ((m'', found'), f) ↦
              subst (Along (Keeps framework) ((k, c) ∷ m))
                (ap (λ r. r.0) (some_inj.0 (rw (b, f) at e)))
                (refl, Keeps-refl framework c, update_first-Along ex status m m'' found' f)
        ]
      ]

  pub status_update-Leaves :
      (ex : Explorer) (zk : Zookeeper) (status : TaskStatus) (core : Core)
      → BothSound framework P core
      → Leaves framework P (status_update ex zk status core)
  unfolding status_update
  status_update-Leaves ex zk status core v =
      elim (Option-cases (update_first ex status core.state.clusters)) [
        | inl e ↦ rw (Leaves, e) v
        | inr ((m, found), e) ↦
            let v' =
              with_clusters-BothSound framework P core m
                (Along-AllKept framework core.state.clusters m
                  (update_first-Along ex status core.state.clusters m found e) v.0.live)
                v in
            elim (Bool-cases found) [
              | inl b ↦ rw (Leaves, e, b) (persist-Leaves framework P zk (with_clusters core m) v')
              | inr b ↦ rw (Leaves, e, b) v'
            ]
      ]

  pub registered-Leaves :
      (zk : Zookeeper) (id : Text) (core : Core)
      → P (some id)
      → BothSound framework P core
      → Leaves framework P (registered zk id core)
  unfolding registered
  registered-Leaves zk id core k v =
      continue-Leaves framework P (persist zk _) _
        (persist-Leaves framework P zk _
          (record { known = k; live = v.0.live; dead = v.0.dead }, v.1))
        (λ core' _ _ w. w)
