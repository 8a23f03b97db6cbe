-- ===== src/Scheduler/System/Reachable.antt =====
-- What holds of the scheduler whatever has happened to it.
use riak_mesos_legacy.Base.{Option, ◌≡◌, ◌∙◌, refl, sym, inl, inr, true, some, Bool-cases}
use riak_mesos_legacy.Base.Text.{Text}
use riak_mesos_legacy.Base.Map.{lookup, has, lookup-has, All-lookup}
use riak_mesos_legacy.Scheduler.Config.{Config}
use riak_mesos_legacy.Scheduler.Node.{Node, current_id}
use riak_mesos_legacy.Scheduler.Node.Identity.{current_id-cluster_name}
use riak_mesos_legacy.Scheduler.Cluster.{Cluster, has_node}
use riak_mesos_legacy.Scheduler.Cluster.Numbering.{IsNumbered, Holds, count}
use riak_mesos_legacy.Scheduler.Core.{
  Core, Outcome, done, panics, registered, reregistered, status_update,
}
use riak_mesos_legacy.Scheduler.Offers.{resource_offers}
use riak_mesos_legacy.Scheduler.Reconcile.{reconcile}
use riak_mesos_legacy.Scheduler.Server.Router.{handle}
use riak_mesos_legacy.Scheduler.System.{
  goes_on, Step, requested, registers, reregisters, updates, offered, ticks, restarts, Since, here,
  later, first_start,
}
use riak_mesos_legacy.Scheduler.System.Sound.{
  IsKept, BothSound, Leaves, core_of-BothSound, restarted-BothSound,
}
use riak_mesos_legacy.Scheduler.System.Requests.{handle-Leaves}
use riak_mesos_legacy.Scheduler.System.Callbacks.{registered-Leaves, status_update-Leaves}
use riak_mesos_legacy.Scheduler.System.Offers.{resource_offers-Leaves}
use riak_mesos_legacy.Scheduler.System.Rounds.{reconcile-Leaves}

module _ (sc : Config) (P : Option Text → Type 0) (given : (id : Text) → P (some id)) where
  goes_on-BothSound {ℓ} :
      {A : Type ℓ} (master : Text) (o : Outcome A)
      → Leaves sc.framework_name P o
      → BothSound sc.framework_name P (goes_on master o)
  goes_on-BothSound master (done core a) v = v
  goes_on-BothSound master (panics core) v = restarted-BothSound sc.framework_name P master core v

  Step-BothSound :
      {core core' : Core}
      → Step sc core core'
      → BothSound sc.framework_name P core
      → BothSound sc.framework_name P core'
  unfolding reregistered
  Step-BothSound (requested out http zk route core) v =
      core_of-BothSound sc.framework_name P (handle sc out http zk route core)
        (handle-Leaves sc.framework_name P zk core v sc out http route refl)
  Step-BothSound (registers master id zk core) v =
      goes_on-BothSound master (registered zk id core)
        (registered-Leaves sc.framework_name P zk id core (given id) v)
  Step-BothSound (reregisters master core) v =
      (record { known = v.0.known; live = v.0.live; dead = v.0.dead }, v.1)
  Step-BothSound (updates master ex zk status core) v =
      goes_on-BothSound master (status_update ex zk status core)
        (status_update-Leaves sc.framework_name P ex zk status core v)
  Step-BothSound (offered master out zk offers core) v =
      goes_on-BothSound master (resource_offers sc out zk offers core)
        (resource_offers-Leaves sc out zk sc.framework_name P offers core v)
  Step-BothSound (ticks master d zk now core) v =
      goes_on-BothSound master (reconcile d zk now core)
        (reconcile-Leaves sc.framework_name P d zk now core v)
  Step-BothSound (restarts master core) v = restarted-BothSound sc.framework_name P master core v

  pub Since-BothSound :
      {core core' : Core}
      → Since sc core core'
      → BothSound sc.framework_name P core
      → BothSound sc.framework_name P core'
  Since-BothSound here v = v
  Since-BothSound (later s st) v = Step-BothSound st (Since-BothSound s v)

-- Every framework id will do.
abbrev pub AnyId : Option Text → Type 0
AnyId id = Unit

module _ (sc : Config) where
  -- Whatever the order of requests, registrations, status updates, offers, ticks, panics and restarts
  -- since the first start: in memory and in Zookeeper every cluster, live or buried, stands once, under
  -- its name, and the ids of its nodes are apart.
  pub Since-IsSound :
      {core : Core} (master : Text)
      → Since sc (first_start master) core
      → BothSound sc.framework_name AnyId core
  Since-IsSound master s =
      Since-BothSound sc AnyId (λ id. tt) s
        (
          record { known = tt; live = (tt, tt); dead = (tt, tt) },
          record { known = tt; live = (tt, tt); dead = (tt, tt) },
        )

  -- A node of a cluster with this id has the names of the cluster and of the framework.
  named :
      (c : Cluster) (id : Text)
      → IsNumbered sc.framework_name c
      → has_node id c ≡ true
      → (n : Node) × (id ≡ current_id n)
        × (n.framework_name ≡ sc.framework_name)
        × (n.cluster_name ≡ c.name)
  unfolding has_node
  named c id v h = elim (Bool-cases (has id c.nodes)) [
    | inl live ↦
        let (n, e) = lookup-has id c.nodes live in
        let holds = All-lookup (Holds sc.framework_name c.name (count c)) id c.nodes n e v.live in
        (n, holds.key, holds.framework_name, holds.cluster_name)
    | inr gone ↦
        let (n, e) = lookup-has id c.graveyard (rw gone at h) in
        let holds =
          All-lookup (Holds sc.framework_name c.name (count c)) id c.graveyard n e v.dead in
        (n, holds.key, holds.framework_name, holds.cluster_name)
  ]

  -- Whatever has happened since the first start, two live clusters never have a node, live or dead, with
  -- one task id, so the first cluster that StatusUpdate finds is the only one.
  pub Since-one_cluster :
      {core : Core} (master id k k' : Text) (c c' : Cluster)
      → Since sc (first_start master) core
      → lookup k core.state.clusters ≡ some c
      → lookup k' core.state.clusters ≡ some c'
      → has_node id c ≡ true
      → has_node id c' ≡ true
      → k ≡ k'
  Since-one_cluster {core} master id k k' c c' r e e' h h' =
      let kept = (Since-IsSound master r).0.live.0 in
      let (at_k, v) = All-lookup (IsKept sc.framework_name) k core.state.clusters c e kept in
      let (at_k', v') = All-lookup (IsKept sc.framework_name) k' core.state.clusters c' e' kept in
      let (n, key, framework, name) = named c id v h in
      let (n', key', framework', name') = named c' id v' h' in
      sym at_k
      ∙ sym name
      ∙ current_id-cluster_name n n' (framework ∙ sym framework') (sym key ∙ key')
      ∙ name'
      ∙ at_k'
