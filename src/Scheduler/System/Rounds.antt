-- ===== src/Scheduler/System/Rounds.antt =====
-- The loop of scheduler/reconcilation.go and the state.
use mathlib.Core.Option.{some_inj}
use riak_mesos_legacy.Base.{
  Option, ℕ, ◌≡◌, refl, ap, sym, subst, ◌∙◌, inl, inr, Bool, true, false, not, List, [], ◌∷◌, some,
  if◌then◌else◌, All, Bool-cases, Option-cases,
}
use riak_mesos_legacy.Base.Text.{Text}
use riak_mesos_legacy.Base.Map.{Map}
use riak_mesos_legacy.Base.Along.{Along}
use riak_mesos_legacy.Scheduler.Node.{Node, get_task_status}
use riak_mesos_legacy.Scheduler.Cluster.{
  Cluster, remove_node, get_nodes_to_restart, get_node_tasks_to_reconcile, asks_now,
}
use riak_mesos_legacy.Scheduler.Cluster.Numbering.Rewrites.{
  Rewrites, SameId-refl, Rewrites-IsNumbered,
}
use riak_mesos_legacy.Scheduler.Core.{SchedulerState, Core, done, Zookeeper, persist, with_clusters}
use riak_mesos_legacy.Scheduler.Reconcile.{
  Driver, Request, Round, remove_nodes, kill_round, settle, kill_rounds, kill_tasks,
  reconcile_tasks, reconcile,
}
use riak_mesos_legacy.Scheduler.Reconcile.Removal.{kill_round-cluster, kill_round-IsNumbered}
use riak_mesos_legacy.Scheduler.System.Sound.{
  IsKept, IsSound, BothSound, Leaves, Keeps, insert-AllKept, erase-AllKept, Along-AllKept,
  persist-Leaves, continue-Leaves, with_clusters-BothSound,
}

remove_nodes-name : (ns : List Node) (c : Cluster) → (remove_nodes ns c).name ≡ c.name
unfolding remove_nodes remove_node
remove_nodes-name [] c = refl
remove_nodes-name (n ∷ ns) c = remove_nodes-name ns (remove_node n c)

get_nodes_to_restart-name : (c : Cluster) → ((get_nodes_to_restart c).0).name ≡ c.name
unfolding get_nodes_to_restart
get_nodes_to_restart-name c = elim (Bool-cases c.is_restarting) [
  | inl e ↦ rw e refl
  | inr e ↦ rw e refl
]

kill_round-name :
    (d : Driver) (c : Cluster) (r : Round) → kill_round d c ≡ some r → r.cluster.name ≡ c.name
kill_round-name d c r e =
    ap (λ (x : Cluster). x.name) (sym (kill_round-cluster d c r e))
    ∙ get_nodes_to_restart-name _
    ∙ remove_nodes-name _ c

tasks-Rewrites : (now : ℕ) (m : Map Node) → Rewrites m (get_node_tasks_to_reconcile now m).0
unfolding get_node_tasks_to_reconcile
tasks-Rewrites now [] = tt
tasks-Rewrites now ((k, n) ∷ m) = elim (Option-cases (get_task_status n)) [
  | inl e ↦
      rw (Rewrites, get_node_tasks_to_reconcile, e) (refl, SameId-refl n, tasks-Rewrites now m)
  | inr (s, e) ↦ elim (Bool-cases (asks_now now n)) [
    | inl b ↦
        rw (Rewrites, get_node_tasks_to_reconcile, e, b)
          (
            refl,
            record { framework_name = refl; cluster_name = refl; simple_id = refl },
            tasks-Rewrites now m,
          )
    | inr b ↦
        rw (Rewrites, get_node_tasks_to_reconcile, e, b) (refl, SameId-refl n, tasks-Rewrites now m)
  ]
]

module _ (framework : Text) (P : Option Text → Type 0) where
  reconcile_tasks-Along :
      (now : ℕ) (m : Map Cluster) → Along (Keeps framework) m (reconcile_tasks now m).0
  unfolding reconcile_tasks
  reconcile_tasks-Along now [] = tt
  reconcile_tasks-Along now ((k, c) ∷ m) = (
    refl,
    record {
      name = refl;
      numbered = Rewrites-IsNumbered framework c _ (tasks-Rewrites now c.nodes);
    },
    reconcile_tasks-Along now m,
  )

  settle-IsSound :
      (k : Text) (r : Round) (s : SchedulerState)
      → IsKept framework (k, r.cluster)
      → IsSound framework P s
      → IsSound framework P (settle k r s)
  unfolding settle
  settle-IsSound k r s h v = elim (Bool-cases r.buried) [
    | inl b ↦ rw b (record {
      known = v.known;
      live = erase-AllKept framework r.cluster.name s.clusters v.live;
      dead = insert-AllKept framework r.cluster.name r.cluster s.graveyard (refl, h.1) v.dead;
    })
    | inr b ↦ rw b (record {
      known = v.known;
      live = insert-AllKept framework k r.cluster s.clusters h v.live;
      dead = v.dead;
    })
  ]

  kill_rounds-IsSound :
      (d : Driver) (m : Map Cluster) (s s' : SchedulerState) (dirty : Bool)
      (requests : List Request)
      → All (IsKept framework) m
      → IsSound framework P s
      → kill_rounds d m s ≡ some (s', dirty, requests)
      → IsSound framework P s'
  unfolding kill_rounds
  kill_rounds-IsSound d [] s s' dirty requests h v e =
      subst (IsSound framework P) (ap (λ r. r.0) (some_inj.0 e)) v
  kill_rounds-IsSound d ((k, c) ∷ m) s s' dirty requests h v e =
      elim (Option-cases (kill_round d c)) [
        | inl f ↦ absurd (cc (rw (kill_rounds, f) at e))
        | inr (r, f) ↦ elim (Option-cases (kill_rounds d m (settle k r s))) [
          | inl g ↦ absurd (cc (rw (kill_rounds, f, g) at e))
          | inr ((s'', dirty', requests'), g) ↦
              let kept : IsKept framework (k, r.cluster) = (
                kill_round-name d c r f ∙ (h.0).0,
                (kill_round-IsNumbered framework d c r (h.0).1 f).0,
              ) in
              subst (IsSound framework P) (ap (λ t. t.0) (some_inj.0 (rw (kill_rounds, f, g) at e)))
                (kill_rounds-IsSound d m (settle k r s) s'' dirty' requests' h.1
                  (settle-IsSound k r s kept v) g)
        ]
      ]

  kill_tasks-Leaves :
      (d : Driver) (zk : Zookeeper) (core : Core)
      → BothSound framework P core
      → Leaves framework P (kill_tasks d zk core)
  unfolding kill_tasks
  kill_tasks-Leaves d zk core v =
      elim (Option-cases (kill_rounds d core.state.clusters core.state)) [
        | inl e ↦ rw (Leaves, e) v
        | inr ((s, dirty, requests), e) ↦
            let sound =
              kill_rounds-IsSound d core.state.clusters core.state s dirty requests v.0.live.0 v.0
                e in
            elim (Bool-cases dirty) [
              | inl b ↦
                  rw (Leaves, e, b)
                    (continue-Leaves framework P (persist zk (record core { state = s })) _
                      (persist-Leaves framework P zk (record core { state = s }) (sound, v.1))
                      (λ core' _ _ w. w))
              | inr b ↦ rw (Leaves, e, b) (sound, v.1)
            ]
      ]

  -- The end of a tick.
  tick-Leaves :
      (d : Driver) (zk : Zookeeper) (core core' : Core) (enabled reconcilable : Bool)
      (requests : List Request)
      → BothSound framework P core
      → BothSound framework P core'
      → Leaves framework P (
          if not enabled
          then done core []
          else if reconcilable
          then done core' requests
          else kill_tasks d zk core')
  tick-Leaves d zk core core' false reconcilable requests v v' = v
  tick-Leaves d zk core core' true true requests v v' = v'
  tick-Leaves d zk core core' true false requests v v' = kill_tasks-Leaves d zk core' v'

  pub reconcile-Leaves :
      (d : Driver) (zk : Zookeeper) (now : ℕ) (core : Core)
      → BothSound framework P core
      → Leaves framework P (reconcile d zk now core)
  unfolding reconcile
  reconcile-Leaves d zk now core v =
      let r = reconcile_tasks now core.state.clusters in
      tick-Leaves d zk core (with_clusters core r.0) core.enabled r.1 r.2 v (
        with_clusters-BothSound framework P core r.0
          (Along-AllKept framework _ _ (reconcile_tasks-Along now core.state.clusters) v.0.live) v)
