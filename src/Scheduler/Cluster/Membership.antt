-- ===== src/Scheduler/Cluster/Membership.antt =====
-- Status updates and the membership of the Riak cluster (scheduler/cluster.go:
-- HandleNodeStatusUpdate, Join and Leave).
use mathlib.Core.List.{Memᴰ}
use mathlib.Core.Option.{some_inj}
use riak_mesos_legacy.Base.{
  ℕ, ◌≡◌, ◌≢◌, refl, sym, ap, ◌∙◌, inl, inr, true, false, [], ◌∷◌, some, arith, Bool-cases, length,
  if◌then◌else◌,
}
use riak_mesos_legacy.Base.Text.{Text, text_eq}
use riak_mesos_legacy.Base.Map.{Map, lookup, insert, has, lookup-insert}
use riak_mesos_legacy.Mesos.{
  TaskStatus, TaskState, task_staging, task_starting, task_running, task_finished, task_failed,
  task_killed, task_lost, task_error, task_other,
}
use riak_mesos_legacy.Scheduler.ProcessState.{ProcessState, starting, started, shutdown, failed}
use riak_mesos_legacy.Scheduler.Explorer.{Explorer, do_join}
use riak_mesos_legacy.Scheduler.Node.{
  Node, can_be_joined, can_join_cluster, start, run, finish, kill, error,
}
use riak_mesos_legacy.Scheduler.Cluster.{
  Cluster, join_any, join, updated, reported, handle_node_status_update,
}

-- The state of a node after a report about its task.
abbrev pub state_after : TaskState → ProcessState → ProcessState
state_after task_staging s = starting
state_after task_starting s = starting
state_after task_running s = started
state_after task_finished s = shutdown
state_after task_failed s = failed
state_after task_killed s = shutdown
state_after task_lost s = failed
state_after task_error s = failed
state_after task_other s = s

updated-state :
    (ex : Explorer) (g : ℕ) (m : Map Node) (id : Text) (t : TaskState) (n : Node)
    → let n' = (updated ex g m id t n).0 in
      (n'.current_state ≡ state_after t n.current_state)
      × (n'.reconciled ≡ n.reconciled)
      × (n'.task_status ≡ n.task_status)
      × (n'.slave_id ≡ n.slave_id)
unfolding updated join start run finish kill error
updated-state ex g m id t n = ground arith

-- A report about a live node whose id is not in the graveyard, when it does not panic, sets the
-- node's state as the report says, marks it reconciled, keeps the report and its slave, and
-- leaves every other node as it was.
pub handle_node_status_update_lem :
    (ex : Explorer) (status : TaskStatus) (c c' : Cluster) (n : Node) (j : Text)
    → has status.task_id c.graveyard ≡ false
    → lookup status.task_id c.nodes ≡ some n
    → handle_node_status_update ex status c ≡ some c'
    → (n' : Node) × (lookup j c'.nodes
        ≡ (if text_eq status.task_id j then some n' else lookup j c.nodes))
      × (n'.current_state ≡ state_after status.state n.current_state)
      × (n'.reconciled ≡ true)
      × (n'.task_status ≡ some status)
      × (n'.slave_id ≡ status.slave_id)
unfolding handle_node_status_update
handle_node_status_update_lem ex status c c' n j alive e h =
    let id = status.task_id in
    let m = insert id (reported status n) c.nodes in
    let u = (updated ex c.generation m id status.state (reported status n)).0 in
    let (s, r, t, v) = updated-state ex c.generation m id status.state (reported status n) in
    let found : handle_node_status_update ex status c ≡ some (record c { nodes = insert id u m }) =
      rw alive (rw e refl) in
    let whole : record c { nodes = insert id u m } ≡ c' = some_inj.0 (sym found ∙ h) in
    let nodes : insert id u m ≡ c'.nodes = ap (λ (x : Cluster). x.nodes) whole in
    (
      u,
      ap (lookup j) (sym nodes)
          ∙ ground (arith, lookup-insert id j u m, lookup-insert id j (reported status n) c.nodes),
      s,
      r,
      t,
      v,
    )

-- Some node of the map, started and meant to stay so, accepts the new one.
abbrev pub Accepted : Explorer → Map Node → Node → Type 0
Accepted ex m n =
    (entry : Text × Node) × Memᴰ entry m
    × (can_be_joined entry.1 ≡ true)
    × (do_join ex entry.1 n ≡ true)

Accepted-later :
    (ex : Explorer) (x : Text × Node) (m : Map Node) (n : Node)
    → Accepted ex m n
    → Accepted ex (x ∷ m) n
Accepted-later ex x m n (entry, at, can, did) = (entry, Memᴰ.tail at, can, did)

join_any-some : (ex : Explorer) (m : Map Node) (n : Node) → join_any ex m n ≡ true → Accepted ex m n
unfolding join_any
join_any-some ex [] n h = absurd (cc h)
join_any-some ex ((k, o) ∷ m) n h = elim (Bool-cases (can_be_joined o)) [
  | inl can ↦ elim (Bool-cases (do_join ex o n)) [
    | inl did ↦ ((k, o), Memᴰ.head refl, can, did)
    | inr not_did ↦ Accepted-later ex (k, o) m n (join_any-some ex m n (ground arith))
  ]
  | inr cannot ↦ Accepted-later ex (k, o) m n (join_any-some ex m n (ground arith))
]

-- A node joins only when it was starting, is meant to run and is not alone, and some node of the
-- cluster, started and meant to stay so, accepts it.
pub join_lem :
    (ex : Explorer) (m : Map Node) (n : Node)
    → (join ex m n).1 ≡ true
    → (can_join_cluster n ≡ true) × (length m ≢ 1) × Accepted ex m n
unfolding join
join_lem ex m n h = (ground arith, ground arith, join_any-some ex m n (ground arith))
