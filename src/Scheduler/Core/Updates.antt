-- ===== src/Scheduler/Core/Updates.antt =====
-- StatusUpdate of scheduler/scheduler.go: whom a report about a task reaches.
use riak_mesos_legacy.Base.{
  ◌≡◌, refl, ap, ◌∙◌, inl, inr, true, false, [], ◌∷◌, ◌++◌, some, arith, All, Bool-cases,
}
use riak_mesos_legacy.Base.Text.{Text}
use riak_mesos_legacy.Base.Map.{Map, insert, has, lookup-has}
use riak_mesos_legacy.Mesos.{TaskStatus}
use riak_mesos_legacy.Scheduler.Explorer.{Explorer}
use riak_mesos_legacy.Scheduler.Cluster.{
  Cluster, has_node, updated, reported, handle_node_status_update,
}
use riak_mesos_legacy.Scheduler.Core.{
  Core, done, Zookeeper, persist, with_clusters, update_first, status_update,
}

abbrev pub Lacks : Text → Text × Cluster → Type 0
Lacks id (k, c) = has_node id c ≡ false

-- A cluster that has the node handles the report without dereferencing nil.
handle_node_status_update-some :
    (ex : Explorer) (status : TaskStatus) (c : Cluster)
    → has_node status.task_id c ≡ true
    → (c' : Cluster) × (handle_node_status_update ex status c ≡ some c')
unfolding has_node handle_node_status_update
handle_node_status_update-some ex status c h = elim (Bool-cases (has status.task_id c.graveyard)) [
  | inl buried ↦ (c, rw buried refl)
  | inr alive ↦
      let (n, e) = lookup-has status.task_id c.nodes (ground arith) in
      let m = insert status.task_id (reported status n) c.nodes in
      let u = updated ex c.generation m status.task_id status.state (reported status n) in
      (record c { nodes = insert status.task_id (u.0) m }, rw alive (rw e refl))
]

update_first-none :
    (ex : Explorer) (status : TaskStatus) (m : Map Cluster)
    → All (Lacks status.task_id) m
    → update_first ex status m ≡ some (m, false)
unfolding update_first
update_first-none ex status [] a = refl
update_first-none ex status ((k, c) ∷ m) a = rw (a.0, update_first-none ex status m a.1) refl

update_first-some :
    (ex : Explorer) (status : TaskStatus) (before : Map Cluster) (k : Text) (c c' : Cluster)
    (m : Map Cluster)
    → All (Lacks status.task_id) before
    → has_node status.task_id c ≡ true
    → handle_node_status_update ex status c ≡ some c'
    → update_first ex status (before ++ (k, c) ∷ m) ≡ some (before ++ (k, c') ∷ m, true)
unfolding update_first
update_first-some ex status [] k c c' m a h e = rw (h, e) refl
update_first-some ex status ((j, b) ∷ before) k c c' m a h e =
    rw (a.0, update_first-some ex status before k c c' m a.1 h e) refl

-- A report about a task of no cluster changes nothing and stores nothing.
pub status_update-unknown :
    (ex : Explorer) (zk : Zookeeper) (status : TaskStatus) (core : Core)
    → All (Lacks status.task_id) core.state.clusters
    → status_update ex zk status core ≡ done core tt
unfolding status_update
status_update-unknown ex zk status core a =
    rw (status_update, update_first-none ex status core.state.clusters a) refl

-- A report about a task reaches the first cluster that has the task's node, does not dereference
-- nil there, changes no other cluster, and is stored.
pub status_update-known :
    (ex : Explorer) (zk : Zookeeper) (status : TaskStatus) (core : Core)
    → (before : Map Cluster) (k : Text) (c : Cluster) (m : Map Cluster)
    → core.state.clusters ≡ before ++ (k, c) ∷ m
    → All (Lacks status.task_id) before
    → has_node status.task_id c ≡ true
    → (c' : Cluster) × (handle_node_status_update ex status c ≡ some c')
      × (status_update ex zk status core ≡ persist zk (with_clusters core (before ++ (k, c') ∷ m)))
unfolding status_update
status_update-known ex zk status core before k c m e a h =
    let (c', handled) = handle_node_status_update-some ex status c h in
    let first =
      ap (update_first ex status) e ∙ update_first-some ex status before k c c' m a h handled in
    (c', handled, rw (status_update, first) refl)
