-- ===== src/Scheduler/Cluster.antt =====
-- scheduler/cluster.go: a cluster and its nodes. A method that mutates its receiver returns the new
-- cluster; `none` is a panic. A range over a map runs in the order of the association list.
pub mod Numbering
pub mod Membership
pub mod Rolling
use riak_mesos_legacy.Base.{
  ℕ, zero, suc, ◌+◌, Bool, true, false, not, ◌&&◌, ◌||◌, List, [], ◌∷◌, ◌++◌, Option, none, some,
  ltb, ◌==◌, if◌then◌else◌, length, is_empty,
}
use riak_mesos_legacy.Base.Opt.{◌>>=◌}
use riak_mesos_legacy.Base.Text.{Text, codes, text_eq}
use riak_mesos_legacy.Base.Map.{Map, lookup, insert, erase, has}
use riak_mesos_legacy.Mesos.{
  TaskState, task_staging, task_starting, task_running, task_finished, task_failed, task_killed,
  task_lost, task_error, task_other, TaskStatus, get_text,
}
use riak_mesos_legacy.Common.Offer.{OfferHelper, has_persistence_id}
use riak_mesos_legacy.Scheduler.Config.{Config, Outside}
use riak_mesos_legacy.Scheduler.Node
use riak_mesos_legacy.Scheduler.Node.{
  Node, new_framework_riak_node, current_id, persistence_id, needs_to_be_reconciled,
  can_be_scheduled, has_requested_reservation, apply_reserved_offer, apply_unreserved_offer,
  can_be_killed, can_join_cluster, can_be_joined, has_restarted, is_restarting, get_task_status,
  restart, unreserve, start, run, finish, kill, error,
}
use riak_mesos_legacy.Scheduler.Explorer.{Explorer, do_join, do_leave}

-- FrameworkRiakCluster.
pub record Cluster : Type 0 where
  pub name : Text
  pub nodes : Map Node
  pub graveyard : Map Node
  pub riak_config : Text
  pub advanced_config : Text
  pub is_killed : Bool
  pub is_restarting : Bool
  pub generation : ℕ

unfoldable pub new_framework_riak_cluster : Outside → Text → Cluster
new_framework_riak_cluster out name = record {
  name = name;
  nodes = [];
  graveyard = [];
  riak_config = out.asset (codes "riak.conf");
  advanced_config = out.asset (codes "advanced.config");
  is_killed = false;
  is_restarting = false;
  generation = 0;
}

-- What one round of the loop of ApplyOffer leaves: the node, the offer, and whether the state is
-- dirty and the cluster needs reconciliation.
pub record Visit : Type 0 where
  pub node : Node
  pub helper : OfferHelper
  pub dirty : Bool
  pub needs : Bool

abbrev pub same_slave : Node → OfferHelper → Bool
same_slave n h =
    text_eq (get_text n.slave_id) (get_text h.mesos_offer.slave_id)
    || text_eq n.hostname h.mesos_offer.hostname

-- The body of the loop of ApplyOffer.
unfoldable pub visit : Config → Outside → Node → OfferHelper → Option Visit
visit sc out n h =
    if needs_to_be_reconciled n
    then some (record { node = n; helper = h; dirty = false; needs = true })
    else if can_be_scheduled n && sc.compatibility_mode
    then (apply_reserved_offer sc out n h >>= λ r.
        some (record { node = r.0; helper = r.1; dirty = r.2; needs = false }))
    else if can_be_scheduled n
        && has_requested_reservation n
        && has_persistence_id h (persistence_id n)
    then (apply_reserved_offer sc out n h >>= λ r.
        some (record { node = r.0; helper = r.1; dirty = r.2; needs = not r.2 }))
    else if can_be_scheduled n && has_requested_reservation n && same_slave n h
    then (apply_reserved_offer sc out n h >>= λ r. some (record {
      node = if r.2 then r.0 else unreserve (r.0);
      helper = r.1;
      dirty = true;
      needs = false;
    }))
    else if can_be_scheduled n && not (has_requested_reservation n) && not sc.compatibility_mode
    then (apply_unreserved_offer out n h >>= λ r.
        some (record { node = r.0; helper = r.1; dirty = r.2; needs = false }))
    else some (record { node = n; helper = h; dirty = false; needs = false })

-- The loop of ApplyOffer: the nodes after it, the offer, `stateDirty` and the result.
unfoldable pub visits :
    Config → Outside → Map Node → OfferHelper → Option (Map Node × OfferHelper × Bool × Bool)
visits sc out [] h = some ([], h, false, false)
visits sc out ((k, n) ∷ m) h = do
  v ← visit sc out n h
  r ← visits sc out m v.helper
  some ((k, v.node) ∷ r.0, r.1, v.dirty || r.2, v.needs || r.3)

-- ApplyOffer up to the write of a dirty state, which the caller makes.
unfoldable pub apply_offer :
    Config → Outside → Cluster → OfferHelper → Option (Cluster × OfferHelper × Bool × Bool)
unfolding visits
apply_offer sc out c h = do
  r ← visits sc out c.nodes h
  some (record c { nodes = r.0 }, r.1, r.2, r.3)

unfoldable pub rolling_restart : Cluster → Cluster
rolling_restart c =
    if c.is_restarting then c else record c { is_restarting = true; generation = c.generation + 1 }

unfoldable pub kill_next : Cluster → Cluster
kill_next c = record c { is_killed = true }

unfoldable pub can_be_removed : Cluster → Bool
can_be_removed c = c.is_killed && (length c.nodes == 0)

unfoldable pub get_next_simple_id : Cluster → ℕ
get_next_simple_id c = length c.nodes + length c.graveyard + 1

unfoldable pub create_node : Config → Outside → Text → Cluster → Option (Cluster × Node)
unfolding get_next_simple_id
create_node sc out uuid c = do
  n ← new_framework_riak_node sc out uuid c.name c.generation (get_next_simple_id c)
  some (record c { nodes = insert (current_id n) n c.nodes }, n)

unfoldable pub has_node : Text → Cluster → Bool
has_node id c = has id c.nodes || has id c.graveyard

unfoldable pub remove_node : Node → Cluster → Cluster
remove_node n c = record c {
  nodes = erase (current_id n) c.nodes;
  graveyard = insert (current_id n) n c.graveyard;
}

-- What the loop of GetNodesToRestart has found when it ends: `alreadyRestarted`,
-- `currentlyRestarting`, and the node it picked, with its key.
pub record Scan : Type 0 where
  pub already_restarted : ℕ
  pub currently_restarting : ℕ
  pub picked : Option (Text × Node)

unfoldable pub scan : ℕ → Map Node → Scan
scan generation [] = record { already_restarted = 0; currently_restarting = 0; picked = none }
scan generation ((k, n) ∷ m) =
    let rest = scan generation m in
    if has_restarted generation n
    then record rest { already_restarted = suc rest.already_restarted }
    else if is_restarting generation n
    then record { already_restarted = 0; currently_restarting = 1; picked = none }
    else record { already_restarted = 0; currently_restarting = 0; picked = some (k, n) }

-- The picked node as it is told to restart, if none is restarting.
abbrev pub told : Cluster → Scan → Option (Text × Node)
told c s = elim s.picked [
  | none ↦ none
  | some (k, n) ↦
      if s.currently_restarting == 0 then some (k, restart c.generation n) else some (k, n)
]

abbrev pub put_back : Option (Text × Node) → Map Node → Map Node
put_back none m = m
put_back (some (k, n)) m = insert k n m

abbrev pub node_of : Option (Text × Node) → List Node
node_of none = []
node_of (some (k, n)) = n ∷ []

-- The new cluster, the nodes to restart, and whether the state was modified.
unfoldable pub get_nodes_to_restart : Cluster → Cluster × List Node × Bool
unfolding scan
get_nodes_to_restart c =
    let s = scan c.generation c.nodes in
    let t = told c s in
    let all_done = s.already_restarted == length c.nodes in
    if not c.is_restarting then (c, [], false) else (
      record c {
        nodes = put_back t c.nodes;
        is_restarting = if all_done then false else c.is_restarting;
      },
      node_of t,
      not (is_empty (node_of t)) && (s.currently_restarting == 0) || all_done,
    )

-- The nodes to kill and the nodes to remove, by id.
unfoldable pub get_nodes_to_kill_or_remove : Map Node → Map Node × Map Node → Map Node × Map Node
get_nodes_to_kill_or_remove [] found = found
get_nodes_to_kill_or_remove ((k, n) ∷ m) (to_kill, to_remove) = get_nodes_to_kill_or_remove m (
  if can_be_killed n then insert (current_id n) n to_kill else to_kill,
  if Node.can_be_removed n then insert (current_id n) n to_remove else to_remove,
)

-- Five seconds, in nanoseconds.
abbrev pub ask_again_after : ℕ
ask_again_after = 5_000_000_000

abbrev pub asks_now : ℕ → Node → Bool
asks_now now n = not n.reconciled && ltb (n.last_asked_to_reconcile + ask_again_after) now

-- The loop of GetNodeTasksToReconcile at the time `now`: the nodes after it, and the statuses.
unfoldable pub get_node_tasks_to_reconcile : ℕ → Map Node → Map Node × List TaskStatus
get_node_tasks_to_reconcile now [] = ([], [])
get_node_tasks_to_reconcile now ((k, n) ∷ m) =
    let rest = get_node_tasks_to_reconcile now m in
    elim (get_task_status n) [
      | none ↦ ((k, n) ∷ rest.0, rest.1)
      | some status ↦
          if asks_now now n
          then ((k, record n { last_asked_to_reconcile = now }) ∷ rest.0, status ∷ rest.1)
          else ((k, n) ∷ rest.0, rest.1)
    ]

-- The loop of Join: is some node of the cluster joined?
unfoldable pub join_any : Explorer → Map Node → Node → Bool
join_any ex [] new_node = false
join_any ex ((k, n) ∷ m) new_node =
    let rest = join_any ex m new_node in
    if can_be_joined n then (if do_join ex n new_node then true else rest) else rest

-- The running node, and whether it asked to join and did.
unfoldable pub join : Explorer → Map Node → Node → Node × Bool
unfolding join_any
join ex nodes n =
    if not (can_join_cluster n)
    then (run n, false)
    else if length nodes == 1
    then (run n, false)
    else (run n, join_any ex nodes n)

-- The loop of Leave; the leaving node is the one under the key `id`.
unfoldable pub leave_any : Explorer → Map Node → Text → Node → Bool
leave_any ex [] id n = false
leave_any ex ((k, s) ∷ m) id n =
    let rest = leave_any ex m id n in
    if can_be_joined s && not (text_eq k id) then (if do_leave ex s n then true else rest) else rest

-- Whether the node was removed from the Riak cluster.
unfoldable pub leave : Explorer → Map Node → Text → Node → Bool
unfolding leave_any
leave ex nodes id n = if length nodes == 1 then false else leave_any ex nodes id n

-- The switch of HandleNodeStatusUpdate: the node after it, and whether it left the Riak cluster.
unfoldable pub updated : Explorer → ℕ → Map Node → Text → TaskState → Node → Node × Bool
updated ex generation nodes id task_staging n = (start n, false)
updated ex generation nodes id task_starting n = (start n, false)
updated ex generation nodes id task_running n = ((join ex nodes n).0, false)
updated ex generation nodes id task_finished n =
    (finish n, if is_restarting generation (finish n) then false else leave ex nodes id (finish n))
updated ex generation nodes id task_failed n = (error n, false)
updated ex generation nodes id task_killed n = (kill n, leave ex nodes id n)
updated ex generation nodes id task_lost n = (error n, false)
updated ex generation nodes id task_error n = (error n, false)
updated ex generation nodes id task_other n = (n, false)

-- The assignments before the switch.
abbrev pub reported : TaskStatus → Node → Node
reported status n = record n {
  reconciled = true;
  task_status = some status;
  slave_id = status.slave_id;
}

-- An update for a node that is not there dereferences nil.
unfoldable pub handle_node_status_update : Explorer → TaskStatus → Cluster → Option Cluster
unfolding updated
handle_node_status_update ex status c = if has status.task_id c.graveyard then some c else do
  n ← lookup status.task_id c.nodes
  let n' = reported status n
  let nodes = insert status.task_id n' c.nodes
  let u = updated ex c.generation nodes status.task_id status.state n'
  some (record c { nodes = insert status.task_id u.0 nodes })
