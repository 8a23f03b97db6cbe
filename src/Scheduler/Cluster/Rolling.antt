-- ===== src/Scheduler/Cluster/Rolling.antt =====
-- The rolling restart of a cluster (scheduler/cluster.go: RollingRestart and GetNodesToRestart).
use riak_mesos_legacy.Base.{
  ℕ, ◌≤◌, ◌≡◌, ◌↔◌, refl, ap, ◌∙◌, inl, inr, Bool, true, false, [], ◌∷◌, ◌++◌, List, some, none,
  arith, length, All, Bool-cases,
}
use riak_mesos_legacy.Base.Text.{Text}
use riak_mesos_legacy.Base.Map.{Map, insert}
use riak_mesos_legacy.Scheduler.Node.{Node, has_restarted, is_restarting, restart}
use riak_mesos_legacy.Scheduler.Cluster.{Cluster, scan, get_nodes_to_restart}

abbrev pub Restarted : ℕ → Text × Node → Type 0
Restarted g (k, n) = has_restarted g n ≡ true

scan-le : (g : ℕ) (m : Map Node) → (scan g m).already_restarted ≤ length m
unfolding scan
scan-le g [] = omega arith
scan-le g ((k, n) ∷ m) = ground (arith, scan-le g m)

scan-All : (g : ℕ) (m : Map Node) → (scan g m).already_restarted ≡ length m → All (Restarted g) m
unfolding scan
scan-All g [] e = tt
scan-All g ((k, n) ∷ m) e = elim (Bool-cases (has_restarted g n)) [
  | inl done ↦ (done, scan-All g m (ground arith))
  | inr more ↦ absurd (ground (arith, scan-le g m))
]

All-scan :
    (g : ℕ) (m : Map Node)
    → All (Restarted g) m
    → scan g m ≡ record { already_restarted = length m; currently_restarting = 0; picked = none }
unfolding scan
All-scan g [] h = refl
All-scan g ((k, n) ∷ m) h = ground (arith, All-scan g m h.1)

-- In a rolling restart, the pass that finds every node restarted ends it, restarts no node and
-- reports a change.
rolling_ends :
    (c : Cluster)
    → c.is_restarting ≡ true
    → All (Restarted c.generation) c.nodes
    → get_nodes_to_restart c ≡ (record c { is_restarting = false }, [], true)
unfolding get_nodes_to_restart
rolling_ends c r h = ground (arith, All-scan c.generation c.nodes h)

-- A pass that ends a rolling restart has found every node restarted.
rolling_ends_only :
    (c : Cluster)
    → c.is_restarting ≡ true
    → (get_nodes_to_restart c).0.is_restarting ≡ false
    → All (Restarted c.generation) c.nodes
unfolding get_nodes_to_restart
rolling_ends_only c r h = scan-All c.generation c.nodes (ground arith)

-- In a rolling restart, a pass ends it exactly when it finds every node restarted.
pub rolling_ends_iff :
    (c : Cluster)
    → c.is_restarting ≡ true
    → ((get_nodes_to_restart c).0.is_restarting ≡ false) ↔ All (Restarted c.generation) c.nodes
rolling_ends_iff c r = (
  rolling_ends_only c r,
  (λ h. ap (λ (t : Cluster × List Node × Bool). (t.0).is_restarting) (rolling_ends c r h)),
)

-- A pass restarts at most one node.
get_nodes_to_restart-le : (c : Cluster) → length (get_nodes_to_restart c).1 ≤ 1
unfolding get_nodes_to_restart
get_nodes_to_restart-le c = ground arith

scan-append :
    (g : ℕ) (before : Map Node) (k : Text) (n : Node) (m : Map Node)
    → All (Restarted g) before
    → has_restarted g n ≡ false
    → is_restarting g n ≡ false
    → scan g (before ++ (k, n) ∷ m)
      ≡ record { already_restarted = length before; currently_restarting = 0; picked = some (k, n) }
unfolding scan
scan-append g [] k n m a h i = ground arith
scan-append g (x ∷ before) k n m a h i = ground (arith, scan-append g before k n m a.1 h i)

-- A pass looks no further than the first node that has not restarted: if that one has not been
-- restarting either, it is told to restart, whatever the nodes after it are doing.
pub rolling_picks_first :
    (c : Cluster) (before : Map Node) (k : Text) (n : Node) (m : Map Node)
    → c.is_restarting ≡ true
    → c.nodes ≡ before ++ (k, n) ∷ m
    → All (Restarted c.generation) before
    → has_restarted c.generation n ≡ false
    → is_restarting c.generation n ≡ false
    → ((get_nodes_to_restart c).1 ≡ restart c.generation n ∷ [])
      × ((get_nodes_to_restart c).0.nodes ≡ insert k (restart c.generation n) c.nodes)
unfolding get_nodes_to_restart
rolling_picks_first c before k n m r e a h i =
    let s = ap (scan c.generation) e ∙ scan-append c.generation before k n m a h i in
    (ground (arith, s), ground (arith, s))
