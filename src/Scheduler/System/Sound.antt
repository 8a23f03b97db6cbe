-- ===== src/Scheduler/System/Sound.antt =====
-- What holds of the scheduler's state at all times (scheduler/state.go): every cluster is kept under
-- its name, once, and its nodes have ids of their own.
use riak_mesos_legacy.Base.{Option, ◌≡◌, refl, ◌∙◌, [], ◌∷◌, ◌++◌, All}
use riak_mesos_legacy.Base.Text.{Text}
use riak_mesos_legacy.Base.Map.{
  Map, UniqueKeys, insert, erase, UniqueKeys-insert, UniqueKeys-erase, All-insert, All-erase,
}
use riak_mesos_legacy.Base.Along.{Along, Along-refl, Along-UniqueKeys, Along-All}
use riak_mesos_legacy.Scheduler.Node.{Node}
use riak_mesos_legacy.Scheduler.Cluster.{Cluster}
use riak_mesos_legacy.Scheduler.Cluster.Numbering.{IsNumbered, SameId}
use riak_mesos_legacy.Scheduler.Cluster.Numbering.Rewrites.{
  Rewrites, Rewrites-IsNumbered, graveyard-IsNumbered,
}
use riak_mesos_legacy.Scheduler.Core.{
  SchedulerState, Core, Outcome, done, panics, continue, core_of, Write, written, refused,
  unacknowledged, Zookeeper, set_data, persist, restarted, exported_node, exported_cluster,
  exported, map_values, with_clusters,
}

module _ (framework : Text) where
  -- A cluster under its name.
  abbrev pub IsKept : Text × Cluster → Type 0
  IsKept (k, c) = (c.name ≡ k) × IsNumbered framework c

  abbrev pub AllKept : Map Cluster → Type 0
  AllKept m = All IsKept m × UniqueKeys m

  pub insert-AllKept :
      (k : Text) (c : Cluster) (m : Map Cluster)
      → IsKept (k, c)
      → AllKept m
      → AllKept (insert k c m)
  insert-AllKept k c m h v = (All-insert IsKept k c m h v.0, UniqueKeys-insert k c m v.1)

  pub erase-AllKept : (k : Text) (m : Map Cluster) → AllKept m → AllKept (erase k m)
  erase-AllKept k m v = (All-erase IsKept k m v.0, UniqueKeys-erase k m v.1)

  -- A change of one cluster that keeps its name and its ids.
  pub record Keeps (c c' : Cluster) : Type 0 where
    pub name : c'.name ≡ c.name
    pub numbered : IsNumbered framework c → IsNumbered framework c'

  pub Along-AllKept : (m m' : Map Cluster) → Along Keeps m m' → AllKept m → AllKept m'
  Along-AllKept m m' r v = (
    Along-All Keeps IsKept (λ k c c' kept h. (kept.name ∙ h.0, kept.numbered h.1)) m m' r v.0,
    Along-UniqueKeys Keeps m m' r v.1,
  )

  pub Keeps-refl : (c : Cluster) → Keeps c c
  Keeps-refl c = record { name = refl; numbered = λ v. v }

  -- One entry of a map changes.
  pub Along-middle :
      (before rest : Map Cluster) (k : Text) (c c' : Cluster)
      → Keeps c c'
      → Along Keeps (before ++ (k, c) ∷ rest) (before ++ (k, c') ∷ rest)
  Along-middle [] rest k c c' r = (refl, r, Along-refl Keeps Keeps-refl rest)
  Along-middle ((j, x) ∷ before) rest k c c' r =
      (refl, Keeps-refl x, Along-middle before rest k c c' r)

  -- A cluster with the same name and nodes.
  pub same_nodes-IsNumbered :
      (c c' : Cluster)
      → c'.name ≡ c.name
      → c'.nodes ≡ c.nodes
      → c'.graveyard ≡ c.graveyard
      → IsNumbered framework c
      → IsNumbered framework c'
  same_nodes-IsNumbered c c' p q r v = record {
    live = rw (p, q, r) v.live;
    dead = rw (p, q, r) v.dead;
    live_keys = rw q v.live_keys;
    dead_keys = rw r v.dead_keys;
    apart = rw (q, r) v.apart;
  }

  pub same_nodes-Keeps :
      (c c' : Cluster)
      → c'.name ≡ c.name
      → c'.nodes ≡ c.nodes
      → c'.graveyard ≡ c.graveyard
      → Keeps c c'
  same_nodes-Keeps c c' p q r = record { name = p; numbered = same_nodes-IsNumbered c c' p q r }

  pub map_values-Rewrites :
      (f : Node → Node)
      → ((n : Node) → SameId n (f n))
      → (m : Map Node) → Rewrites m (map_values f m)
  unfolding map_values
  map_values-Rewrites f h [] = tt
  map_values-Rewrites f h ((k, n) ∷ m) = (refl, h n, map_values-Rewrites f h m)

  exported_node-SameId : (n : Node) → SameId n (exported_node n)
  unfolding exported_node
  exported_node-SameId n = record { framework_name = refl; cluster_name = refl; simple_id = refl }

  exported_cluster-Keeps : (c : Cluster) → Keeps c (exported_cluster c)
  unfolding exported_cluster
  exported_cluster-Keeps c = record {
    name = refl;
    numbered = λ v.
        graveyard-IsNumbered framework (record c { nodes = map_values exported_node c.nodes }) _
          (map_values-Rewrites exported_node exported_node-SameId c.graveyard)
          (Rewrites-IsNumbered framework c _
            (map_values-Rewrites exported_node exported_node-SameId c.nodes) v);
  }

  exported-Along : (m : Map Cluster) → Along Keeps m (map_values exported_cluster m)
  unfolding map_values
  exported-Along [] = tt
  exported-Along ((k, c) ∷ m) = (refl, exported_cluster-Keeps c, exported-Along m)

-- The framework id is one that `P` holds of, and the clusters are kept.
module _ (framework : Text) (P : Option Text → Type 0) where
  pub record IsSound (s : SchedulerState) : Type 0 where
    pub known : P s.framework_id
    pub live : AllKept framework s.clusters
    pub dead : AllKept framework s.graveyard

  -- The state in memory and the state in Zookeeper.
  abbrev pub BothSound : Core → Type 0
  BothSound core = IsSound core.state × IsSound core.stored

  -- Where a step leaves a core, both of its states are sound.
  abbrev pub Leaves {ℓ} : {A : Type ℓ} → Outcome A → Type 0
  Leaves (done core a) = BothSound core
  Leaves (panics core) = BothSound core

  pub core_of-BothSound {ℓ} : {A : Type ℓ} (o : Outcome A) → Leaves o → BothSound (core_of o)
  core_of-BothSound (done core a) v = v
  core_of-BothSound (panics core) v = v

  exported-IsSound : (s : SchedulerState) → IsSound s → IsSound (exported s)
  unfolding exported
  exported-IsSound s v = record {
    known = v.known;
    live = Along-AllKept framework s.clusters _ (exported-Along framework s.clusters) v.live;
    dead = Along-AllKept framework s.graveyard _ (exported-Along framework s.graveyard) v.dead;
  }

  set_data-Leaves : (w : Write) (core : Core) → BothSound core → Leaves (set_data w core)
  unfolding set_data
  set_data-Leaves written core v = (v.0, exported-IsSound core.state v.0)
  set_data-Leaves refused core v = v
  set_data-Leaves unacknowledged core v = (v.0, exported-IsSound core.state v.0)

  pub persist-Leaves : (zk : Zookeeper) (core : Core) → BothSound core → Leaves (persist zk core)
  unfolding persist
  persist-Leaves zk core v = set_data-Leaves (zk core.persists) core v

  pub continue-Leaves {ℓ κ} :
      {A : Type ℓ} {B : Type κ} (o : Outcome A) (f : Core → A → Outcome B)
      → Leaves o
      → ((core : Core) (a : A) → o ≡ done core a → BothSound core → Leaves (f core a))
      → Leaves (continue o f)
  continue-Leaves (done core a) f v h = h core a refl v
  continue-Leaves (panics core) f v h = v

  pub with_clusters-BothSound :
      (core : Core) (m : Map Cluster)
      → AllKept framework m
      → BothSound core
      → BothSound (with_clusters core m)
  with_clusters-BothSound core m h v =
      (record { known = v.0.known; live = h; dead = v.0.dead }, v.1)

  pub restarted-BothSound :
      (master : Text) (core : Core) → BothSound core → BothSound (restarted master core)
  unfolding restarted
  restarted-BothSound master core v =
      (record { known = v.1.known; live = v.1.live; dead = v.1.dead }, v.1)
