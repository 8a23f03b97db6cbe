-- ===== src/Scheduler/Cluster/Numbering.antt =====
-- The ids of a cluster's nodes (scheduler/cluster.go): no two nodes, alive or dead, share one, so
-- that CreateNode never takes the place of another node.
pub mod Rewrites
use mathlib.Core.Option.{some_inj}
use riak_mesos_legacy.Base.{
  ℕ, suc, ◌+◌, ◌≤◌, ◌≡◌, ◌≢◌, refl, sym, ap, ◌∙◌, subst, inl, inr, true, false, List, [], ◌∷◌,
  Option, some, none, arith, length, if◌then◌else◌, All, All-map, Bool-cases,
}
use riak_mesos_legacy.Base.Opt.{>>=-eq-some}
use riak_mesos_legacy.Base.Text.{Text, text_eq, text_eq_iff}
use riak_mesos_legacy.Base.Map.{
  Map, Fresh, UniqueKeys, lookup, insert, erase, has, has-lookup, has-Fresh, lookup-insert,
  lookup-Fresh, length-insert-Fresh, length-insert-has, length-erase, Fresh-insert,
  Fresh-erase_self, UniqueKeys-insert, UniqueKeys-erase, All-insert, All-erase, All-lookup,
}
use riak_mesos_legacy.Scheduler.Config.{Config, Outside}
use riak_mesos_legacy.Scheduler.Node.{Node, new_framework_riak_node, current_id}
use riak_mesos_legacy.Scheduler.Node.Identity.{current_id_inj}
use riak_mesos_legacy.Scheduler.Cluster.{Cluster, create_node, remove_node}

-- An entry of the cluster's maps: the key is the node's id, its names are the cluster's, and its
-- number is at most `bound`.
pub record Holds (framework name : Text) (bound : ℕ) (entry : Text × Node) : Type 0 where
  pub key : entry.0 ≡ current_id entry.1
  pub framework_name : (entry.1).framework_name ≡ framework
  pub cluster_name : (entry.1).cluster_name ≡ name
  pub numbered : (entry.1).simple_id ≤ bound

abbrev pub count : Cluster → ℕ
count c = length c.nodes + length c.graveyard

pub record IsNumbered (framework : Text) (c : Cluster) : Type 0 where
  pub live : All (Holds framework c.name (count c)) c.nodes
  pub dead : All (Holds framework c.name (count c)) c.graveyard
  pub live_keys : UniqueKeys c.nodes
  pub dead_keys : UniqueKeys c.graveyard
  pub apart : All (λ entry. Fresh entry.0 c.graveyard) c.nodes

pub Holds-mono :
    (framework name : Text) (b b' : ℕ) (m : Map Node)
    → b ≤ b'
    → All (Holds framework name b) m
    → All (Holds framework name b') m
Holds-mono framework name b b' m le =
    All-map
      (λ e h. record {
        key = h.key;
        framework_name = h.framework_name;
        cluster_name = h.cluster_name;
        numbered = omega (arith, h.numbered, le);
      })
      m

-- Two nodes with one id.
pub record SameId (n n' : Node) : Type 0 where
  pub framework_name : n'.framework_name ≡ n.framework_name
  pub cluster_name : n'.cluster_name ≡ n.cluster_name
  pub simple_id : n'.simple_id ≡ n.simple_id

pub SameId-current_id : {n n' : Node} → SameId n n' → current_id n' ≡ current_id n
unfolding current_id
SameId-current_id s = cc (s.framework_name, s.cluster_name, s.simple_id)

pub SameId-Holds :
    {framework name : Text} {b : ℕ} {n n' : Node} (k : Text)
    → SameId n n'
    → Holds framework name b (k, n)
    → Holds framework name b (k, n')
SameId-Holds k s h = record {
  key = h.key ∙ sym (SameId-current_id s);
  framework_name = s.framework_name ∙ h.framework_name;
  cluster_name = s.cluster_name ∙ h.cluster_name;
  numbered = omega (arith, h.numbered, s.simple_id);
}

-- A number above all those in use makes an id that is not in use.
unused_id :
    (framework name : Text) (b : ℕ) (n : Node) (m : Map Node)
    → n.framework_name ≡ framework
    → n.cluster_name ≡ name
    → n.simple_id ≡ suc b
    → All (Holds framework name b) m
    → Fresh (current_id n) m
unused_id framework name b n [] f c e h = tt
unused_id framework name b n ((k, x) ∷ m) f c e h = (
  (λ p.
      let hx = h.0 in
      let same : x.simple_id ≡ n.simple_id =
        current_id_inj x n (hx.framework_name ∙ sym f) (hx.cluster_name ∙ sym c) (sym hx.key ∙ p) in
      absurd (omega (arith, hx.numbered, same, e))),
  unused_id framework name b n m f c e h.1,
)

apart-insert :
    (k : Text) (n : Node) (g m : Map Node)
    → Fresh k m
    → All (λ (e : Text × Node). Fresh e.0 g) m
    → All (λ (e : Text × Node). Fresh e.0 (insert k n g)) m
apart-insert k n g [] f h = tt
apart-insert k n g ((j, x) ∷ m) f h =
    (Fresh-insert j k n g (λ p. f.0 (sym p)) h.0, apart-insert k n g m f.1 h.1)

apart-erase :
    (k : Text) (n : Node) (g m : Map Node)
    → All (λ (e : Text × Node). Fresh e.0 g) m
    → All (λ (e : Text × Node). Fresh e.0 (insert k n g)) (erase k m)
apart-erase k n g m h =
    apart-insert k n g (erase k m) (Fresh-erase_self k m) (All-erase (λ e. Fresh e.0 g) k m h)

module _ (framework : Text) where
  -- If the ids of a cluster are apart, RemoveNode of a live node keeps them apart, and keeps the
  -- number of nodes, live and dead together.
  pub remove_node-IsNumbered :
      (c : Cluster) (n : Node)
      → IsNumbered framework c
      → lookup (current_id n) c.nodes ≡ some n
      → IsNumbered framework (remove_node n c) × (count (remove_node n c) ≡ count c)
  unfolding remove_node
  remove_node-IsNumbered c n v e = (
    record {
      live =
          Holds-mono framework c.name _ _ (erase k c.nodes) (omega (arith, same))
            (All-erase (Holds framework c.name (count c)) k c.nodes v.live);
      dead = Holds-mono framework c.name _ _ (insert k n c.graveyard) (omega (arith, same)) (
          All-insert (Holds framework c.name (count c)) k n c.graveyard
            (All-lookup (Holds framework c.name (count c)) k c.nodes n e v.live) v.dead);
      live_keys = UniqueKeys-erase k c.nodes v.live_keys;
      dead_keys = UniqueKeys-insert k n c.graveyard v.dead_keys;
      apart = apart-erase k n c.graveyard c.nodes v.apart;
    },
    same,
  )
    where
      k : Text
      k = current_id n

      unburied : Fresh k c.graveyard
      unburied = All-lookup (λ entry. Fresh entry.0 c.graveyard) k c.nodes n e v.apart

      same : length (erase k c.nodes) + length (insert k n c.graveyard) ≡ count c
      same = omega (
        arith,
        length-erase k c.nodes v.live_keys (has-lookup k c.nodes n e),
        length-insert-Fresh k n c.graveyard unburied,
      )

  -- A node that takes the place of another keeps its id: the ids stay apart.
  pub update-IsNumbered :
      (c : Cluster) (k : Text) (n n' : Node)
      → IsNumbered framework c
      → lookup k c.nodes ≡ some n
      → SameId n n'
      → IsNumbered framework (record c { nodes = insert k n' c.nodes })
  update-IsNumbered c k n n' v e s = record {
    live = Holds-mono framework c.name _ _ (insert k n' c.nodes) (omega (arith, same)) (
        All-insert (Holds framework c.name (count c)) k n' c.nodes
          (SameId-Holds k s (All-lookup (Holds framework c.name (count c)) k c.nodes n e v.live))
          v.live);
    dead = Holds-mono framework c.name _ _ c.graveyard (omega (arith, same)) v.dead;
    live_keys = UniqueKeys-insert k n' c.nodes v.live_keys;
    dead_keys = v.dead_keys;
    apart =
        All-insert (λ entry. Fresh entry.0 c.graveyard) k n' c.nodes
          (All-lookup (λ entry. Fresh entry.0 c.graveyard) k c.nodes n e v.apart) v.apart;
  }
    where
      same : length (insert k n' c.nodes) ≡ length c.nodes
      same = length-insert-has k n' c.nodes (has-lookup k c.nodes n e)

  add_node-IsNumbered :
      (c : Cluster) (n : Node)
      → n.framework_name ≡ framework
      → n.cluster_name ≡ c.name
      → n.simple_id ≡ suc (count c)
      → IsNumbered framework c
      → IsNumbered framework (record c { nodes = insert (current_id n) n c.nodes })
  add_node-IsNumbered c n f m e v = record {
    live =
        All-insert (Holds framework c.name _) k n c.nodes
          (record {
            key = refl;
            framework_name = f;
            cluster_name = m;
            numbered = omega (arith, grown, e);
          })
          (Holds-mono framework c.name _ _ c.nodes (omega (arith, grown)) v.live);
    dead = Holds-mono framework c.name _ _ c.graveyard (omega (arith, grown)) v.dead;
    live_keys = UniqueKeys-insert k n c.nodes v.live_keys;
    dead_keys = v.dead_keys;
    apart =
        All-insert (λ entry. Fresh entry.0 c.graveyard) k n c.nodes
          (unused_id framework c.name (count c) n c.graveyard f m e v.dead) v.apart;
  }
    where
      k : Text
      k = current_id n

      grown : length (insert k n c.nodes) ≡ suc (length c.nodes)
      grown =
          length-insert-Fresh k n c.nodes
            (unused_id framework c.name (count c) n c.nodes f m e v.live)

new_node_lem :
    (sc : Config) (out : Outside) (uuid name : Text) (g id : ℕ) (n : Node)
    → new_framework_riak_node sc out uuid name g id ≡ some n
    → (n.framework_name ≡ sc.framework_name) × (n.cluster_name ≡ name) × (n.simple_id ≡ id)
unfolding new_framework_riak_node
new_node_lem sc out uuid name g id n e = ground arith

module _ (framework : Text) where
  -- If the ids of a cluster are apart, CreateNode, when it does not panic, gives its node an id
  -- that no live or dead node of the cluster has, adds it, changes no other entry, and keeps the
  -- ids apart.
  pub create_node-IsNumbered :
      (sc : Config) (out : Outside) (uuid : Text) (c c' : Cluster) (n : Node)
      → sc.framework_name ≡ framework
      → IsNumbered framework c
      → create_node sc out uuid c ≡ some (c', n)
      → IsNumbered framework c'
        × (has (current_id n) c.nodes ≡ false)
        × (has (current_id n) c.graveyard ≡ false)
        × ((k : Text)
            → lookup k c'.nodes ≡ (if text_eq (current_id n) k then some n else lookup k c.nodes))
        × (c'.graveyard ≡ c.graveyard)
  unfolding create_node
  create_node-IsNumbered sc out uuid c c' n f v e =
      let (x, made, done) = >>=-eq-some _ _ e in
      let same : x ≡ n = ap (λ r. r.1) (some_inj.0 done) in
      let after : record c { nodes = insert (current_id n) n c.nodes } ≡ c' =
        subst
          (λ (y : Node).
            ◌≡◌ {A = Cluster} (record c { nodes = insert (current_id y) y c.nodes }) c')
          same (ap (λ r. r.0) (some_inj.0 done)) in
      let (fn, cn, id) = new_node_lem sc out uuid c.name c.generation _ n (made ∙ ap some same) in
      let number : n.simple_id ≡ suc (count c) = omega (arith, id) in
      (
        subst (IsNumbered framework) after (add_node-IsNumbered framework c n (fn ∙ f) cn number v),
        has-Fresh (current_id n) c.nodes
            (unused_id framework c.name (count c) n c.nodes (fn ∙ f) cn number v.live),
        has-Fresh (current_id n) c.graveyard
            (unused_id framework c.name (count c) n c.graveyard (fn ∙ f) cn number v.dead),
        (λ k.
            ap (λ (y : Cluster). lookup k y.nodes) (sym after)
            ∙ lookup-insert (current_id n) k n c.nodes),
        ap (λ (y : Cluster). y.graveyard) (sym after),
      )
