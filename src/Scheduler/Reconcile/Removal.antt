-- ===== src/Scheduler/Reconcile/Removal.antt =====
-- What killTasks of scheduler/reconcilation.go makes of a cluster: nodes are buried, none is lost,
-- and the ids stay apart.
use mathlib.Core.Option.{some_inj}
use riak_mesos_legacy.Base.{
  ℕ, ◌+◌, ◌≡◌, refl, sym, ap, ◌∙◌, subst, inl, inr, Bool, true, false, not, List, [], ◌∷◌, Option,
  none, some, arith, length, ◌==◌, All, Bool-cases, Option-cases, if◌then◌else◌,
}
use riak_mesos_legacy.Base.Text.{Text, text_eq_iff, text_eq_refl}
use riak_mesos_legacy.Base.Map.{
  Map, Fresh, UniqueKeys, lookup, insert, has-lookup, lookup-erase, length-insert-has,
  UniqueKeys-insert, All-insert,
}
use riak_mesos_legacy.Scheduler.Node
use riak_mesos_legacy.Scheduler.Node.{
  Node, current_id, can_be_killed, has_restarted, is_restarting, restart,
}
use riak_mesos_legacy.Scheduler.Cluster.{
  Cluster, remove_node, get_nodes_to_kill_or_remove, Scan, scan, told, put_back,
  get_nodes_to_restart,
}
use riak_mesos_legacy.Scheduler.Cluster.Numbering.{
  IsNumbered, SameId, Holds, count, remove_node-IsNumbered, update-IsNumbered,
}
use riak_mesos_legacy.Scheduler.Reconcile.{
  Driver, Round, stop_nodes, values, remove_nodes, kill_round,
}

-- The entry stands in the map.
abbrev StandsIn : Map Node → Text × Node → Type 0
StandsIn m (k, n) = lookup k m ≡ some n

-- The entry is that of a node of the cluster, under its id.
abbrev IsOf : Cluster → Text × Node → Type 0
IsOf c (k, n) = (k ≡ current_id n) × (lookup k c.nodes ≡ some n)

StandsIn-cons :
    (k : Text) (n : Node) (m xs : Map Node)
    → Fresh k xs
    → All (StandsIn m) xs
    → All (StandsIn ((k, n) ∷ m)) xs
unfolding lookup
StandsIn-cons k n m [] f a = tt
StandsIn-cons k n m ((j, o) ∷ xs) f a =
    (ground (arith, text_eq_iff k j), StandsIn-cons k n m xs f.1 a.1)

UniqueKeys-StandsIn : (m : Map Node) → UniqueKeys m → All (StandsIn m) m
unfolding lookup
UniqueKeys-StandsIn [] u = tt
UniqueKeys-StandsIn ((k, n) ∷ m) u =
    (rw (text_eq_refl k) refl, StandsIn-cons k n m m u.0 (UniqueKeys-StandsIn m u.1))

module _ (framework : Text) where
  nodes-IsOf :
      (c : Cluster) (b : ℕ) (m : Map Node)
      → All (Holds framework c.name b) m
      → All (StandsIn c.nodes) m
      → All (IsOf c) m
  nodes-IsOf c b [] h s = tt
  nodes-IsOf c b ((k, n) ∷ m) h s = ((h.0.key, s.0), nodes-IsOf c b m h.1 s.1)

  IsNumbered-IsOf : (c : Cluster) → IsNumbered framework c → All (IsOf c) c.nodes
  IsNumbered-IsOf c v =
      nodes-IsOf c (count c) c.nodes v.live (UniqueKeys-StandsIn c.nodes v.live_keys)

removing-IsOf :
    (c : Cluster) (b : Bool) (n : Node) (remove : Map Node)
    → lookup (current_id n) c.nodes ≡ some n
    → UniqueKeys remove
    → All (IsOf c) remove
    → UniqueKeys (if b then insert (current_id n) n remove else remove)
      × All (IsOf c) (if b then insert (current_id n) n remove else remove)
removing-IsOf c true n remove e u r = (
  UniqueKeys-insert (current_id n) n remove u,
  All-insert (IsOf c) (current_id n) n remove (refl, e) r,
)
removing-IsOf c false n remove e u r = (u, r)

-- What GetNodesToKillOrRemove finds to remove are nodes of the cluster, each once.
get_nodes_to_kill_or_remove-IsOf :
    (c : Cluster) (m : Map Node) (kill remove : Map Node)
    → All (IsOf c) m
    → UniqueKeys remove
    → All (IsOf c) remove
    → UniqueKeys (get_nodes_to_kill_or_remove m (kill, remove)).1
      × All (IsOf c) (get_nodes_to_kill_or_remove m (kill, remove)).1
unfolding get_nodes_to_kill_or_remove
get_nodes_to_kill_or_remove-IsOf c [] kill remove a u r = (u, r)
get_nodes_to_kill_or_remove-IsOf c ((k, n) ∷ m) kill remove a u r =
    let at = ap (λ j. lookup j c.nodes) (sym (a.0).0) ∙ (a.0).1 in
    let (u', r') = removing-IsOf c (Node.can_be_removed n) n remove at u r in
    get_nodes_to_kill_or_remove-IsOf c m _ _ a.1 u' r'

IsOf-remove :
    (c : Cluster) (n : Node) (xs : Map Node)
    → Fresh (current_id n) xs
    → All (IsOf c) xs
    → All (IsOf (remove_node n c)) xs
unfolding remove_node
IsOf-remove c n [] f a = tt
IsOf-remove c n ((j, o) ∷ xs) f a = (
  ((a.0).0, ground (arith, text_eq_iff (current_id n) j, lookup-erase (current_id n) j c.nodes)),
  IsOf-remove c n xs f.1 a.1,
)

module _ (framework : Text) where
  remove_nodes-IsNumbered :
      (c : Cluster) (r : Map Node)
      → UniqueKeys r
      → All (IsOf c) r
      → IsNumbered framework c
      → IsNumbered framework (remove_nodes (values r) c)
        × (count (remove_nodes (values r) c) ≡ count c)
  unfolding remove_nodes
  remove_nodes-IsNumbered c [] u a v = (v, refl)
  remove_nodes-IsNumbered c ((k, n) ∷ r) u a v =
      let same : k ≡ current_id n = (a.0).0 in
      let (v', e) =
        remove_node-IsNumbered framework c n v (ap (λ j. lookup j c.nodes) (sym same) ∙ (a.0).1) in
      let (v'', e') =
        remove_nodes-IsNumbered (remove_node n c) r u.1
          (IsOf-remove c n r (subst (λ j. Fresh j r) same u.0) a.1) v' in
      (v'', e' ∙ e)

scan-picked :
    (g : ℕ) (m all : Map Node) (k : Text) (n : Node)
    → All (StandsIn all) m
    → (scan g m).picked ≡ some (k, n)
    → lookup k all ≡ some n
unfolding scan
scan-picked g [] all k n a e = absurd (cc e)
scan-picked g ((j, o) ∷ m) all k n a e = elim (Bool-cases (has_restarted g o)) [
  | inl done ↦ scan-picked g m all k n a.1 (rw done at e)
  | inr more ↦ elim (Bool-cases (is_restarting g o)) [
    | inl busy ↦ absurd (cc (rw (more, busy) at e))
    | inr idle ↦
        subst (λ (x : Text × Node). lookup x.0 all ≡ some x.1) (some_inj.0 (rw (more, idle) at e))
          a.0
  ]
]

-- The entry, if any, stands for a node of the cluster that has its id.
abbrev Replaces : Cluster → Option (Text × Node) → Type 0
Replaces c none = Unit {0}
Replaces c (some (k, n')) = (n : Node) × (lookup k c.nodes ≡ some n) × SameId n n'

picked-Replaces :
    (c : Cluster) (idle : Bool) (k : Text) (n : Node)
    → lookup k c.nodes ≡ some n
    → Replaces c (if idle then some (k, restart c.generation n) else some (k, n))
unfolding restart
picked-Replaces c true k n e =
    (n, e, record { framework_name = refl; cluster_name = refl; simple_id = refl })
picked-Replaces c false k n e =
    (n, e, record { framework_name = refl; cluster_name = refl; simple_id = refl })

told-Replaces :
    (c : Cluster) (s : Scan)
    → All (StandsIn c.nodes) c.nodes
    → s ≡ scan c.generation c.nodes
    → Replaces c (told c s)
told-Replaces c s a e = elim (Option-cases (s.picked)) [
  | inl nobody ↦ rw (Replaces, nobody) tt
  | inr ((k, n), found) ↦
      rw (Replaces, found)
        (picked-Replaces c (s.currently_restarting == 0) k n (
          scan-picked c.generation c.nodes c.nodes k n a
            (ap (λ (x : Scan). x.picked) (sym e) ∙ found)))
]

either {ℓ κ} :
    {A : Type ℓ} (P : A → Type κ) (b : Bool) (x y : A) → P x → P y → P (if b then x else y)
either P true x y p q = p
either P false x y p q = q

-- What a round leaves of the cluster.
pub kill_round-cluster :
    (d : Driver) (c : Cluster) (r : Round)
    → kill_round d c ≡ some r
    → (get_nodes_to_restart
        (remove_nodes (values ((get_nodes_to_kill_or_remove c.nodes ([], [])).1)) c)).0
      ≡ r.cluster
unfolding kill_round
kill_round-cluster d c r e =
    let found = get_nodes_to_kill_or_remove c.nodes ([], []) in
    let c' = remove_nodes (values found.1) c in
    elim (Option-cases (stop_nodes d (values found.0))) [
      | inl gone ↦ absurd (cc (rw (kill_round, gone) at e))
      | inr (killed, p) ↦ elim (Option-cases (stop_nodes d (get_nodes_to_restart c').1)) [
        | inl gone ↦ absurd (cc (rw (kill_round, p, gone) at e))
        | inr (again, q) ↦ ap (λ (x : Round). x.cluster) (some_inj.0 (rw (kill_round, p, q) at e))
      ]
    ]

module _ (framework : Text) where
  put_back-IsNumbered :
      (c : Cluster) (p : Option (Text × Node)) (restarting : Bool)
      → IsNumbered framework c
      → Replaces c p
      → let c' : Cluster = record c { nodes = put_back p c.nodes; is_restarting = restarting } in
        IsNumbered framework c' × (count c' ≡ count c)
  put_back-IsNumbered c none restarting v r = (
    record {
      live = v.live;
      dead = v.dead;
      live_keys = v.live_keys;
      dead_keys = v.dead_keys;
      apart = v.apart;
    },
    refl,
  )
  put_back-IsNumbered c (some (k, n')) restarting v (n, e, s) =
      let v' = update-IsNumbered framework c k n n' v e s in
      (
        record {
          live = v'.live;
          dead = v'.dead;
          live_keys = v'.live_keys;
          dead_keys = v'.dead_keys;
          apart = v'.apart;
        },
        ap (λ l. l + length c.graveyard)
            (length-insert-has k n' c.nodes (has-lookup k c.nodes n e)),
      )

  -- A pass of the rolling restart keeps the ids apart.
  get_nodes_to_restart-IsNumbered :
      (c : Cluster)
      → IsNumbered framework c
      → IsNumbered framework (get_nodes_to_restart c).0
        × (count (get_nodes_to_restart c).0 ≡ count c)
  unfolding get_nodes_to_restart
  get_nodes_to_restart-IsNumbered c v =
      let s = scan c.generation c.nodes in
      either
        (λ (r : Cluster × List Node × Bool). IsNumbered framework (r.0) × (count (r.0) ≡ count c))
        (not c.is_restarting) _ _ (v, refl)
        (put_back-IsNumbered c (told c s)
          (if s.already_restarted == length c.nodes then false else c.is_restarting) v
          (told-Replaces c s (UniqueKeys-StandsIn c.nodes v.live_keys) refl))

  -- If the ids of a cluster are apart, a round of killTasks that does not end the process keeps
  -- them apart, and keeps the number of its nodes, live and dead together.
  pub kill_round-IsNumbered :
      (d : Driver) (c : Cluster) (r : Round)
      → IsNumbered framework c
      → kill_round d c ≡ some r
      → IsNumbered framework r.cluster × (count r.cluster ≡ count c)
  unfolding kill_round
  kill_round-IsNumbered d c r v e =
      let found = get_nodes_to_kill_or_remove c.nodes ([], []) in
      let c' = remove_nodes (values found.1) c in
      let (u, a) =
        get_nodes_to_kill_or_remove-IsOf c c.nodes [] [] (IsNumbered-IsOf framework c v) tt tt in
      let (v', n) = remove_nodes-IsNumbered framework c found.1 u a v in
      let (v'', n') = get_nodes_to_restart-IsNumbered c' v' in
      subst (λ (x : Cluster). IsNumbered framework x × (count x ≡ count c))
        (kill_round-cluster d c r e) (v'', n' ∙ n)
