-- ===== src/Executor/Coordination/Address.antt =====
-- The namespace of a node's entry in Zookeeper (executor/node.go: getCoordinatedChild).
use riak_mesos_legacy.Base.{[], ◌≡◌, refl, true, Bool-cases, ◌⊎◌, inl, inr, Option-cases}
use riak_mesos_legacy.Base.Text.{Text, codes}
use riak_mesos_legacy.Base.Split.{contains}
use riak_mesos_legacy.Metadata.Namespace.{
  slash, Namespace, get_zk_path, make_sub_space, framework_namespace,
}
use riak_mesos_legacy.Metadata.Zookeeper.{ZkError, Zk}
use riak_mesos_legacy.Metadata.Retry.{Ran, Action, pure, with_retry, ◌>>=◌, ◌>>◌}
use riak_mesos_legacy.Metadata.Retry.Laws.{
  Ends, ends, breaks, Tried, tried, trying, Ends->>=, any-Ends, with_retry-Ends,
}
use riak_mesos_legacy.Metadata.Manager.{
  ZkNode, log_panic, create_connection, try_get_node, get_node, make_node, try_create, retries,
  go_on,
}
use riak_mesos_legacy.Metadata.Tree.{
  root_answer, try_get_root_node, get_root_node, create_child_if_not_exists, get_child, make_child,
  below,
}
use riak_mesos_legacy.Executor.Coordination.{node_or_panic, get_coordinated_child}

unfoldable pub entry : Text → Text → Namespace
entry framework_name task_id =
    make_sub_space
      (make_sub_space (make_sub_space (framework_namespace framework_name) (codes "coordinator"))
        (codes "coordinatedNodes"))
      task_id

-- A node that is given is that of the namespace.
abbrev pub GivesNode : Namespace → ZkError ⊎ ZkNode → Type 0
GivesNode ns (inl e) = Unit {0}
GivesNode ns (inr node) = node.ns ≡ ns

module _ (z : Zk) where
  open z use {State}

  -- Whatever it does, where it returns its result is as told.
  abbrev pub Gives : {A : Type 0} → (A → Type 0) → Ran State A → Type 0
  Gives P = Ends (λ s a. P a) (λ s. Unit {0})

  get_node-Gives : (ns : Namespace) (s : State) → Gives (GivesNode ns) (get_node z ns s)
  unfolding get_node try_get_node
  get_node-Gives ns s =
      with_retry-Ends (try_get_node z ns) (create_connection z) (λ e. pure (inl e))
        (λ _ _. Unit {0})
        (λ s _ _. elim (Option-cases (z.get (get_zk_path ns) s).1.error) [
          | inl fine ↦ rw fine (ends (tried refl))
          | inr (e, bad) ↦ rw bad (ends (trying tt))
        ])
        (λ s _ _. any-Ends (create_connection z s)) (λ s _ e _. ends tt) retries tt s tt

  root_answer-Tried :
      (ns : Namespace) (r : ZkError ⊎ ZkNode) (s : State)
      → GivesNode ns r
      → Gives (Tried (λ node. node.ns ≡ ns) (λ _. Unit {0})) (root_answer z r s)
  root_answer-Tried ns (inl e) s h = ends (trying tt)
  root_answer-Tried ns (inr node) s h = ends (tried h)

  try_root-Gives :
      (framework_name : Text) (s : State)
      → Gives
          (Tried (λ node. node.ns ≡ framework_namespace framework_name) (λ _. Unit {0}))
          (try_get_root_node z framework_name tt s)
  unfolding try_get_root_node
  try_root-Gives framework_name s =
      Ends->>= (get_node z (framework_namespace framework_name)) (root_answer z) s
        (get_node-Gives (framework_namespace framework_name) s)
        λ s' r h. root_answer-Tried (framework_namespace framework_name) r s' h

  get_root_node-Gives :
      (framework_name : Text) (s : State)
      → Gives
          (λ node. node.ns ≡ framework_namespace framework_name)
          (get_root_node z framework_name s)
  unfolding get_root_node
  get_root_node-Gives framework_name s =
      with_retry-Ends (try_get_root_node z framework_name) go_on log_panic (λ _ _. Unit {0})
        (λ s _ _. try_root-Gives framework_name s) (λ s _ _. ends tt) (λ s _ e _. breaks tt) retries
        tt s tt

  below-Gives :
      {A : Type 0} {P : A → Type 0} (node : ZkNode) (name : Text) (ns : Namespace)
      (act : Namespace → Action State A) (s : State)
      → node.ns ≡ ns
      → ((s : State) → Gives P (act (make_sub_space ns name) s))
      → Gives P (below z node name act s)
  unfolding below
  below-Gives node name ns act s e h = elim (Bool-cases (contains slash name)) [
    | inl bad ↦ rw bad (breaks tt)
    | inr fine ↦ rw (fine, e) (h s)
  ]

  node_or_panic-Gives :
      (ns : Namespace) (r : ZkError ⊎ ZkNode) (s : State)
      → GivesNode ns r
      → Gives (λ node. node.ns ≡ ns) (node_or_panic z r s)
  node_or_panic-Gives ns (inl e) s h = breaks tt
  node_or_panic-Gives ns (inr node) s h = ends h

  child-Gives :
      (node : ZkNode) (name : Text) (ns : Namespace) (s : State)
      → node.ns ≡ ns
      → Gives
          (λ child. child.ns ≡ make_sub_space ns name)
          ((create_child_if_not_exists z node name >> get_child z node name >>= node_or_panic z) s)
  unfolding get_child
  child-Gives node name ns s e =
      Ends->>= (create_child_if_not_exists z node name >> get_child z node name) (node_or_panic z) s
        (Ends->>= (create_child_if_not_exists z node name) (λ _. get_child z node name) s
          (any-Ends (create_child_if_not_exists z node name s))
          λ s' _ _.
            below-Gives node name ns (get_node z) s' e (get_node-Gives (make_sub_space ns name)))
        λ s'' r h. node_or_panic-Gives (make_sub_space ns name) r s'' h

  make_node-Gives : (ns : Namespace) (s : State) → Gives (GivesNode ns) (make_node z ns true s)
  unfolding make_node
  make_node-Gives ns s =
      Ends->>=
        (with_retry (try_create z (get_zk_path ns) [] true) (create_connection z) log_panic retries
          tt)
        (λ _. get_node z ns) s (any-Ends _) λ s' _ _. get_node-Gives ns s'

  made-Gives :
      (node : ZkNode) (name : Text) (ns : Namespace) (s : State)
      → node.ns ≡ ns
      → Gives
          (λ child. child.ns ≡ make_sub_space ns name)
          ((make_child z node name true >>= node_or_panic z) s)
  unfolding make_child
  made-Gives node name ns s e =
      Ends->>= (make_child z node name true) (node_or_panic z) s
        (below-Gives node name ns (λ n. make_node z n true) s e
          (make_node-Gives (make_sub_space ns name)))
        λ s' r h. node_or_panic-Gives (make_sub_space ns name) r s' h

  -- The node that getCoordinatedChild returns is the entry of the task.
  pub get_coordinated_child-Gives :
      (framework_name task_id : Text) (s : State)
      → Gives
          (λ child. child.ns ≡ entry framework_name task_id)
          (get_coordinated_child z framework_name task_id s)
  unfolding get_coordinated_child entry
  get_coordinated_child-Gives framework_name task_id s =
      Ends->>= (get_root_node z framework_name) _ s (get_root_node-Gives framework_name s)
        λ s1 root e1.
          Ends->>=
            (create_child_if_not_exists z root (codes "coordinator")
              >> get_child z root (codes "coordinator")
              >>= node_or_panic z)
            _ s1 (child-Gives root (codes "coordinator") (framework_namespace framework_name) s1 e1)
            λ s2 coordinator e2.
              Ends->>=
                (create_child_if_not_exists z coordinator (codes "coordinatedNodes")
                  >> get_child z coordinator (codes "coordinatedNodes")
                  >>= node_or_panic z)
                _ s2 (child-Gives coordinator (codes "coordinatedNodes") _ s2 e2)
                λ s3 nodes e3. made-Gives nodes task_id _ s3 e3
