-- ===== src/Metadata/Tree.antt =====
-- The operations of metadata_manager/manager.go and framework.go on several nodes: namespaces, children,
-- and the start of the manager.
use riak_mesos_legacy.Base.{
  ℕ, zero, suc, Bool, true, false, List, [], ◌∷◌, ◌++◌, none, some, inl, inr, ◌⊎◌, if◌then◌else◌,
}
use riak_mesos_legacy.Base.Text.{Text, codes}
use riak_mesos_legacy.Base.Split.{contains, join, split}
use riak_mesos_legacy.Metadata.Namespace.{
  slash, Namespace, get_components, get_zk_path, make_sub_space, framework_namespace,
}
use riak_mesos_legacy.Metadata.Zookeeper.{ZkError, Zk}
use riak_mesos_legacy.Metadata.Retry.{
  Action, pure, panic, ◌>>=◌, ◌>>◌, call, Try, succeeded, failed, with_retry,
}
use riak_mesos_legacy.Metadata.Manager.{
  ZkNode, retries, log_panic, go_on, create_connection, get_node, make_node, make_node_with_data,
  create_if_not_exists,
}

module _ (z : Zk) where
  open z use {State}

  -- The loop over the components, from the one after `before`.
  unfoldable pub create_each : Bool → List Text → List Text → Action State (Unit {0})
  unfolding create_if_not_exists
  create_each ephemeral before [] = pure tt
  create_each ephemeral before (component ∷ rest) =
      let path = before ++ component ∷ [] in
      create_if_not_exists z (join slash path) ephemeral >> create_each ephemeral path rest

  unfoldable pub create_below_first : List Text → Bool → Action State (Unit {0})
  unfolding create_each
  create_below_first [] ephemeral = pure tt
  create_below_first (first ∷ rest) ephemeral = create_each ephemeral (first ∷ []) rest

  unfoldable pub create_ns_if_not_exists : Namespace → Bool → Action State (Unit {0})
  create_ns_if_not_exists ns = create_below_first (get_components ns)

  unfoldable pub create_path_if_not_exists : Text → Bool → Action State (Unit {0})
  create_path_if_not_exists path = create_below_first (split slash path)

  abbrev pub root_answer : ZkError ⊎ ZkNode → Action State (Try ZkError (Unit {0}) ZkNode)
  root_answer (inl e) = pure (failed e tt)
  root_answer (inr node) = pure (succeeded node)

  unfoldable pub try_get_root_node : Text → Unit {0} → Action State (Try ZkError (Unit {0}) ZkNode)
  unfolding get_node
  try_get_root_node framework_id _ = get_node z (framework_namespace framework_id) >>= root_answer

  -- GetRootNode, which tries again what getNode has tried.
  unfoldable pub get_root_node : Text → Action State ZkNode
  unfolding try_get_root_node
  get_root_node framework_id =
      with_retry (try_get_root_node framework_id) go_on log_panic retries tt

  -- The loop of getChildren over the names.
  unfoldable pub get_each : Namespace → List Text → Action State (ZkError ⊎ List ZkNode)
  unfolding get_node
  get_each ns [] = pure (inr [])
  get_each ns (name ∷ names) = get_node z (make_sub_space ns name) >>= λ r. elim r [
    | inl e ↦ pure (inl e)
    | inr node ↦ get_each ns names >>= λ rest. elim rest [
      | inl e ↦ pure (inl e)
      | inr nodes ↦ pure (inr (node ∷ nodes))
    ]
  ]

  -- getChildren, and getChildrenW but for its watch.
  unfoldable pub get_children : Namespace → Action State (List ZkNode)
  unfolding get_each
  get_children ns =
      with_retry
        (λ (_ : Unit {0}). call (z.children (get_zk_path ns)) >>= λ (names, error). elim error [
          | some e ↦ pure (failed e tt)
          | none ↦ get_each ns names >>= λ r. elim r [
            | inl e ↦ pure (failed e tt)
            | inr nodes ↦ pure (succeeded nodes)
          ]
        ])
        go_on log_panic retries tt

  -- The methods of ZkNode that make or read a child. A name with a slash panics.
  unfoldable pub below :
      {A : Type 0} → ZkNode → Text → (Namespace → Action State A) → Action State A
  below node name act = if contains slash name then panic else act (make_sub_space node.ns name)

  unfoldable pub make_empty_child : ZkNode → Text → Action State ZkNode
  unfolding below
  make_empty_child node name =
      below node name (λ ns. pure (record { stat = none; contents = []; ns = ns }))

  unfoldable pub make_child : ZkNode → Text → Bool → Action State (ZkError ⊎ ZkNode)
  unfolding below make_node
  make_child node name ephemeral = below node name (λ ns. make_node z ns ephemeral)

  unfoldable pub make_child_with_data :
      ZkNode → Text → Text → Bool → Action State (ZkError ⊎ ZkNode)
  unfolding below make_node_with_data
  make_child_with_data node name contents ephemeral =
      below node name (λ ns. make_node_with_data z ns contents ephemeral)

  unfoldable pub get_child : ZkNode → Text → Action State (ZkError ⊎ ZkNode)
  unfolding below get_node
  get_child node name = below node name (get_node z)

  unfoldable pub create_child_if_not_exists : ZkNode → Text → Action State (Unit {0})
  unfolding below create_ns_if_not_exists
  create_child_if_not_exists node name = below node name (λ ns. create_ns_if_not_exists ns false)

  -- The loop of DeleteChildrenWithRetry over the names of the children.
  unfoldable pub delete_each : (Text → Action State Bool) → Text → List Text → Action State Bool
  delete_each f path [] = pure true
  delete_each f path (name ∷ names) = f (path ++ slash ∷ name) >>= λ finished.
      if finished then delete_each f path names else pure false

  -- DeleteChildrenWithRetry, on fuel for the depth of its calls: `false` where that has run out. The
  -- tries that are left are passed on to the children.
  unfoldable pub delete_children_with_retry : ℕ → ℕ → Text → Action State Bool
  unfolding delete_each
  delete_children_with_retry zero left path = pure false
  delete_children_with_retry (suc fuel) left path = call (z.children path) >>= λ (names, _).
      elim names [
        | [] ↦ call (z.delete path) >>= λ error. elim error [
          | none ↦ pure true
          | some e ↦ elim left [
            | zero ↦ log_panic e
            | suc l ↦ delete_children_with_retry fuel l path
          ]
        ]
        | name ∷ more ↦ delete_each (delete_children_with_retry fuel left) path (name ∷ more)
      ]

  -- ZkNode.Delete.
  unfoldable pub delete_node : ℕ → ZkNode → Action State Bool
  unfolding delete_children_with_retry
  delete_node fuel node = delete_children_with_retry fuel retries (get_zk_path node.ns)

  -- NewMetadataManager.
  unfoldable pub new_metadata_manager : Text → Action State (Unit {0})
  unfolding create_connection create_ns_if_not_exists
  new_metadata_manager framework_id =
      create_connection z >> create_ns_if_not_exists (framework_namespace framework_id) false

  -- SetupFramework.
  unfoldable pub setup_framework : Text → Text → Action State (Unit {0})
  setup_framework framework_id uri =
      let below_root =
        λ (name : Text). get_zk_path (make_sub_space (framework_namespace framework_id) name) in
      call (z.lock (below_root (codes "lock"))) >>= λ locked. elim locked [
        | some e ↦ log_panic e
        | none ↦ call (z.create (below_root (codes "uri")) uri true) >>= λ error. elim error [
          | some e ↦ log_panic e
          | none ↦ pure tt
        ]
      ]
