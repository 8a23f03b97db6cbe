-- ===== src/Metadata/Manager.antt =====
-- metadata_manager/manager.go and framework.go: the nodes of Zookeeper behind loops of tries. The
-- retry of every loop is 10; a watch is not modelled.
pub mod Writes
pub mod Deletes
pub mod Ensure
pub mod Data
pub mod Prefixes
use riak_mesos_legacy.Base.{
  ℕ, zero, suc, Bool, true, false, List, [], ◌∷◌, ◌++◌, Option, none, some, inl, inr, ◌⊎◌,
  if◌then◌else◌, take, length,
}
use riak_mesos_legacy.Base.Text.{Text, codes}
use riak_mesos_legacy.Base.Split.{contains, join, split}
use riak_mesos_legacy.Metadata.Namespace.{
  slash, Namespace, get_components, get_zk_path, make_sub_space, framework_namespace,
}
use riak_mesos_legacy.Metadata.Zookeeper.{
  ZkError, Got, ConnState, no_connection, connected, has_session, connecting, other_state, Zk,
}
use riak_mesos_legacy.Metadata.Retry.{
  Ran, returned, panicked, Action, pure, panic, ◌>>=◌, ◌>>◌, call, Try, succeeded, failed,
  with_retry,
}

-- ZkNode without its manager.
pub record ZkNode : Type 0 where
  pub stat : Option ℕ
  pub contents : Text
  pub ns : Namespace

-- The retry of all the loops.
abbrev pub retries : ℕ
retries = 10

-- `log.Panic(err)`.
abbrev pub log_panic : {S A : Type 0} → ZkError → Action S A
log_panic e = panic

-- Where nothing is done before the next try.
abbrev pub go_on : {S : Type 0} → Action S (Unit {0})
go_on = pure tt

module _ (z : Zk) where
  open z use {State}

  opened : Option ZkError → Action State (Unit {0})
  opened none s = returned s tt
  opened (some e) s = panicked s

  reconnect : ConnState → Action State (Unit {0})
  unfolding opened
  reconnect no_connection s = let (s', e) = z.connect s in opened e s'
  reconnect connected s = returned s tt
  reconnect has_session s = returned s tt
  reconnect connecting s = returned s tt
  reconnect other_state s = let (s', e) = z.connect (z.close s) in opened e s'

  -- CreateConnection. The connection and the namespace that it sets are the same each time.
  unfoldable pub create_connection : Action State (Unit {0})
  unfolding reconnect
  create_connection s = reconnect (z.conn_state s) s

  -- The body of SetDataWithRetry. An error also leaves what Get and Set answered in the node.
  unfoldable pub try_set_data : Text → ZkNode → Action State (Try ZkError ZkNode ZkNode)
  try_set_data contents node =
      let path = get_zk_path node.ns in
      elim node.stat [
        | some _ ↦ call (z.get path) >>= λ g.
            let node' : ZkNode = record node { contents = g.data_read; stat = g.stat } in
            elim g.error [
              | some e ↦ pure (failed e node')
              | none ↦ elim g.stat [
                | none ↦ panic
                | some version ↦ call (z.set path contents version) >>= λ (stat, error).
                    elim error [
                      | some e ↦ pure (failed e (record node' { stat = stat }))
                      | none ↦ pure (succeeded (record node' { stat = stat }))
                    ]
              ]
            ]
        | none ↦ call (z.create path contents false) >>= λ error. elim error [
          | some e ↦ pure (failed e node)
          | none ↦ call (z.get path) >>= λ g.
              let node' : ZkNode = record node { contents = g.data_read; stat = g.stat } in
              elim g.error [ some e ↦ pure (failed e node') | none ↦ pure (succeeded node') ]
        ]
      ]

  -- SetData: the node after it. It returns no error.
  unfoldable pub set_data : Text → ZkNode → Action State ZkNode
  unfolding try_set_data create_connection
  set_data contents node =
      with_retry (try_set_data contents) create_connection log_panic retries node

  unfoldable pub try_get_node :
      Namespace → Unit {0} → Action State (Try ZkError (Unit {0}) (ZkError ⊎ ZkNode))
  try_get_node ns _ = call (z.get (get_zk_path ns)) >>= λ g. elim g.error [
    | some e ↦ pure (failed e tt)
    | none ↦ pure (succeeded (inr (record { stat = g.stat; contents = g.data_read; ns = ns })))
  ]

  -- getNode, which gives up by returning the error.
  unfoldable pub get_node : Namespace → Action State (ZkError ⊎ ZkNode)
  unfolding try_get_node create_connection
  get_node ns = with_retry (try_get_node ns) create_connection (λ e. pure (inl e)) retries tt

  unfoldable pub try_create :
      Text → Text → Bool → Unit {0} → Action State (Try ZkError (Unit {0}) (Unit {0}))
  try_create path contents ephemeral _ = call (z.create path contents ephemeral) >>= λ error.
      elim error [ some e ↦ pure (failed e tt) | none ↦ pure (succeeded tt) ]

  unfoldable pub make_node : Namespace → Bool → Action State (ZkError ⊎ ZkNode)
  unfolding try_create create_connection get_node
  make_node ns ephemeral =
      with_retry (try_create (get_zk_path ns) [] ephemeral) create_connection log_panic retries tt
      >> get_node ns

  -- The body of makeNodeWithDataWithRetry. Where the node exists, the errors of Get and Set are
  -- those of an inner `err`, and are dropped.
  unfoldable pub try_make_with_data :
      Text → Text → Bool → Unit {0} → Action State (Try ZkError (Unit {0}) (Unit {0}))
  unfolding try_create
  try_make_with_data path contents ephemeral _ = call (z.exists path) >>= λ (found, error).
      elim error [
        | some e ↦ pure (failed e tt)
        | none ↦
            if found
            then (call (z.get path) >>= λ g. elim g.error [
              | some _ ↦ pure (succeeded tt)
              | none ↦ elim g.stat [
                | none ↦ panic
                | some version ↦ call (z.set path contents version) >> pure (succeeded tt)
              ]
            ])
            else try_create path contents ephemeral tt
      ]

  unfoldable pub make_node_with_data : Namespace → Text → Bool → Action State (ZkError ⊎ ZkNode)
  unfolding try_make_with_data create_connection get_node
  make_node_with_data ns contents ephemeral =
      with_retry (try_make_with_data (get_zk_path ns) contents ephemeral) create_connection
        log_panic retries tt
      >> get_node ns

  unfoldable pub try_create_if_not_exists :
      Text → Bool → Unit {0} → Action State (Try ZkError (Unit {0}) (Unit {0}))
  unfolding try_create
  try_create_if_not_exists path ephemeral _ = call (z.exists path) >>= λ (found, error).
      elim error [
        | some e ↦ pure (failed e tt)
        | none ↦ if found then pure (succeeded tt) else try_create path [] ephemeral tt
      ]

  unfoldable pub create_if_not_exists : Text → Bool → Action State (Unit {0})
  unfolding try_create_if_not_exists
  create_if_not_exists path ephemeral =
      with_retry (try_create_if_not_exists path ephemeral) go_on log_panic retries tt
