-- ===== src/Scheduler/System/Requests.antt =====
-- The requests to the HTTP API (scheduler/server.go) and the state.
use riak_mesos_legacy.Base.{
  ◌≡◌, refl, ◌∙◌, inl, inr, Option, none, some, arith, Bool-cases, Option-cases,
}
use riak_mesos_legacy.Base.Text.{Text}
use riak_mesos_legacy.Base.Map.{lookup, has, All-lookup}
use riak_mesos_legacy.Scheduler.Config.{Config, Outside}
use riak_mesos_legacy.Scheduler.Node.{Node}
use riak_mesos_legacy.Scheduler.Node
use riak_mesos_legacy.Scheduler.Cluster.{
  Cluster, new_framework_riak_cluster, rolling_restart, kill_next, create_node,
}
use riak_mesos_legacy.Scheduler.Cluster.Numbering.{
  SameId, create_node-IsNumbered, update-IsNumbered,
}
use riak_mesos_legacy.Scheduler.Cluster.Numbering.Rewrites.{Rewrites-IsNumbered}
use riak_mesos_legacy.Scheduler.Core.{Core, Outcome, done, Zookeeper, persist, map_values}
use riak_mesos_legacy.Scheduler.Server.{
  Reply, persist_and, put_cluster, create_cluster, restart_cluster, remove_cluster, set_config,
  get_config, set_advanced_config, get_advanced_config, serve_clusters, get_cluster, remove_node,
  create_node_handler, serve_nodes,
}
use riak_mesos_legacy.Scheduler.Server.Router.{
  Route, handle, clusters_route, create_cluster_route, restart_cluster_route, remove_cluster_route,
  get_cluster_route, nodes_route, create_node_route, remove_node_route, set_config_route,
  set_advanced_config_route, get_config_route, get_advanced_config_route, query_route,
  create_type_route,
}
use riak_mesos_legacy.RiakExplorer.{Result, ok, err}
use riak_mesos_legacy.Scheduler.Server.Proxy.{
  Http, Query, query_answer, node_query, create_type_answer, node_create_type,
}
use riak_mesos_legacy.Scheduler.System.Sound.{
  IsKept, BothSound, Leaves, Keeps, insert-AllKept, same_nodes-Keeps, map_values-Rewrites,
  persist-Leaves, continue-Leaves, with_clusters-BothSound,
}

create_node-name :
    (sc : Config) (out : Outside) (uuid : Text) (c c' : Cluster) (n : Node)
    → create_node sc out uuid c ≡ some (c', n)
    → c'.name ≡ c.name
unfolding create_node
create_node-name sc out uuid c c' n e = ground arith

module _ (framework : Text) (P : Option Text → Type 0) (zk : Zookeeper) (core : Core)
    (v : BothSound framework P core) where
  found-IsKept :
      (name : Text) (c : Cluster)
      → lookup name core.state.clusters ≡ some c
      → IsKept framework (name, c)
  found-IsKept name c e = All-lookup (IsKept framework) name core.state.clusters c e v.0.live.0

  -- A handler that looks a cluster up, and a node of it.
  with_cluster-Leaves :
      (name : Text) (missing : Outcome Reply) (found : Cluster → Outcome Reply)
      → Leaves framework P missing
      → ((c : Cluster) → lookup name core.state.clusters ≡ some c → Leaves framework P (found c))
      → Leaves framework P
          (elim (lookup name core.state.clusters) [ none ↦ missing | some c ↦ found c ])
  with_cluster-Leaves name missing found h f =
      elim (Option-cases (lookup name core.state.clusters)) [
        | inl e ↦ rw (Leaves, e) h
        | inr (c, e) ↦ rw (Leaves, e) (f c e)
      ]

  with_node-Leaves :
      (id : Text) (c : Cluster) (missing : Outcome Reply) (found : Node → Outcome Reply)
      → Leaves framework P missing
      → ((n : Node) → lookup id c.nodes ≡ some n → Leaves framework P (found n))
      → Leaves framework P (elim (lookup id c.nodes) [ none ↦ missing | some n ↦ found n ])
  with_node-Leaves id c missing found h f = elim (Option-cases (lookup id c.nodes)) [
    | inl e ↦ rw (Leaves, e) h
    | inr (n, e) ↦ rw (Leaves, e) (f n e)
  ]

  -- A handler that puts a cluster in its place, stores the state and answers.
  put-Leaves :
      (name : Text) (c : Cluster) (r : Reply)
      → IsKept framework (name, c)
      → Leaves framework P (persist_and zk (put_cluster core name c) r)
  put-Leaves name c r h =
      continue-Leaves framework P (persist zk (put_cluster core name c)) (λ core' _. done core' r)
        (persist-Leaves framework P zk (put_cluster core name c) (
          with_clusters-BothSound framework P core _
            (insert-AllKept framework name c core.state.clusters h v.0.live) v))
        (λ core' _ _ after. after)

  change-Leaves :
      (name : Text) (c c' : Cluster) (r : Reply)
      → lookup name core.state.clusters ≡ some c
      → Keeps framework c c'
      → Leaves framework P (persist_and zk (put_cluster core name c') r)
  change-Leaves name c c' r e k =
      let (named, numbered) = found-IsKept name c e in
      put-Leaves name c' r (k.name ∙ named, k.numbered numbered)

  create_cluster-Leaves :
      (out : Outside) (name : Text) → Leaves framework P (create_cluster out zk name core)
  unfolding create_cluster new_framework_riak_cluster
  create_cluster-Leaves out name = elim (Bool-cases (has name core.state.clusters)) [
    | inl e ↦ rw (Leaves, e) v
    | inr e ↦
        rw (Leaves, e)
          (put-Leaves name _ _
            (refl, record { live = tt; dead = tt; live_keys = tt; dead_keys = tt; apart = tt }))
  ]

  rolling_restart-Keeps : (c : Cluster) → Keeps framework c (rolling_restart c)
  unfolding rolling_restart
  rolling_restart-Keeps c = elim (Bool-cases c.is_restarting) [
    | inl e ↦ same_nodes-Keeps framework c _ (rw e refl) (rw e refl) (rw e refl)
    | inr e ↦ same_nodes-Keeps framework c _ (rw e refl) (rw e refl) (rw e refl)
  ]

  restart_cluster-Leaves : (name : Text) → Leaves framework P (restart_cluster zk name core)
  unfolding restart_cluster
  restart_cluster-Leaves name =
      with_cluster-Leaves name _ _ v (λ c e. change-Leaves name c _ _ e (rolling_restart-Keeps c))

  -- A cluster whose nodes are replaced by nodes with the same ids.
  kill_next-SameId : (n : Node) → SameId n (Node.kill_next n)
  unfolding Node.kill_next
  kill_next-SameId n = record { framework_name = refl; cluster_name = refl; simple_id = refl }

  killed-Keeps :
      (c : Cluster)
      → Keeps framework c (kill_next (record c { nodes = map_values Node.kill_next c.nodes }))
  unfolding kill_next
  killed-Keeps c = record {
    name = refl;
    numbered = λ w.
        let again =
          Rewrites-IsNumbered framework c _
            (map_values-Rewrites framework Node.kill_next kill_next-SameId c.nodes) w in
        (same_nodes-Keeps framework (record c { nodes = map_values Node.kill_next c.nodes }) _ refl
            refl refl).numbered
          again;
  }

  remove_cluster-Leaves : (name : Text) → Leaves framework P (remove_cluster zk name core)
  unfolding remove_cluster
  remove_cluster-Leaves name =
      with_cluster-Leaves name _ _ v (λ c e. change-Leaves name c _ _ e (killed-Keeps c))

  set_config-Leaves :
      (name : Text) (body : Option Text) → Leaves framework P (set_config zk name body core)
  unfolding set_config
  set_config-Leaves name none = with_cluster-Leaves name _ _ v (λ c e. v)
  set_config-Leaves name (some text) =
      with_cluster-Leaves name _ _ v
        (λ c e. change-Leaves name c _ _ e (same_nodes-Keeps framework c _ refl refl refl))

  set_advanced_config-Leaves :
      (name : Text) (body : Option Text)
      → Leaves framework P (set_advanced_config zk name body core)
  unfolding set_advanced_config
  set_advanced_config-Leaves name none = with_cluster-Leaves name _ _ v (λ c e. v)
  set_advanced_config-Leaves name (some text) =
      with_cluster-Leaves name _ _ v
        (λ c e. change-Leaves name c _ _ e (same_nodes-Keeps framework c _ refl refl refl))

  remove_node-Leaves : (name id : Text) → Leaves framework P (remove_node zk name id core)
  unfolding remove_node
  remove_node-Leaves name id = with_cluster-Leaves name _ _ v (λ c e.
      with_node-Leaves id c _ _ v (λ n f. change-Leaves name c _ _ e (record {
        name = refl;
        numbered = λ w. update-IsNumbered framework c id n _ w f (kill_next-SameId n);
      })))

  create_node-Keeps :
      (sc : Config) (out : Outside) (uuid : Text) (c c' : Cluster) (n : Node)
      → sc.framework_name ≡ framework
      → create_node sc out uuid c ≡ some (c', n)
      → Keeps framework c c'
  create_node-Keeps sc out uuid c c' n f e = record {
    name = create_node-name sc out uuid c c' n e;
    numbered = λ w. (create_node-IsNumbered framework sc out uuid c c' n f w e).0;
  }

  create_node_handler-Leaves :
      (sc : Config) (out : Outside) (uuid name : Text)
      → sc.framework_name ≡ framework
      → Leaves framework P (create_node_handler sc out zk uuid name core)
  unfolding create_node_handler
  create_node_handler-Leaves sc out uuid name f = with_cluster-Leaves name _ _ v (λ c e.
      elim (Option-cases (create_node sc out uuid c)) [
        | inl g ↦ rw (Leaves, g) v
        | inr ((c', n), g) ↦
            rw (Leaves, g) (change-Leaves name c c' _ e (create_node-Keeps sc out uuid c c' n f g))
      ])

  get_config-Leaves : (name : Text) → Leaves framework P (get_config name core)
  unfolding get_config
  get_config-Leaves name = with_cluster-Leaves name _ _ v (λ c e. v)

  get_advanced_config-Leaves : (name : Text) → Leaves framework P (get_advanced_config name core)
  unfolding get_advanced_config
  get_advanced_config-Leaves name = with_cluster-Leaves name _ _ v (λ c e. v)

  get_cluster-Leaves : (name : Text) → Leaves framework P (get_cluster name core)
  unfolding get_cluster
  get_cluster-Leaves name = with_cluster-Leaves name _ _ v (λ c e. v)

  serve_nodes-Leaves : (name : Text) → Leaves framework P (serve_nodes name core)
  unfolding serve_nodes
  serve_nodes-Leaves name = with_cluster-Leaves name _ _ v (λ c e. v)

  query_answer-Leaves :
      (http : Http) (r : Result Text) → Leaves framework P (query_answer http core r)
  unfolding query_answer
  query_answer-Leaves http (err _ e) = v
  query_answer-Leaves http (ok text) = v

  node_query-Leaves :
      (http : Http) (query : Query) (name id : Text)
      → Leaves framework P (node_query http query name id core)
  unfolding node_query
  node_query-Leaves http query name id =
      with_cluster-Leaves name _ _ v
        (λ c e. with_node-Leaves id c _ _ v (λ n f. query_answer-Leaves http _))

  create_type_answer-Leaves :
      (http : Http) (made : Option (Result Text))
      → Leaves framework P (create_type_answer http core made)
  unfolding create_type_answer
  create_type_answer-Leaves http none = v
  create_type_answer-Leaves http (some (err text e)) = v
  create_type_answer-Leaves http (some (ok text)) = v

  node_create_type-Leaves :
      (http : Http) (name id bucket_type : Text) (body : Option Text)
      → Leaves framework P (node_create_type http name id bucket_type body core)
  unfolding node_create_type
  node_create_type-Leaves http name id bucket_type none =
      with_cluster-Leaves name _ _ v (λ c e. with_node-Leaves id c _ _ v (λ n f. v))
  node_create_type-Leaves http name id bucket_type (some props) =
      with_cluster-Leaves name _ _ v
        (λ c e. with_node-Leaves id c _ _ v (λ n f. create_type_answer-Leaves http _))

  -- Where the two states of the core are sound, a request leaves them sound.
  pub handle-Leaves :
      (sc : Config) (out : Outside) (http : Http) (route : Route)
      → sc.framework_name ≡ framework
      → Leaves framework P (handle sc out http zk route core)
  unfolding handle serve_clusters
  handle-Leaves sc out http clusters_route f = v
  handle-Leaves sc out http (create_cluster_route name) f = create_cluster-Leaves out name
  handle-Leaves sc out http (restart_cluster_route name) f = restart_cluster-Leaves name
  handle-Leaves sc out http (remove_cluster_route name) f = remove_cluster-Leaves name
  handle-Leaves sc out http (get_cluster_route name) f = get_cluster-Leaves name
  handle-Leaves sc out http (nodes_route name) f = serve_nodes-Leaves name
  handle-Leaves sc out http (create_node_route uuid name) f =
      create_node_handler-Leaves sc out uuid name f
  handle-Leaves sc out http (remove_node_route name id) f = remove_node-Leaves name id
  handle-Leaves sc out http (set_config_route name body) f = set_config-Leaves name body
  handle-Leaves sc out http (set_advanced_config_route name body) f =
      set_advanced_config-Leaves name body
  handle-Leaves sc out http (get_config_route name) f = get_config-Leaves name
  handle-Leaves sc out http (get_advanced_config_route name) f = get_advanced_config-Leaves name
  handle-Leaves sc out http (query_route query name id) f = node_query-Leaves http query name id
  handle-Leaves sc out http (create_type_route name id bucket_type body) f =
      node_create_type-Leaves http name id bucket_type body
