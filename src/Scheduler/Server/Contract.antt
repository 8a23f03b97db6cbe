-- ===== src/Scheduler/Server/Contract.antt =====
-- What the HTTP API of the scheduler promises (scheduler/server.go: ServeExecutorArtifact and the
-- handlers): which requests change the state, and what is stored before an answer is given.
use riak_mesos_legacy.Base.{
  suc, ◌≡◌, ◌⊎◌, refl, ap, inl, inr, false, Option, some, none, Bool-cases, Option-cases, leb,
}
use riak_mesos_legacy.Base.Text.{Text}
use riak_mesos_legacy.Base.Map.{lookup, has}
use riak_mesos_legacy.Scheduler.Config.{Config, Outside}
use riak_mesos_legacy.Scheduler.Cluster.{create_node}
use riak_mesos_legacy.Scheduler.Core.{
  Write, written, refused, unacknowledged, set_data, continue, Core, Outcome, done, panics,
  Zookeeper, exported, persist,
}
use riak_mesos_legacy.Scheduler.Server.{
  Reply, persist_and, create_cluster, restart_cluster, remove_cluster, set_config, get_config,
  set_advanced_config, get_advanced_config, serve_clusters, get_cluster, remove_node,
  create_node_handler, serve_nodes,
}
use riak_mesos_legacy.Scheduler.Server.Router.{
  Route, handle, clusters_route, create_cluster_route, restart_cluster_route, remove_cluster_route,
  get_cluster_route, nodes_route, create_node_route, remove_node_route, set_config_route,
  set_advanced_config_route, get_config_route, get_advanced_config_route, query_route,
  create_type_route,
}
use riak_mesos_legacy.RiakExplorer.{
  Result, ok, err, new_riak_explorer_client, create_bucket_type_json,
}
use riak_mesos_legacy.Scheduler.Explorer.{full_name, rex_hostname}
use riak_mesos_legacy.Scheduler.Server.Proxy.{
  Http, Query, ask, query_answer, create_type_answer, node_query, node_create_type,
}

-- An answer with the core as it was, or one given after the new state is stored.
abbrev pub Kept : Core → Core → Reply → Type 0
Kept core core' r =
    (core' ≡ core)
    ⊎ ((core'.stored ≡ exported core'.state)
        × (core'.persists ≡ suc core.persists)
        × (leb 400 r.code ≡ false))

-- A handler of requests keeps this: it answers so, or dies and leaves the state in the store, or
-- the whole new one.
abbrev pub Keeps : Core → Outcome Reply → Type 0
Keeps core (done core' r) = Kept core core' r
Keeps core (panics core') =
    (core' ≡ core)
    ⊎ ((core'.persists ≡ suc core.persists)
        × ((core'.stored ≡ core.stored) ⊎ (core'.stored ≡ exported core'.state)))

set_data-Keeps :
    (w : Write) (core changed : Core) (r : Reply)
    → changed.persists ≡ core.persists
    → changed.stored ≡ core.stored
    → leb 400 r.code ≡ false
    → Keeps core (continue (set_data w changed) (λ core' _. done core' r))
unfolding set_data
set_data-Keeps written core changed r p s fine = inr (refl, ap suc p, fine)
set_data-Keeps refused core changed r p s fine = inr (ap suc p, inl s)
set_data-Keeps unacknowledged core changed r p s fine = inr (ap suc p, inr refl)

persist_and-Keeps :
    (zk : Zookeeper) (core changed : Core) (r : Reply)
    → changed.persists ≡ core.persists
    → changed.stored ≡ core.stored
    → leb 400 r.code ≡ false
    → Keeps core (persist_and zk changed r)
unfolding persist
persist_and-Keeps zk core changed r = set_data-Keeps (zk changed.persists) core changed r

module _ (zk : Zookeeper) (core : Core) where
  create_cluster-Keeps :
      (out : Outside) (name : Text) → Keeps core (create_cluster out zk name core)
  unfolding create_cluster
  create_cluster-Keeps out name = elim (Bool-cases (has name core.state.clusters)) [
    | inl e ↦ rw (Keeps, e) (inl refl)
    | inr e ↦ rw (Keeps, e) (persist_and-Keeps zk core _ _ refl refl refl)
  ]

  restart_cluster-Keeps : (name : Text) → Keeps core (restart_cluster zk name core)
  unfolding restart_cluster
  restart_cluster-Keeps name = elim (Option-cases (lookup name core.state.clusters)) [
    | inl e ↦ rw (Keeps, e) (inl refl)
    | inr (c, e) ↦ rw (Keeps, e) (persist_and-Keeps zk core _ _ refl refl refl)
  ]

  remove_cluster-Keeps : (name : Text) → Keeps core (remove_cluster zk name core)
  unfolding remove_cluster
  remove_cluster-Keeps name = elim (Option-cases (lookup name core.state.clusters)) [
    | inl e ↦ rw (Keeps, e) (inl refl)
    | inr (c, e) ↦ rw (Keeps, e) (persist_and-Keeps zk core _ _ refl refl refl)
  ]

  set_config-Keeps : (name : Text) (body : Option Text) → Keeps core (set_config zk name body core)
  unfolding set_config
  set_config-Keeps name none = elim (Option-cases (lookup name core.state.clusters)) [
    | inl e ↦ rw (Keeps, e) (inl refl)
    | inr (c, e) ↦ rw (Keeps, e) (inl refl)
  ]
  set_config-Keeps name (some text) = elim (Option-cases (lookup name core.state.clusters)) [
    | inl e ↦ rw (Keeps, e) (inl refl)
    | inr (c, e) ↦ rw (Keeps, e) (persist_and-Keeps zk core _ _ refl refl refl)
  ]

  set_advanced_config-Keeps :
      (name : Text) (body : Option Text) → Keeps core (set_advanced_config zk name body core)
  unfolding set_advanced_config
  set_advanced_config-Keeps name none = elim (Option-cases (lookup name core.state.clusters)) [
    | inl e ↦ rw (Keeps, e) (inl refl)
    | inr (c, e) ↦ rw (Keeps, e) (inl refl)
  ]
  set_advanced_config-Keeps name (some text) =
      elim (Option-cases (lookup name core.state.clusters)) [
        | inl e ↦ rw (Keeps, e) (inl refl)
        | inr (c, e) ↦ rw (Keeps, e) (persist_and-Keeps zk core _ _ refl refl refl)
      ]

  get_cluster-Keeps : (name : Text) → Keeps core (get_cluster name core)
  unfolding get_cluster
  get_cluster-Keeps name = elim (Option-cases (lookup name core.state.clusters)) [
    | inl e ↦ rw (Keeps, e) (inl refl)
    | inr (c, e) ↦ rw (Keeps, e) (inl refl)
  ]

  serve_nodes-Keeps : (name : Text) → Keeps core (serve_nodes name core)
  unfolding serve_nodes
  serve_nodes-Keeps name = elim (Option-cases (lookup name core.state.clusters)) [
    | inl e ↦ rw (Keeps, e) (inl refl)
    | inr (c, e) ↦ rw (Keeps, e) (inl refl)
  ]

  get_config-Keeps : (name : Text) → Keeps core (get_config name core)
  unfolding get_config
  get_config-Keeps name = elim (Option-cases (lookup name core.state.clusters)) [
    | inl e ↦ rw (Keeps, e) (inl refl)
    | inr (c, e) ↦ rw (Keeps, e) (inl refl)
  ]

  get_advanced_config-Keeps : (name : Text) → Keeps core (get_advanced_config name core)
  unfolding get_advanced_config
  get_advanced_config-Keeps name = elim (Option-cases (lookup name core.state.clusters)) [
    | inl e ↦ rw (Keeps, e) (inl refl)
    | inr (c, e) ↦ rw (Keeps, e) (inl refl)
  ]

  remove_node-Keeps : (name id : Text) → Keeps core (remove_node zk name id core)
  unfolding remove_node
  remove_node-Keeps name id = elim (Option-cases (lookup name core.state.clusters)) [
    | inl e ↦ rw (Keeps, e) (inl refl)
    | inr (c, e) ↦
        rw (Keeps, e)
          (elim (Option-cases (lookup id c.nodes)) [
            | inl f ↦ rw (Keeps, f) (inl refl)
            | inr (n, f) ↦ rw (Keeps, f) (persist_and-Keeps zk core _ _ refl refl refl)
          ])
  ]

  create_node_handler-Keeps :
      (sc : Config) (out : Outside) (uuid name : Text)
      → Keeps core (create_node_handler sc out zk uuid name core)
  unfolding create_node_handler
  create_node_handler-Keeps sc out uuid name =
      elim (Option-cases (lookup name core.state.clusters)) [
        | inl e ↦ rw (Keeps, e) (inl refl)
        | inr (c, e) ↦
            rw (Keeps, e)
              (elim (Option-cases (create_node sc out uuid c)) [
                | inl f ↦ rw (Keeps, f) (inl refl)
                | inr (r, f) ↦ rw (Keeps, f) (persist_and-Keeps zk core _ _ refl refl refl)
              ])
      ]

  query_answer-Keeps : (http : Http) (r : Result Text) → Keeps core (query_answer http core r)
  unfolding query_answer
  query_answer-Keeps http (err _ e) = inl refl
  query_answer-Keeps http (ok text) = inl refl

  node_query-Keeps :
      (http : Http) (query : Query) (name id : Text)
      → Keeps core (node_query http query name id core)
  unfolding node_query
  node_query-Keeps http query name id = elim (Option-cases (lookup name core.state.clusters)) [
    | inl e ↦ rw (Keeps, e) (inl refl)
    | inr (c, e) ↦
        rw (Keeps, e)
          (elim (Option-cases (lookup id c.nodes)) [
            | inl f ↦ rw (Keeps, f) (inl refl)
            | inr (n, f) ↦
                rw (Keeps, f)
                  (query_answer-Keeps http
                    (ask http.web (new_riak_explorer_client (rex_hostname n)) query (full_name n)))
          ])
  ]

  create_type_answer-Keeps :
      (http : Http) (made : Option (Result Text)) → Keeps core (create_type_answer http core made)
  unfolding create_type_answer
  create_type_answer-Keeps http none = inl refl
  create_type_answer-Keeps http (some (err text e)) = inl refl
  create_type_answer-Keeps http (some (ok text)) = inl refl

  node_create_type-Keeps :
      (http : Http) (name id bucket_type : Text) (body : Option Text)
      → Keeps core (node_create_type http name id bucket_type body core)
  unfolding node_create_type
  node_create_type-Keeps http name id bucket_type none =
      elim (Option-cases (lookup name core.state.clusters)) [
        | inl e ↦ rw (Keeps, e) (inl refl)
        | inr (c, e) ↦
            rw (Keeps, e)
              (elim (Option-cases (lookup id c.nodes)) [
                | inl f ↦ rw (Keeps, f) (inl refl)
                | inr (n, f) ↦ rw (Keeps, f) (inl refl)
              ])
      ]
  node_create_type-Keeps http name id bucket_type (some props) =
      elim (Option-cases (lookup name core.state.clusters)) [
        | inl e ↦ rw (Keeps, e) (inl refl)
        | inr (c, e) ↦
            rw (Keeps, e)
              (elim (Option-cases (lookup id c.nodes)) [
                | inl f ↦ rw (Keeps, f) (inl refl)
                | inr (n, f) ↦
                    rw (Keeps, f)
                      (create_type_answer-Keeps http (
                        create_bucket_type_json http.web (new_riak_explorer_client (rex_hostname n))
                          (full_name n) bucket_type props))
              ])
      ]

-- Whatever the request, an answer of 400 or more leaves the state as it was; an answer that changes
-- it is given only after the whole new state is stored, once; and a request that dies leaves what was
-- stored, or has stored the whole new state.
pub handle-Keeps :
    (sc : Config) (out : Outside) (http : Http) (zk : Zookeeper) (route : Route) (core : Core)
    → Keeps core (handle sc out http zk route core)
unfolding handle serve_clusters
handle-Keeps sc out http zk clusters_route core = inl refl
handle-Keeps sc out http zk (create_cluster_route name) core = create_cluster-Keeps zk core out name
handle-Keeps sc out http zk (restart_cluster_route name) core = restart_cluster-Keeps zk core name
handle-Keeps sc out http zk (remove_cluster_route name) core = remove_cluster-Keeps zk core name
handle-Keeps sc out http zk (get_cluster_route name) core = get_cluster-Keeps zk core name
handle-Keeps sc out http zk (nodes_route name) core = serve_nodes-Keeps zk core name
handle-Keeps sc out http zk (create_node_route uuid name) core =
    create_node_handler-Keeps zk core sc out uuid name
handle-Keeps sc out http zk (remove_node_route name id) core = remove_node-Keeps zk core name id
handle-Keeps sc out http zk (set_config_route name body) core = set_config-Keeps zk core name body
handle-Keeps sc out http zk (set_advanced_config_route name body) core =
    set_advanced_config-Keeps zk core name body
handle-Keeps sc out http zk (get_config_route name) core = get_config-Keeps zk core name
handle-Keeps sc out http zk (get_advanced_config_route name) core =
    get_advanced_config-Keeps zk core name
handle-Keeps sc out http zk (query_route query name id) core =
    node_query-Keeps zk core http query name id
handle-Keeps sc out http zk (create_type_route name id bucket_type body) core =
    node_create_type-Keeps zk core http name id bucket_type body
