-- ===== src/Scheduler/Server/Routes.antt =====
-- The table of routes of ServeExecutorArtifact (scheduler/server.go) and the handler of a request. The
-- router is that of gorilla/mux, which is a parameter. The files below /static/ and the profiler below
-- /debug are left out, as is the redirect of a path that ends in a slash.
pub mod Mux
pub mod Unambiguous
pub mod Requests
use riak_mesos_legacy.Base.{
  ℕ, zero, suc, Bool, true, false, not, ◌&&◌, ◌||◌, List, [], ◌∷◌, ◌++◌, Option, none, some,
  if◌then◌else◌, is_empty,
}
use riak_mesos_legacy.Base.Opt.{◌>>=◌}
use riak_mesos_legacy.Base.Text.{Text, codes, text_eq}
use riak_mesos_legacy.Scheduler.Config.{Config, Outside}
use riak_mesos_legacy.Scheduler.Core.{Core, Outcome, done, Zookeeper}
use riak_mesos_legacy.Scheduler.Server.{Reply, reply, message}
use riak_mesos_legacy.Scheduler.Server.Proxy.{Http, Query}
use riak_mesos_legacy.Scheduler.Server.Router.{
  Route, handle, clusters_route, create_cluster_route, restart_cluster_route, remove_cluster_route,
  get_cluster_route, nodes_route, create_node_route, remove_node_route, set_config_route,
  set_advanced_config_route, get_config_route, get_advanced_config_route, query_route,
  create_type_route,
}

-- A part of a path: a word, or a variable, which stands for any text that is not empty.
pub data Part : Type 0 where
  word : Text → Part
  variable : Part

-- The handlers.
pub data Handler : Type 0 where
  serve_clusters create_cluster restart_cluster remove_cluster get_cluster serve_nodes : Handler
  remove_node node_create_type set_config get_config set_advanced_config : Handler
  get_advanced_config create_node healthcheck : Handler
  node_query : Query → Handler

-- A line of the table; without methods it takes them all.
pub record Entry : Type 0 where
  pub methods : List Text
  pub template : List Part
  pub handler : Handler

abbrev clusters : List Part → List Part
clusters rest = word (codes "api") ∷ word (codes "v1") ∷ word (codes "clusters") ∷ rest

abbrev cluster : List Part → List Part
cluster rest = clusters (variable ∷ rest)

abbrev node : List Part → List Part
node rest = cluster (word (codes "nodes") ∷ variable ∷ rest)

abbrev entry : List Text → List Part → Handler → Entry
entry methods template handler = record {
  methods = methods;
  template = template;
  handler = handler;
}

abbrev get : List Text
get = codes "GET" ∷ []

abbrev post : List Text
post = codes "POST" ∷ []

abbrev delete : List Text
delete = codes "DELETE" ∷ []

-- The table, in its order.
abbrev pub table : List Entry
table =
    entry [] (clusters []) serve_clusters
    ∷ entry (codes "POST" ∷ codes "PUT" ∷ []) (cluster []) create_cluster
    ∷ entry post (cluster (word (codes "restart") ∷ [])) restart_cluster
    ∷ entry delete (cluster []) remove_cluster
    ∷ entry get (cluster []) get_cluster
    ∷ entry get (cluster (word (codes "nodes") ∷ [])) serve_nodes
    ∷ entry delete (node []) remove_node
    ∷ entry get (node (word (codes "aae") ∷ [])) (node_query Query.aae_status)
    ∷ entry get (node (word (codes "status") ∷ [])) (node_query Query.status)
    ∷ entry get (node (word (codes "ringready") ∷ [])) (node_query Query.ringready)
    ∷ entry get (node (word (codes "transfers") ∷ [])) (node_query Query.transfers)
    ∷ entry post (node (word (codes "types") ∷ variable ∷ [])) node_create_type
    ∷ entry get (node (word (codes "types") ∷ [])) (node_query Query.bucket_types)
    ∷ entry post (cluster (word (codes "config") ∷ [])) set_config
    ∷ entry get (cluster (word (codes "config") ∷ [])) get_config
    ∷ entry post (cluster (word (codes "advancedConfig") ∷ [])) set_advanced_config
    ∷ entry get (cluster (word (codes "advancedConfig") ∷ [])) get_advanced_config
    ∷ entry post (cluster (word (codes "nodes") ∷ [])) create_node
    ∷ entry get (word (codes "healthcheck") ∷ []) healthcheck
    ∷ []

-- The router of gorilla/mux: of the registered entries it picks the handler of a request, by its method
-- and the parts of its path, with the values of the variables; `none` is its answer 404.
abbrev pub Mux : Type 0
Mux = List Entry → Text → List Text → Option (Handler × List Text)

-- The value of a variable: cluster, node and buckettype stand in this order in every template. A
-- variable that the router did not set is the empty text.
unfoldable variable_at : ℕ → List Text → Text
variable_at k [] = []
variable_at zero (v ∷ vars) = v
variable_at (suc k) (v ∷ vars) = variable_at k vars

-- The handler's request, from the variables, the body and a fresh identifier. `healthcheck` asks nothing.
unfoldable pub route_of : Text → Option Text → Handler × List Text → Option Route
unfolding variable_at
route_of uuid body (serve_clusters, vars) = some clusters_route
route_of uuid body (create_cluster, vars) = some (create_cluster_route (variable_at 0 vars))
route_of uuid body (restart_cluster, vars) = some (restart_cluster_route (variable_at 0 vars))
route_of uuid body (remove_cluster, vars) = some (remove_cluster_route (variable_at 0 vars))
route_of uuid body (get_cluster, vars) = some (get_cluster_route (variable_at 0 vars))
route_of uuid body (serve_nodes, vars) = some (nodes_route (variable_at 0 vars))
route_of uuid body (create_node, vars) = some (create_node_route uuid (variable_at 0 vars))
route_of uuid body (remove_node, vars) =
    some (remove_node_route (variable_at 0 vars) (variable_at 1 vars))
route_of uuid body (set_config, vars) = some (set_config_route (variable_at 0 vars) body)
route_of uuid body (set_advanced_config, vars) =
    some (set_advanced_config_route (variable_at 0 vars) body)
route_of uuid body (get_config, vars) = some (get_config_route (variable_at 0 vars))
route_of uuid body (get_advanced_config, vars) =
    some (get_advanced_config_route (variable_at 0 vars))
route_of uuid body (node_query query, vars) =
    some (query_route query (variable_at 0 vars) (variable_at 1 vars))
route_of uuid body (node_create_type, vars) =
    some (create_type_route (variable_at 0 vars) (variable_at 1 vars) (variable_at 2 vars) body)
route_of uuid body (healthcheck, vars) = none

-- The answer to a request: that of its handler, that of `healthcheck`, which alone asks nothing of the
-- state, or that of a router that knows no such path.
unfoldable pub serve :
    Mux
    → Config
    → Outside
    → Http
    → Zookeeper
    → Text
    → Option Text
    → Text
    → List Text
    → Core
    → Outcome Reply
unfolding route_of handle
serve mux sc out http zk uuid body method path core = elim (mux table method path) [
  | none ↦ done core (reply 404 (message (codes "404 page not found\n")))
  | some found ↦ elim (route_of uuid body found) [
    | none ↦ done core (reply 200 (message (codes "Scheduler: OK\n")))
    | some route ↦ handle sc out http zk route core
  ]
]
