-- ===== src/Scheduler/Server/Proxy.antt =====
-- The handlers of scheduler/server.go that pass a request on to Riak Explorer.
use riak_mesos_legacy.Base.{◌++◌, Option, none, some}
use riak_mesos_legacy.Base.Text.{Text, codes}
use riak_mesos_legacy.Base.Map.{lookup}
use riak_mesos_legacy.RiakExplorer.{
  Web, RiakExplorerClient, new_riak_explorer_client, Result, ok, err, get_aae_status_json,
  get_status_json, get_ringready_json, get_transfers_json, get_bucket_types_json,
  create_bucket_type_json,
}
use riak_mesos_legacy.Scheduler.Explorer.{full_name, rex_hostname}
use riak_mesos_legacy.Scheduler.Core.{Core, Outcome, done, panics}
use riak_mesos_legacy.Scheduler.Server.{Reply, reply, message, cluster_not_found, node_not_found}

-- How the Riak Explorers are reached. A body is written by `fmt.Fprintf(w, body)`, so it goes
-- through the formatting of a text with no arguments.
pub record Http : Type 0 where
  pub web : Web
  pub format : Text → Text

-- The requests about a node that only read, by the method of the client.
pub data Query : Type 0 where
  aae_status status ringready transfers bucket_types : Query

unfoldable pub ask : Web → RiakExplorerClient → Query → Text → Result Text
unfolding get_aae_status_json get_status_json get_ringready_json get_transfers_json
    get_bucket_types_json
ask web client aae_status = get_aae_status_json web client
ask web client status = get_status_json web client
ask web client ringready = get_ringready_json web client
ask web client transfers = get_transfers_json web client
ask web client bucket_types = get_bucket_types_json web client

-- What the handlers make of the client's results: the second panics where the client does.
unfoldable pub query_answer : Http → Core → Result Text → Outcome Reply
query_answer http core (err _ e) =
    done core (reply 503 (message (codes "Unable to read data:  " ++ (e ++ codes "\n"))))
query_answer http core (ok text) = done core (reply 200 (message (http.format text)))

unfoldable pub create_type_answer : Http → Core → Option (Result Text) → Outcome Reply
create_type_answer http core none = panics core
create_type_answer http core (some (err text e)) =
    done core (reply 500 (message (http.format text)))
create_type_answer http core (some (ok text)) = done core (reply 200 (message (http.format text)))

-- nodeAAE, nodeStatus, nodeRingready, nodeTransfers and nodeTypes, which differ by the query.
unfoldable pub node_query : Http → Query → Text → Text → Core → Outcome Reply
unfolding ask query_answer new_riak_explorer_client
node_query http query name id core = elim (lookup name core.state.clusters) [
  | none ↦ done core (cluster_not_found name)
  | some c ↦ elim (lookup id c.nodes) [
    | none ↦ done core (node_not_found id)
    | some n ↦
        query_answer http core
          (ask http.web (new_riak_explorer_client (rex_hostname n)) query (full_name n))
  ]
]

-- nodeCreateType. `none` for a body that cannot be read, whose error is left out of the answer.
unfoldable pub node_create_type : Http → Text → Text → Text → Option Text → Core → Outcome Reply
unfolding create_type_answer create_bucket_type_json new_riak_explorer_client
node_create_type http name id bucket_type body core = elim (lookup name core.state.clusters) [
  | none ↦ done core (cluster_not_found name)
  | some c ↦ elim (lookup id c.nodes) [
    | none ↦ done core (node_not_found id)
    | some n ↦ elim body [
      | none ↦ done core (reply 503 (message (codes "Unable to read data: ")))
      | some props ↦
          let client = new_riak_explorer_client (rex_hostname n) in
          create_type_answer http core
            (create_bucket_type_json http.web client (full_name n) bucket_type props)
    ]
  ]
]
