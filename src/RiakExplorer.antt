-- ===== src/RiakExplorer.antt =====
-- riak_explorer/client.go: the client of Riak Explorer, each method a request for an address. The
-- requests go to the interface `Web`, and the bodies to the interface `Json`.
pub mod Address
pub mod Reply
pub mod RoundTrip
use riak_mesos_legacy.Base.{
  ℕ, ◌≡◌, ◌⊎◌, inl, inr, refl, ◌++◌, [], ◌&&◌, Bool, true, false, Option, none, some, leb, ltb,
  if◌then◌else◌,
}
use riak_mesos_legacy.Base.Text.{Text, codes, itoa}
use Address.{Command, command_uri, command_url}
use Reply.{
  Json, Changed, no_change, JoinReply, StagedJoinReply, LeaveReply, StagedLeaveReply,
  ForceRemoveReply, ReplaceReply, StagedReplaceReply, ForceReplaceReply, CommitReply, ClearReply,
  PingReply, no_ping, PlanReply, no_plan, RepairReply, no_repair, StatusReply, no_status,
  RingReadyReply, no_ring_ready,
}

pub record RiakExplorerClient : Type 0 where
  pub host : Text

unfoldable pub new_riak_explorer_client : Text → RiakExplorerClient
new_riak_explorer_client host = record { host = host }

-- How a request ends: an error, a response whose body cannot be read, or a status with a body.
pub data Response : Type 0 where
  refused : Text → Response
  unreadable : ℕ → Text → Response
  responds : ℕ → Text → Response

-- net/http: the response to a GET, the response to a PUT with its data, and whether `NewRequest`
-- takes an address.
pub record Web : Type 0 where
  pub get : Text → Response
  pub put : Text → Text → Response
  pub parses : Text → Bool

-- The two results of a method: the value, and an error beside it.
pub data Result {ℓ} (A : Type ℓ) : Type ℓ where
  ok : A → Result A
  err : A → Text → Result A

abbrev pub value {ℓ} : {A : Type ℓ} → Result A → A
value (ok a) = a
value (err a e) = a

abbrev pub is_success : ℕ → Bool
is_success code = leb 200 code && ltb code 300

abbrev pub unknown_status : ℕ → Text
unknown_status code = codes "Unknown HTTP Status: " ++ itoa code

-- The end of doGet and doPutWithData.
unfoldable pub response_body : Response → Result Text
response_body (refused e) = err [] e
response_body (unreadable code e) = err [] e
response_body (responds code body) =
    if is_success code then ok body else err body (unknown_status code)

unfoldable pub do_get : Web → RiakExplorerClient → Text → Result Text
unfolding response_body command_url
do_get web client path = response_body (web.get (command_url client.host path))

-- doPutWithData. `none` where NewRequest has given no request, whose header is then set.
unfoldable pub do_put_with_data : Web → RiakExplorerClient → Text → Text → Option (Result Text)
unfolding response_body command_url
do_put_with_data web client path data_ =
    let url = command_url client.host path in
    if web.parses url then some (response_body (web.put url data_)) else none

-- The end of a method with a reply of its own: an empty reply beside an error.
unfoldable pub decoded {ℓ} : {A : Type ℓ} → A → (Text → A) → Result Text → Result A
decoded empty unmarshal (err body e) = err empty e
decoded empty unmarshal (ok body) = ok (unmarshal body)

module _ (web : Web) (client : RiakExplorerClient) where
  unfoldable pub get_aae_status_json : Text → Result Text
  unfolding do_get command_uri
  get_aae_status_json node = do_get web client (command_uri (Command.aae_status node))

  unfoldable pub get_status_json : Text → Result Text
  unfolding do_get command_uri
  get_status_json node = do_get web client (command_uri (Command.status node))

  unfoldable pub get_ringready_json : Text → Result Text
  unfolding do_get command_uri
  get_ringready_json node = do_get web client (command_uri (Command.ringready node))

  unfoldable pub get_transfers_json : Text → Result Text
  unfolding do_get command_uri
  get_transfers_json node = do_get web client (command_uri (Command.transfers node))

  unfoldable pub get_bucket_types_json : Text → Result Text
  unfolding do_get command_uri
  get_bucket_types_json node = do_get web client (command_uri (Command.bucket_types node))

  unfoldable pub create_bucket_type_json : Text → Text → Text → Option (Result Text)
  unfolding do_put_with_data command_uri
  create_bucket_type_json node bucket_type props =
      do_put_with_data web client (command_uri (Command.create_bucket_type node bucket_type)) props

  -- The methods whose reply is under the given key.
  unfoldable pub change : Json → (key : Text) → Command → Result (Changed key)
  unfolding decoded do_get command_uri
  change json key command =
      decoded no_change (json.changed key) (do_get web client (command_uri command))

module _ (web : Web) (json : Json) (client : RiakExplorerClient) where
  unfoldable pub ping : Result PingReply
  unfolding decoded do_get command_uri
  ping = decoded no_ping json.ping (do_get web client (command_uri Command.ping))

  unfoldable pub join : Text → Text → Result JoinReply
  unfolding change
  join from_node to_node = change web client json (codes "join") (Command.join from_node to_node)

  unfoldable pub staged_join : Text → Text → Result StagedJoinReply
  unfolding change
  staged_join from_node to_node =
      change web client json (codes "staged-join") (Command.staged_join from_node to_node)

  unfoldable pub leave : Text → Text → Result LeaveReply
  unfolding change
  leave staying leaving = change web client json (codes "leave") (Command.leave staying leaving)

  unfoldable pub staged_leave : Text → Result StagedLeaveReply
  unfolding change
  staged_leave node = change web client json (codes "staged-leave") (Command.staged_leave node)

  unfoldable pub staged_leave_target : Text → Text → Result StagedLeaveReply
  unfolding change
  staged_leave_target staying leaving =
      change web client json (codes "staged-leave") (Command.staged_leave_target staying leaving)

  unfoldable pub force_remove : Text → Text → Result ForceRemoveReply
  unfolding change
  force_remove staying leaving =
      change web client json (codes "force-remove") (Command.force_remove staying leaving)

  unfoldable pub replace : Text → Text → Text → Result ReplaceReply
  unfolding change
  replace from_node old_node new_node =
      change web client json (codes "replace") (Command.replace from_node old_node new_node)

  unfoldable pub staged_replace : Text → Text → Text → Result StagedReplaceReply
  unfolding change
  staged_replace from_node old_node new_node =
      change web client json (codes "staged-replace")
        (Command.staged_replace from_node old_node new_node)

  unfoldable pub force_replace : Text → Text → Text → Result ForceReplaceReply
  unfolding change
  force_replace from_node old_node new_node =
      change web client json (codes "force-replace")
        (Command.force_replace from_node old_node new_node)

  unfoldable pub plan : Text → Result PlanReply
  unfolding decoded do_get command_uri
  plan node = decoded no_plan json.plan (do_get web client (command_uri (Command.plan node)))

  unfoldable pub repair : Text → Result RepairReply
  unfolding decoded do_get command_uri
  repair node =
      decoded no_repair json.repair (do_get web client (command_uri (Command.repair node)))

  unfoldable pub commit : Text → Result CommitReply
  unfolding change
  commit node = change web client json (codes "commit") (Command.commit node)

  unfoldable pub clear : Text → Result ClearReply
  unfolding change
  clear node = change web client json (codes "clear") (Command.clear node)

  unfoldable pub status : Text → Result StatusReply
  unfolding decoded do_get command_uri
  status node =
      decoded no_status json.status (do_get web client (command_uri (Command.status node)))

  unfoldable pub ring_ready : Text → Result RingReadyReply
  unfolding decoded do_get command_uri
  ring_ready node =
      decoded no_ring_ready json.ring_ready
        (do_get web client (command_uri (Command.ringready node)))
