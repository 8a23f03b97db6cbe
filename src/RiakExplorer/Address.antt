-- ===== src/RiakExplorer/Address.antt =====
-- The addresses that the methods of riak_explorer/client.go ask: `commandURI` of each method and
-- `commandURL` of doGet and doPutWithData.
use riak_mesos_legacy.Base.{◌++◌}
use riak_mesos_legacy.Base.Text.{Text, codes}

-- One constructor for each format of a URI. GetStatusJSON and Status share one, as do
-- GetRingreadyJSON and RingReady.
pub data Command : Type 0 where
  ping : Command
  aae_status status ringready transfers bucket_types : Text → Command
  create_bucket_type : Text → Text → Command
  join staged_join leave staged_leave_target force_remove : Text → Text → Command
  staged_leave plan repair commit clear : Text → Command
  replace staged_replace force_replace : Text → Text → Text → Command

-- `control/nodes/%s` and what comes after it.
abbrev control : Text → Text → Text
control node rest = codes "control/nodes/" ++ (node ++ rest)

abbrev explore : Text → Text → Text
explore node rest = codes "explore/nodes/" ++ (node ++ rest)

unfoldable pub command_uri : Command → Text
command_uri ping = codes "explore/ping"
command_uri (aae_status node) = control node (codes "/aae-status")
command_uri (status node) = control node (codes "/status")
command_uri (ringready node) = control node (codes "/ringready")
command_uri (transfers node) = control node (codes "/transfers")
command_uri (bucket_types node) = explore node (codes "/bucket_types")
command_uri (create_bucket_type node bucket_type) =
    explore node (codes "/bucket_types/" ++ bucket_type)
command_uri (join from_node to_node) = control from_node (codes "/join/" ++ to_node)
command_uri (staged_join from_node to_node) = control from_node (codes "/staged-join/" ++ to_node)
command_uri (leave staying leaving) = control staying (codes "/leave/" ++ leaving)
command_uri (staged_leave_target staying leaving) =
    control staying (codes "/staged-leave/" ++ leaving)
command_uri (force_remove staying leaving) = control staying (codes "/force-remove/" ++ leaving)
command_uri (staged_leave node) = control node (codes "/staged-leave")
command_uri (plan node) = control node (codes "/plan")
command_uri (repair node) = control node (codes "/repair")
command_uri (commit node) = control node (codes "/commit")
command_uri (clear node) = control node (codes "/clear")
command_uri (replace from_node old_node new_node) =
    control from_node (codes "/replace/" ++ (old_node ++ (codes "/" ++ new_node)))
command_uri (staged_replace from_node old_node new_node) =
    control from_node (codes "/staged-replace/" ++ (old_node ++ (codes "/" ++ new_node)))
command_uri (force_replace from_node old_node new_node) =
    control from_node (codes "/force-replace/" ++ (old_node ++ (codes "/" ++ new_node)))

-- `http://%s/admin/%s`.
unfoldable pub command_url : Text → Text → Text
command_url host path = codes "http://" ++ (host ++ (codes "/admin/" ++ path))
