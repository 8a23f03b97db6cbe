-- ===== src/Scheduler/Explorer.antt =====
-- doJoin and doLeave of scheduler/cluster.go: requests to Riak Explorer, tried again on failure.
pub mod Retries
use riak_mesos_legacy.Base.{ℕ, zero, suc, ◌+◌, ◌++◌, Bool, true, false, ◌||◌, if◌then◌else◌}
use riak_mesos_legacy.Base.Text.{Text, codes, text_eq, itoa}
use riak_mesos_legacy.RiakExplorer.{Web, value, new_riak_explorer_client, join, force_remove}
use riak_mesos_legacy.RiakExplorer.Reply.{Json, Changed}
use riak_mesos_legacy.Scheduler.Node.{Node}

-- How the Riak Explorers are reached at each retry, and how their answers are decoded.
pub record Explorer : Type 0 where
  pub web : ℕ → Web
  pub json : Json

abbrev pub full_name : Node → Text
full_name n = n.task_data.fully_qualified_node_name

-- The host and port of the Riak Explorer of a node.
abbrev pub rex_hostname : Node → Text
rex_hostname n = n.hostname ++ (codes ":" ++ itoa n.task_data.http_port)

-- The body of doJoin and doLeave between the test of the retries and the sleep.
abbrev pub settles : {key : Text} → Text → Changed key → Bool
settles harmless r = text_eq r.success (codes "ok") || text_eq r.error harmless

-- The recursion of both, with `left` for the tries that are left, `maxRetry + 1 - retry`.
unfoldable pub attempts : (ℕ → Bool) → ℕ → ℕ → Bool
attempts settled retry zero = false
attempts settled retry (suc left) =
    let again = attempts settled (retry + 1) left in if settled retry then true else again

-- doJoin(oldNode, newNode, 0, 5).
unfoldable pub do_join : Explorer → Node → Node → Bool
unfolding attempts join new_riak_explorer_client
do_join ex old_node new_node =
    attempts
      (λ retry. settles (codes "not_single_node") (
        value (
          join (ex.web retry) ex.json (new_riak_explorer_client (rex_hostname old_node))
            (full_name new_node) (full_name old_node))))
      0 6

-- doLeave(stayingNode, leavingNode, 0, 5).
unfoldable pub do_leave : Explorer → Node → Node → Bool
unfolding attempts force_remove new_riak_explorer_client
do_leave ex staying_node leaving_node =
    attempts
      (λ retry. settles (codes "not_member") (
        value (
          force_remove (ex.web retry) ex.json (new_riak_explorer_client (rex_hostname staying_node))
            (full_name staying_node) (full_name leaving_node))))
      0 6
