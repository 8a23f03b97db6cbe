-- ===== src/Tests/Explorers.antt =====
-- Witnesses: the addresses that the client of Riak Explorer asks.
use riak_mesos_legacy.Base.{◌≡◌, refl, some}
use riak_mesos_legacy.Base.Text.{Text, codes}
use riak_mesos_legacy.RiakExplorer.Address.{Command, command_uri, command_url}
use riak_mesos_legacy.RiakExplorer.RoundTrip.{read_url, read_url-command_url}
use riak_mesos_legacy.Base.Split.{contains}

abbrev host : Text
host = codes "h:8098"

abbrev replaced : Command
replaced = Command.replace (codes "a@h") (codes "b@h") (codes "c@h")

read_url-command_url_example :
    read_url (command_url host (command_uri replaced)) ≡ some (host, replaced)
unfolding contains
read_url-command_url_example = read_url-command_url host replaced refl (refl, (refl, (refl, tt)))
