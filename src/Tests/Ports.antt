-- ===== src/Tests/Ports.antt =====
-- The port mapper: a name that is registered and asked for.
use riak_mesos_legacy.Base.{◌≡◌, refl, [], ◌∷◌, none, some, inr, ◌++◌}
use riak_mesos_legacy.Base.Int.{pos}
use riak_mesos_legacy.Base.Text.{Text, codes, text_eq}
use riak_mesos_legacy.Base.Split.{contains, join}
use riak_mesos_legacy.Metadata.Namespace.{
  Namespace, base_namespace, sub_namespace, get_components, get_zk_path, make_sub_space,
}
use riak_mesos_legacy.Metadata.Zookeeper.{Zk}
use riak_mesos_legacy.Metadata.Retry.{returned, with_retry}
use riak_mesos_legacy.Metadata.Manager.{
  ZkNode, try_create, try_get_node, get_node, try_make_with_data, make_node_with_data,
}
use riak_mesos_legacy.Metadata.Tree.{below, make_child_with_data}
use riak_mesos_legacy.Cepm.{
  DisterlData, Codec, says, registers, decimal, register_answer, register_at, answer_command,
}
use riak_mesos_legacy.Cepm.Names.{register-port_please}
use riak_mesos_legacy.Tests.Store.{store, temporary, temporary-Ephemeral}

abbrev cepmd : ZkNode
cepmd = record { stat = some 0; contents = []; ns = sub_namespace base_namespace (codes "cepmd") }

abbrev name : Text
name = codes "a@b"

abbrev entry : Namespace
entry = make_sub_space cepmd.ns name

abbrev z : Zk
z = temporary (get_zk_path entry)

abbrev data_of : DisterlData
data_of = record { node_name = name; disterl_port = pos 9 }

abbrev codec : Codec
codec = record {
  atoi = λ t. some (pos 9);
  serialize = λ d. some (codes "x");
  deserialize = λ t. some data_of;
}

abbrev registered : ZkNode
registered = record { stat = some 0; contents = codes "x"; ns = entry }

name-registered :
    answer_command z codec cepmd (codes "REGISTER" ∷ name ∷ codes "9" ∷ []) (store 0 none)
    ≡ returned (store 0 (some (codes "x"))) (registers registered)
unfolding answer_command register_at register_answer make_child_with_data below make_node_with_data
    try_make_with_data try_create get_node try_get_node with_retry get_zk_path get_components join
    make_sub_space contains text_eq
name-registered = refl

name-read :
    get_node z entry (store 0 (some (codes "x")))
    ≡ returned (store 0 (some (codes "x"))) (inr registered)
unfolding get_node try_get_node with_retry get_zk_path get_components join make_sub_space text_eq
name-read = refl

register-port_please_example :
    answer_command z codec cepmd (codes "PORT_PLEASE" ∷ name ∷ []) (store 0 (some (codes "x")))
    ≡ returned (store 0 (some (codes "x"))) (says (decimal (pos 9) ++ codes "\n"))
unfolding temporary-Ephemeral
register-port_please_example =
    register-port_please z codec cepmd name (temporary-Ephemeral (get_zk_path entry)) (codes "9")
      (codes "x") (pos 9) (store 0 none) (store 0 (some (codes "x"))) (store 0 (some (codes "x")))
      registered registered refl refl refl refl name-registered name-read
