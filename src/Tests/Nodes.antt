-- ===== src/Tests/Nodes.antt =====
-- The metadata manager over the sample store.
use riak_mesos_legacy.Base.{◌≡◌, refl, ◌↔◌, arith, false, [], Option, none, some, if◌then◌else◌}
use riak_mesos_legacy.Base.Text.{Text, codes, text_eq}
use riak_mesos_legacy.Base.Split.{contains, split}
use riak_mesos_legacy.Metadata.Namespace.{
  slash, Namespace, get_components, get_zk_path, base_namespace, sub_namespace,
}
use riak_mesos_legacy.Metadata.Namespace.Paths.{IsPlain, split-get_zk_path}
use riak_mesos_legacy.Metadata.Retry.{returned}
use riak_mesos_legacy.Metadata.Retry.Laws.{Ends, Succeeds}
use riak_mesos_legacy.Metadata.Manager.{ZkNode, try_set_data, set_data, create_connection}
use riak_mesos_legacy.Metadata.Tree.{
  create_ns_if_not_exists, create_path_if_not_exists, delete_children_with_retry,
}
use riak_mesos_legacy.Metadata.Manager.Writes.{set_data_iff}
use riak_mesos_legacy.Metadata.Manager.Ensure.{Midway}
use riak_mesos_legacy.Metadata.Manager.Prefixes.{
  further, itself, create_ns_if_not_exists-Ends, create_path-get_zk_path,
}
use riak_mesos_legacy.Metadata.Manager.Deletes.{Finishes, delete_children-Finishes}
use riak_mesos_legacy.Scheduler.Core.{SchedulerState, exported, set_data as core_set_data, Write}
use riak_mesos_legacy.Scheduler.Core.Stored.{Agrees, set_data_refines}
use riak_mesos_legacy.Tests.Sample.{core}
use riak_mesos_legacy.Tests.Store.{store, held, single, single-Owned}

abbrev root : Namespace
root = sub_namespace base_namespace (codes "riak")

abbrev coordinator : Namespace
coordinator = sub_namespace root (codes "coordinator")

root-IsPlain : IsPlain coordinator
unfolding get_components contains
root-IsPlain = (refl, (refl, (refl, tt)))

split-get_zk_path_example : split slash (get_zk_path coordinator) ≡ get_components coordinator
split-get_zk_path_example = split-get_zk_path coordinator tt root-IsPlain

create_path-get_zk_path_example :
    create_path_if_not_exists (single (codes "/riak")) (get_zk_path coordinator) false
    ≡ create_ns_if_not_exists (single (codes "/riak")) coordinator false
create_path-get_zk_path_example =
    create_path-get_zk_path (single (codes "/riak")) coordinator false tt root-IsPlain

create_ns_if_not_exists_example :
    let z = single (get_zk_path root) in
    Ends
      (λ s' _. held s' ≡ some [])
      (λ s'. Midway none (held s'))
      (create_ns_if_not_exists z coordinator false (store 3 none))
unfolding single-Owned
create_ns_if_not_exists_example =
    create_ns_if_not_exists-Ends (single (get_zk_path root)) coordinator root
      (single-Owned (get_zk_path root)) false (store 3 none) (further itself)

-- The scheduler's node, as it was read.
abbrev node : ZkNode
node = record { stat = some 0; contents = codes "old"; ns = root }

-- The state is one text, and it is read back as exported.
abbrev encode : SchedulerState → Text
encode s = codes "new"

abbrev decode : Text → Option SchedulerState
decode t = if text_eq t (codes "new") then some (exported core.state) else some core.stored

old-stored : decode (codes "old") ≡ some core.stored
unfolding text_eq
old-stored = refl

new-stored : decode (encode core.state) ≡ some (exported core.state)
unfolding text_eq
new-stored = refl

set_data_refines_example :
    let z = single (get_zk_path root) in
    (w : Write) × Agrees z node
      (single-Owned (get_zk_path root))
      encode
      decode
      (set_data z (codes "new") node (store 2 (some (codes "old"))))
      (core_set_data w core)
unfolding single-Owned
set_data_refines_example =
    set_data_refines (single (get_zk_path root)) node (single-Owned (get_zk_path root)) encode
      decode (store 2 (some (codes "old"))) core (codes "old", refl, old-stored) new-stored

set_data_iff_example :
    let z = single (codes "/n") in
    (set_data z (codes "new") node (store 2 none) ≡ returned (store 0 none) node)
    ↔ Succeeds
        (try_set_data z (codes "new"))
        (create_connection z)
        10
        node
        (store 2 none)
        (store 0 none)
        node
set_data_iff_example =
    set_data_iff (single (codes "/n")) (codes "new") node node (store 2 none) (store 0 none)

delete_children-Finishes_example :
    let z = single (codes "/n") in
    Finishes z (delete_children_with_retry z 11 10 (codes "/n") (store 0 none))
delete_children-Finishes_example =
    delete_children-Finishes (single (codes "/n")) 11 10 0 (codes "/n") (store 0 none) (omega arith)
      (λ s. refl)
