-- ===== src/Metadata/Namespace.antt =====
-- The namespaces of metadata_manager/manager.go, and their paths.
pub mod Paths
use riak_mesos_legacy.Base.{ℕ, List, [], ◌∷◌, ◌++◌}
use riak_mesos_legacy.Base.Text.{Text, codes}
use riak_mesos_legacy.Base.Split.{join}

-- '/'.
abbrev pub slash : ℕ
slash = b'/'

-- Namespace: baseNamespace, and SubNamespace with its parent.
pub data Namespace : Type 0 where
  base_namespace : Namespace
  sub_namespace : Namespace → Text → Namespace

unfoldable pub get_components : Namespace → List Text
get_components base_namespace = [] ∷ []
get_components (sub_namespace parent component) = get_components parent ++ component ∷ []

unfoldable pub get_zk_path : Namespace → Text
unfolding get_components
get_zk_path base_namespace = codes "/"
get_zk_path (sub_namespace parent component) =
    join slash (get_components (sub_namespace parent component))

unfoldable pub make_sub_space : Namespace → Text → Namespace
make_sub_space ns name = sub_namespace ns name

-- The working namespace, `/riak/frameworks/<id>`, as CreateConnection sets it.
unfoldable pub framework_namespace : Text → Namespace
framework_namespace framework_id =
    sub_namespace (sub_namespace (sub_namespace base_namespace (codes "riak")) (codes "frameworks"))
      framework_id
