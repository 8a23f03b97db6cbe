-- ===== src/Metadata/Namespace/Paths.antt =====
-- Paths and components (metadata_manager/manager.go: GetComponents, GetZKPath).
use riak_mesos_legacy.Base.{◌≡◌, refl, ap, List, [], ◌∷◌, ◌++◌, All}
use riak_mesos_legacy.Base.Text.{Text}
use riak_mesos_legacy.Base.Split.{split, Plain, split-join}
use riak_mesos_legacy.Metadata.Namespace.{
  slash, Namespace, base_namespace, sub_namespace, get_components, get_zk_path,
}

-- No component has a slash: MakeChild and the others panic on a name that has one.
abbrev pub IsPlain : Namespace → Type 0
IsPlain ns = All (Plain slash) (get_components ns)

-- A namespace below the base.
abbrev pub IsSub : Namespace → Type 0
IsSub base_namespace = ⊥
IsSub (sub_namespace parent component) = Unit {0}

-- The components after the empty one of the base.
abbrev pub after_root : Namespace → List Text
after_root base_namespace = []
after_root (sub_namespace parent component) = after_root parent ++ component ∷ []

pub components-after_root : (ns : Namespace) → get_components ns ≡ [] ∷ after_root ns
unfolding get_components
components-after_root base_namespace = refl
components-after_root (sub_namespace parent component) =
    ap (λ l. l ++ component ∷ []) (components-after_root parent)

-- The path of a namespace below the base, whose components have no slash, is split into its
-- components again.
pub split-get_zk_path :
    (ns : Namespace) → IsSub ns → IsPlain ns → split slash (get_zk_path ns) ≡ get_components ns
unfolding get_zk_path
split-get_zk_path base_namespace s p = absurd s
split-get_zk_path (sub_namespace parent component) s p =
    rw (components-after_root (sub_namespace parent component)) (
      split-join slash [] (after_root (sub_namespace parent component))
        (rw (components-after_root (sub_namespace parent component)) at p))
