-- ===== src/Common/Reserved.antt =====
-- common/utils.go: the copies of reserved resources and volumes that undo a reservation.
use riak_mesos_legacy.Base.{◌&&◌, not, List, [], none, some, map, is_empty}
use riak_mesos_legacy.Base.Int.{ℤ}
use riak_mesos_legacy.Base.Text.{Text, codes, text_eq}
use riak_mesos_legacy.Mesos.{Resource, MesosUtil, get_text, get_scalar, is_set}

-- The pointers are never nil at the calls, so the strings are set.
unfoldable pub new_reserved_scalar_resource : MesosUtil → Text → ℤ → Text → Text → Resource
new_reserved_scalar_resource u name value principal role =
    record (u.new_scalar_resource name value) {
      role = some role;
      reservation = some (record { principal = some principal });
    }

unfoldable pub new_reserved_volume : MesosUtil → ℤ → Text → Text → Text → Text → Resource
unfolding new_reserved_scalar_resource
new_reserved_volume u value container_path persistence_id principal role =
    record (new_reserved_scalar_resource u (codes "disk") value principal role) {
      disk =
          some
            (record { persistence_id = some persistence_id; container_path = some container_path });
    }

unfoldable pub filter_reserved_volumes : MesosUtil → List Resource → List Resource
filter_reserved_volumes u resources =
    u.filter_resources resources
      (λ res. is_set res.reservation && is_set res.disk && text_eq res.name (codes "disk"))

unfoldable pub filter_reserved_resources : MesosUtil → List Resource → List Resource
filter_reserved_resources u resources =
    u.filter_resources resources
      (λ res. is_set res.reservation && not (is_empty (get_text res.role)))

abbrev pub get_principal : Resource → Text
get_principal res = elim res.reservation [ none ↦ [] | some r ↦ get_text r.principal ]

abbrev pub get_persistence_id : Resource → Text
get_persistence_id res = elim res.disk [ none ↦ [] | some d ↦ get_text d.persistence_id ]

abbrev pub get_container_path : Resource → Text
get_container_path res = elim res.disk [ none ↦ [] | some d ↦ get_text d.container_path ]

unfoldable pub copy_reserved_volumes : MesosUtil → List Resource → List Resource
unfolding filter_reserved_volumes new_reserved_volume
copy_reserved_volumes u resources =
    map
      (λ res.
        new_reserved_volume u (get_scalar res) (get_container_path res) (get_persistence_id res)
          (get_principal res) (get_text res.role))
      (filter_reserved_volumes u resources)

unfoldable pub copy_reserved_resources : MesosUtil → List Resource → List Resource
unfolding filter_reserved_resources new_reserved_scalar_resource
copy_reserved_resources u resources =
    map
      (λ res.
        new_reserved_scalar_resource u res.name (get_scalar res) (get_principal res)
          (get_text res.role))
      (filter_reserved_resources u resources)
