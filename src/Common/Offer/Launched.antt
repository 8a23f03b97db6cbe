-- ===== src/Common/Offer/Launched.antt =====
-- What OfferHelper.Operations (common/offer.go) launches.
use riak_mesos_legacy.Base.{
  ◌⊎◌, inl, inr, Bool, true, false, All, All-append, if◌then◌else◌, ltb, length,
}
use riak_mesos_legacy.Mesos.{TaskInfo, Operation, MesosUtil, IsMesosUtil}
use riak_mesos_legacy.Common.Offer.{OfferHelper, operation_if, operations, maybe_unreserve}
use riak_mesos_legacy.Common.Offer.Exclusive.{NoLaunch, if_All, other_kind, maybe_unreserve-tasks}

-- The operation is no launch, or all of its tasks have the property.
abbrev pub Launches : (TaskInfo → Type 0) → Operation → Type 0
Launches P op = NoLaunch op ⊎ All P op.task_infos

module _ (u : MesosUtil) (laws : IsMesosUtil u) (P : TaskInfo → Type 0) where
  operations-Launches :
      (h : OfferHelper) → All P h.tasks_to_launch → All (Launches P) (operations u h)
  unfolding operations
  operations-Launches h all =
      All-append (Launches P) (operation_if u u.new_launch_operation h.tasks_to_launch) _
        (if_All (Launches P) (ltb 0 (length h.tasks_to_launch))
          (u.new_launch_operation h.tasks_to_launch)
          (inr (rw (laws.launches_tasks h.tasks_to_launch) all)))
        (All-append (Launches P) (operation_if u u.new_destroy_operation h.volumes_to_destroy) _
          (if_All (Launches P) (ltb 0 (length h.volumes_to_destroy))
            (u.new_destroy_operation h.volumes_to_destroy)
            (inl (
              other_kind (u.new_destroy_operation h.volumes_to_destroy)
                (laws.destroys h.volumes_to_destroy) (λ h. cc))))
          (All-append (Launches P)
            (operation_if u u.new_unreserve_operation h.resources_to_unreserve) _
            (if_All (Launches P) (ltb 0 (length h.resources_to_unreserve))
              (u.new_unreserve_operation h.resources_to_unreserve)
              (inl (
                other_kind (u.new_unreserve_operation h.resources_to_unreserve)
                  (laws.unreserves h.resources_to_unreserve) (λ h. cc))))
            (All-append (Launches P) (operation_if u u.new_reserve_operation h.resources_to_reserve)
              _
              (if_All (Launches P) (ltb 0 (length h.resources_to_reserve))
                (u.new_reserve_operation h.resources_to_reserve)
                (inl (
                  other_kind (u.new_reserve_operation h.resources_to_reserve)
                    (laws.reserves h.resources_to_reserve) (λ h. cc))))
              (if_All (Launches P) (ltb 0 (length h.volumes_to_create))
                (u.new_create_operation h.volumes_to_create)
                (inl (
                  other_kind (u.new_create_operation h.volumes_to_create)
                    (laws.creates h.volumes_to_create) (λ h. cc)))))))

  -- Whether or not something is to be given back, the operations launch the tasks of the offer.
  pub given_back-Launches :
      (b : Bool) (h : OfferHelper)
      → All P h.tasks_to_launch
      → All (Launches P) (operations u (if b then h else maybe_unreserve u h))
  given_back-Launches true h all = operations-Launches h all
  given_back-Launches false h all =
      operations-Launches (maybe_unreserve u h) (rw (maybe_unreserve-tasks u laws h) all)
