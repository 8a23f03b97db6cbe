-- ===== src/Common/Offer/Exclusive.antt =====
-- Which operations OfferHelper.Operations (common/offer.go) puts together for one offer.
use riak_mesos_legacy.Base.{
  ◌≡◌, ◌≢◌, ◌⊎◌, refl, sym, ◌∙◌, inl, inr, Bool, true, false, List, [], ◌∷◌, arith, ltb, length,
  All, All-append, Bool-cases, if◌then◌else◌,
}
use riak_mesos_legacy.Mesos.{
  TaskInfo, Operation, OperationType, MesosUtil, IsMesosUtil, launch, unreserve, destroy,
}
use riak_mesos_legacy.Common.Offer.{OfferHelper, operation_if, maybe_unreserve, operations}

-- Nothing is given back so far.
abbrev pub KeepsAll : OfferHelper → Type 0
KeepsAll h = (h.resources_to_unreserve ≡ []) × (h.volumes_to_destroy ≡ [])

abbrev pub NoLaunch : Operation → Type 0
NoLaunch op = op.kind ≢ launch

abbrev pub NoReturn : Operation → Type 0
NoReturn op = (op.kind ≢ destroy) × (op.kind ≢ unreserve)

pub if_All :
    (P : Operation → Type 0) (b : Bool) (op : Operation) → P op → All P (if b then op ∷ [] else [])
if_All P true op p = (p, tt)
if_All P false op p = tt

pub other_kind : (op : Operation) {k : OperationType} → op.kind ≡ k → k ≢ launch → NoLaunch op
other_kind op e ne h = ne (sym e ∙ h)

no_return :
    (op : Operation) {k : OperationType} → op.kind ≡ k → k ≢ destroy → k ≢ unreserve → NoReturn op
no_return op e d r = (λ h. d (sym e ∙ h), λ h. r (sym e ∙ h))

module _ (u : MesosUtil) (laws : IsMesosUtil u) where
  operations-NoLaunch : (h : OfferHelper) → h.tasks_to_launch ≡ [] → All NoLaunch (operations u h)
  unfolding operations
  operations-NoLaunch h e = rw e (
      All-append NoLaunch (operation_if u u.new_destroy_operation h.volumes_to_destroy) _
        (if_All NoLaunch (ltb 0 (length h.volumes_to_destroy))
          (u.new_destroy_operation h.volumes_to_destroy)
          (other_kind (u.new_destroy_operation h.volumes_to_destroy)
            (laws.destroys h.volumes_to_destroy) (λ h. cc)))
        (All-append NoLaunch (operation_if u u.new_unreserve_operation h.resources_to_unreserve) _
          (if_All NoLaunch (ltb 0 (length h.resources_to_unreserve))
            (u.new_unreserve_operation h.resources_to_unreserve)
            (other_kind (u.new_unreserve_operation h.resources_to_unreserve)
              (laws.unreserves h.resources_to_unreserve) (λ h. cc)))
          (All-append NoLaunch (operation_if u u.new_reserve_operation h.resources_to_reserve) _
            (if_All NoLaunch (ltb 0 (length h.resources_to_reserve))
              (u.new_reserve_operation h.resources_to_reserve)
              (other_kind (u.new_reserve_operation h.resources_to_reserve)
                (laws.reserves h.resources_to_reserve) (λ h. cc)))
            (if_All NoLaunch (ltb 0 (length h.volumes_to_create))
              (u.new_create_operation h.volumes_to_create)
              (other_kind (u.new_create_operation h.volumes_to_create)
                (laws.creates h.volumes_to_create) (λ h. cc))))))

  operations-NoReturn : (h : OfferHelper) → KeepsAll h → All NoReturn (operations u h)
  unfolding operations
  operations-NoReturn h (e, f) =
      rw (e, f)
        (All-append NoReturn (operation_if u u.new_launch_operation h.tasks_to_launch) _
          (if_All NoReturn (ltb 0 (length h.tasks_to_launch))
            (u.new_launch_operation h.tasks_to_launch)
            (no_return (u.new_launch_operation h.tasks_to_launch) (laws.launches h.tasks_to_launch)
              (λ h. cc) (λ h. cc)))
          (All-append NoReturn (operation_if u u.new_reserve_operation h.resources_to_reserve) _
            (if_All NoReturn (ltb 0 (length h.resources_to_reserve))
              (u.new_reserve_operation h.resources_to_reserve)
              (no_return (u.new_reserve_operation h.resources_to_reserve)
                (laws.reserves h.resources_to_reserve) (λ h. cc) (λ h. cc)))
            (if_All NoReturn (ltb 0 (length h.volumes_to_create))
              (u.new_create_operation h.volumes_to_create)
              (no_return (u.new_create_operation h.volumes_to_create)
                (laws.creates h.volumes_to_create) (λ h. cc) (λ h. cc)))))

  maybe_unreserve-launches :
      (h : OfferHelper) → ltb 0 (length h.tasks_to_launch) ≡ true → maybe_unreserve u h ≡ h
  unfolding maybe_unreserve
  maybe_unreserve-launches h e = rw e refl

  pub maybe_unreserve-tasks :
      (h : OfferHelper) → (maybe_unreserve u h).tasks_to_launch ≡ h.tasks_to_launch
  unfolding maybe_unreserve
  maybe_unreserve-tasks h = ground arith

  -- If mesosutil does what it documents and nothing was to be given back, the operations for an
  -- offer launch nothing, or neither destroy a volume nor unreserve anything.
  pub operations-maybe_unreserve :
      (h : OfferHelper)
      → KeepsAll h
      → All NoLaunch (operations u (maybe_unreserve u h))
        ⊎ All NoReturn (operations u (maybe_unreserve u h))
  operations-maybe_unreserve h keeps = elim (Bool-cases (ltb 0 (length h.tasks_to_launch))) [
    | inl some_tasks ↦
        inr (rw (maybe_unreserve-launches h some_tasks) (operations-NoReturn h keeps))
    | inr no_tasks ↦ inl (
        operations-NoLaunch (maybe_unreserve u h)
          (maybe_unreserve-tasks h ∙ nothing h.tasks_to_launch no_tasks))
  ]
    where
      nothing : (l : List TaskInfo) → ltb 0 (length l) ≡ false → l ≡ []
      nothing [] z = refl
      nothing (x ∷ l) z = absurd (ground arith)

  -- The same, whether or not something is to be given back.
  pub operations-KeepsAll :
      (h : OfferHelper) (keep : Bool)
      → KeepsAll h
      → All NoLaunch (operations u (if keep then h else maybe_unreserve u h))
        ⊎ All NoReturn (operations u (if keep then h else maybe_unreserve u h))
  operations-KeepsAll h true keeps = inr (operations-NoReturn h keeps)
  operations-KeepsAll h false keeps = operations-maybe_unreserve h keeps
