-- ===== src/Common/Offer/Unreserve.antt =====
-- OfferHelper.MaybeUnreserve and Operations (common/offer.go).
use mathlib.Core.Path.{fun_ext}
use riak_mesos_legacy.Base.{
  ◌≡◌, refl, sym, ap, ◌∙◌, inl, inr, false, ◌&&◌, List, [], ◌∷◌, map, arith, Bool-cases, ltb,
  length,
}
use riak_mesos_legacy.Base.Text.{Text, codes, text_eq}
use riak_mesos_legacy.Mesos.{Resource, MesosUtil, get_text, get_scalar, is_set}
use riak_mesos_legacy.Common.Reserved.{
  new_reserved_volume, filter_reserved_volumes, copy_reserved_volumes, get_persistence_id,
  get_container_path, get_principal,
}
use riak_mesos_legacy.Common.Offer.{
  OfferHelper, get_persistence_ids, offer_has_volumes, maybe_unreserve,
}

-- The helper lists the persistent volumes of its offer.
abbrev pub IsTracking : MesosUtil → OfferHelper → Type 0
IsTracking u h = h.persistence_ids ≡ get_persistence_ids u h.mesos_offer.resources

module _ (u : MesosUtil) where
  volume_test :
      (res : Resource)
      → (text_eq res.name (codes "disk") && is_set res.reservation && is_set res.disk)
        ≡ (is_set res.reservation && is_set res.disk && text_eq res.name (codes "disk"))
  volume_test res = ground arith

  get_persistence_ids-volumes :
      (rs : List Resource)
      → get_persistence_ids u rs ≡ map get_persistence_id (filter_reserved_volumes u rs)
  unfolding get_persistence_ids filter_reserved_volumes
  get_persistence_ids-volumes rs = rw (fun_ext volume_test)

  map-copies :
      (rs : List Resource)
      → map get_persistence_id (
          map
            (λ res.
              new_reserved_volume u
                (get_scalar res)
                (get_container_path res)
                (get_persistence_id res)
                (get_principal res)
                (get_text res.role))
            rs)
        ≡ map get_persistence_id rs
  unfolding new_reserved_volume
  map-copies [] = refl
  map-copies (r ∷ rs) = ap (λ l. get_persistence_id r ∷ l) (map-copies rs)

  copies_keep_ids :
      (rs : List Resource)
      → map get_persistence_id (copy_reserved_volumes u rs) ≡ get_persistence_ids u rs
  unfolding copy_reserved_volumes
  copies_keep_ids rs =
      map-copies (filter_reserved_volumes u rs) ∙ sym (get_persistence_ids-volumes rs)

  -- If nothing is launched with an offer, the helper lists its persistent volumes and none is yet
  -- to be destroyed, exactly those volumes are destroyed, in order.
  pub maybe_unreserve-destroys :
      (h : OfferHelper)
      → IsTracking u h
      → h.tasks_to_launch ≡ []
      → h.volumes_to_destroy ≡ []
      → map get_persistence_id (maybe_unreserve u h).volumes_to_destroy ≡ h.persistence_ids
  unfolding maybe_unreserve offer_has_volumes
  maybe_unreserve-destroys h t e v = elim (Bool-cases (offer_has_volumes h)) [
    | inl some_ids ↦ rw (e, v, some_ids) (copies_keep_ids h.mesos_offer.resources ∙ sym t)
    | inr no_ids ↦ rw (e, v, no_ids) (nothing h.persistence_ids no_ids)
  ]
    where
      nothing : (l : List Text) → ltb 0 (length l) ≡ false → [] ≡ l
      nothing [] z = refl
      nothing (x ∷ l) z = absurd (ground arith)
