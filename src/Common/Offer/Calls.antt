-- ===== src/Common/Offer/Calls.antt =====
-- The calls of OfferHelper.apply (common/offer.go): MakeReservation, MakeVolume, ApplyReserved and
-- ApplyUnreserved.
use riak_mesos_legacy.Base.{
  ◌≤◌, length, ◌≡◌, refl, ap, ◌∙◌, List, [], ◌++◌, some, false, ltb, arith,
}
use riak_mesos_legacy.Base.Int.{ℤ, pos, ◌≤ℤ◌, ◌+ℤ◌}
use riak_mesos_legacy.Base.Text.{Text}
use riak_mesos_legacy.Mesos.{Resource, MesosUtil}
use riak_mesos_legacy.Common.Offer.{
  nobody, ResourceGroup, OfferHelper, Ask, Owner, Intn, apply_scalars, apply_unreserved,
  apply_reserved, make_reservation, make_volume,
}
use riak_mesos_legacy.Common.Offer.Take.{IsIntn}
use riak_mesos_legacy.Common.Offer.Asked.{amounts, apply-amounts}
use riak_mesos_legacy.Common.Offer.Apply.{IsAsk, IsCharged, apply_lem, apply-none, charge}

-- Nothing but the two groups and the two lists of a reservation differs.
pub record IsSameOffer (h h' : OfferHelper) : Type 0 where
  pub mesos_offer : h'.mesos_offer ≡ h.mesos_offer
  pub persistence_ids : h'.persistence_ids ≡ h.persistence_ids
  pub resources_to_unreserve : h'.resources_to_unreserve ≡ h.resources_to_unreserve
  pub volumes_to_destroy : h'.volumes_to_destroy ≡ h.volumes_to_destroy

pub IsSameOffer-trans : {a b c : OfferHelper} → IsSameOffer a b → IsSameOffer b c → IsSameOffer a c
IsSameOffer-trans p q = record {
  mesos_offer = q.mesos_offer ∙ p.mesos_offer;
  persistence_ids = q.persistence_ids ∙ p.persistence_ids;
  resources_to_unreserve = q.resources_to_unreserve ∙ p.resources_to_unreserve;
  volumes_to_destroy = q.volumes_to_destroy ∙ p.volumes_to_destroy;
}

pub IsSameOffer-refl : (h : OfferHelper) → IsSameOffer h h
IsSameOffer-refl h = record {
  mesos_offer = refl;
  persistence_ids = refl;
  resources_to_unreserve = refl;
  volumes_to_destroy = refl;
}

abbrev pub reserver : Text → Text → Owner
reserver principal role = record {
  principal = principal;
  role = role;
  persistence_id = [];
  container_path = [];
}

abbrev pub volume_ask : ℤ → Ask
volume_ask disk = record { cpus = pos 0; mem = pos 0; disk = disk; ports = 0 }

module _ (u : MesosUtil) (intn : Intn) (ok : IsIntn intn) where
  -- Takes the ask from the unreserved group, and touches no other field.
  pub apply_unreserved_lem :
      (h : OfferHelper) (ask : Ask)
      → IsAsk ask
      → ask.ports ≤ length h.unreserved_resources.ports
      → (g : ResourceGroup) × (rs : List Resource) × (apply_unreserved u intn h ask
          ≡ some (record h { unreserved_resources = g }, rs))
        × IsCharged h.unreserved_resources g ask
  unfolding apply_unreserved
  apply_unreserved_lem h ask a enough =
      let (g, rs, took, charged) = apply_lem u intn h.unreserved_resources ask nobody ok a enough in
      (g, rs, rw took refl, charged)

  pub apply_reserved_lem :
      (h : OfferHelper) (ask : Ask) (o : Owner)
      → IsAsk ask
      → ask.ports ≤ length h.reserved_resources.ports
      → (g : ResourceGroup) × (rs : List Resource) × (apply_reserved u intn h ask o
          ≡ some (record h { reserved_resources = g }, rs))
        × IsCharged h.reserved_resources g ask
  unfolding apply_reserved
  apply_reserved_lem h ask o a enough =
      let (g, rs, took, charged) = apply_lem u intn h.reserved_resources ask o ok a enough in
      (g, rs, rw took refl, charged)

  pub make_reservation_lem :
      (h : OfferHelper) (ask : Ask) (principal role : Text)
      → IsAsk ask
      → ltb 0 ask.ports ≡ false
      → (g : ResourceGroup) × (make_reservation u intn h ask principal role
          ≡ some (record h {
            unreserved_resources = g;
            resources_to_reserve =
                h.resources_to_reserve ++ amounts u intn ask (reserver principal role);
          }))
        × IsCharged h.unreserved_resources g ask
  unfolding make_reservation
  make_reservation_lem h ask principal role a idle =
      let (g, rs, took, charged) =
        apply_lem u intn h.unreserved_resources ask (reserver principal role) ok a (ground arith) in
      let same =
        apply-amounts u intn h.unreserved_resources g ask (reserver principal role) rs idle took in
      (g, rw (took, same) refl, charged)

  volume_group :
      (g : ResourceGroup) (disk : ℤ) (o : Owner)
      → pos 0 ≤ℤ disk
      → let r = (apply_scalars u intn g (volume_ask disk) o).0 in
        ◌≡◌ {A = ResourceGroup} (record r { disk = r.disk +ℤ disk }) g
  unfolding apply_scalars
  volume_group g disk o h =
      λ i. record { cpus = g.cpus; mem = g.mem; disk = charge g.disk disk h i; ports = g.ports }

  make_volume-eq :
      (h : OfferHelper) (disk : ℤ) (o : Owner)
      → let r = apply_scalars u intn h.unreserved_resources (volume_ask disk) o in
        make_volume u intn h disk o
        ≡ some (record h {
          unreserved_resources = record (r.0) { disk = (r.0).disk +ℤ disk };
          volumes_to_create = h.volumes_to_create ++ r.1;
        })
  unfolding make_volume
  make_volume-eq h disk o =
      rw (apply-none u intn h.unreserved_resources (volume_ask disk) o refl) refl

  -- A volume is created out of a disk that a reservation has taken: no group changes.
  pub make_volume_lem :
      (h : OfferHelper) (disk : ℤ) (o : Owner)
      → pos 0 ≤ℤ disk
      → make_volume u intn h disk o
        ≡ some (record h {
          volumes_to_create = h.volumes_to_create ++ amounts u intn (volume_ask disk) o;
        })
  unfolding apply_scalars
  make_volume_lem h disk o d =
      let r = apply_scalars u intn h.unreserved_resources (volume_ask disk) o in
      let whole : (g : ResourceGroup) → OfferHelper = λ g. record h {
        unreserved_resources = g;
        volumes_to_create = h.volumes_to_create ++ r.1;
      } in
      make_volume-eq h disk o
      ∙ ap (λ g. some (whole g)) (volume_group h.unreserved_resources disk o d)
