-- ===== src/Common/Offer.antt =====
-- common/offer.go: what an offer holds, what has been taken from it, and what will be asked of the
-- master. A method that mutates its receiver returns the new helper; `none` is a panic.
pub mod Take
pub mod Apply
pub mod Asked
pub mod Calls
pub mod Ports
pub mod Unreserve
pub mod Exclusive
pub mod Launched
use riak_mesos_legacy.Base.{
  ℕ, ◌+◌, ◌-◌, Bool, true, false, not, ◌&&◌, ◌||◌, List, [], ◌∷◌, ◌++◌, Option, none, some, map,
  ltb, leb, if◌then◌else◌, length, take, drop, is_empty,
}
use riak_mesos_legacy.Base.Int.{ℤ, pos, ◌+ℤ◌, ◌-ℤ◌, ltb_ℤ}
use riak_mesos_legacy.Base.Opt.{◌>>=◌}
use riak_mesos_legacy.Base.Text.{Text, codes, text_eq}
use riak_mesos_legacy.Mesos.{
  Resource, Offer, TaskInfo, Operation, MesosUtil, get_scalar, get_ranges, is_set,
}
use riak_mesos_legacy.Common.Ranges.{array_to_ranges, ranges_to_array, ports_of}
use riak_mesos_legacy.Common.Reserved.{
  copy_reserved_resources, copy_reserved_volumes, get_persistence_id,
}

pub record ResourceGroup : Type 0 where
  pub cpus : ℤ
  pub mem : ℤ
  pub disk : ℤ
  pub ports : List ℕ

pub record OfferHelper : Type 0 where
  pub mesos_offer : Offer
  pub offer_id_str : Text
  pub persistence_ids : List Text
  pub reserved_resources : ResourceGroup
  pub unreserved_resources : ResourceGroup
  pub resources_to_reserve : List Resource
  pub resources_to_unreserve : List Resource
  pub volumes_to_create : List Resource
  pub volumes_to_destroy : List Resource
  pub tasks_to_launch : List TaskInfo

-- What a task asks of a group: amounts and a number of ports.
pub record Ask : Type 0 where
  pub cpus : ℤ
  pub mem : ℤ
  pub disk : ℤ
  pub ports : ℕ

module _ (u : MesosUtil) where
  -- The test of the filters in getPorts and getResource.
  abbrev selects : Text → Bool → Resource → Bool
  selects name with_reservation res =
      text_eq res.name name
      && (if with_reservation then is_set res.reservation else not (is_set res.reservation))

  total : ℤ → List Resource → ℤ
  total val [] = val
  total val (res ∷ rs) = total (val +ℤ get_scalar res) rs

  unfoldable pub get_resource : Text → List Resource → Bool → ℤ
  unfolding total
  get_resource name resources with_reservation =
      total (pos 0) (u.filter_resources resources (selects name with_reservation))

  unfoldable pub get_ports : List Resource → Bool → Option (List ℕ)
  get_ports resources with_reservation =
      ports_of (u.filter_resources resources (selects (codes "ports") with_reservation))

  unfoldable pub get_persistence_ids : List Resource → List Text
  get_persistence_ids resources = map get_persistence_id (
      u.filter_resources resources
        (λ res. text_eq res.name (codes "disk") && is_set res.reservation && is_set res.disk))

  group : List Resource → Bool → Option ResourceGroup
  unfolding get_resource get_ports
  group resources with_reservation = do
    ports ← get_ports resources with_reservation
    some (record {
      cpus = get_resource (codes "cpus") resources with_reservation;
      mem = get_resource (codes "mem") resources with_reservation;
      disk = get_resource (codes "disk") resources with_reservation;
      ports = ports;
    })

  unfoldable pub new_offer_helper : Offer → Option OfferHelper
  unfolding group get_persistence_ids
  new_offer_helper offer = do
    unreserved ← group offer.resources false
    reserved ← group offer.resources true
    some (record {
      mesos_offer = offer;
      offer_id_str = offer.id;
      persistence_ids = get_persistence_ids offer.resources;
      reserved_resources = reserved;
      unreserved_resources = unreserved;
      resources_to_reserve = [];
      resources_to_unreserve = [];
      volumes_to_create = [];
      volumes_to_destroy = [];
      tasks_to_launch = [];
    })

-- `a > 0`.
abbrev pub positive : ℤ → Bool
positive a = ltb_ℤ (pos 0) a

-- `a >= b`.
abbrev pub at_least : ℤ → ℤ → Bool
at_least a b = not (ltb_ℤ a b)

unfoldable pub can_fit : ResourceGroup → Ask → Bool
can_fit g ask =
    at_least g.cpus ask.cpus
    && at_least g.mem ask.mem
    && at_least g.disk ask.disk
    && leb ask.ports (length g.ports)

abbrev pub can_fit_reserved : OfferHelper → Ask → Bool
can_fit_reserved h = can_fit h.reserved_resources

abbrev pub can_fit_unreserved : OfferHelper → Ask → Bool
can_fit_unreserved h = can_fit h.unreserved_resources

unfoldable pub offer_has_reservations : OfferHelper → Bool
offer_has_reservations h =
    positive h.reserved_resources.cpus
    || positive h.reserved_resources.mem
    || positive h.reserved_resources.disk
    || ltb 0 (length h.reserved_resources.ports)

unfoldable pub offer_has_volumes : OfferHelper → Bool
offer_has_volumes h = ltb 0 (length h.persistence_ids)

contains : Text → List Text → Bool
contains id [] = false
contains id (x ∷ xs) = if text_eq x id then true else contains id xs

unfoldable pub has_persistence_id : OfferHelper → Text → Bool
unfolding contains
has_persistence_id h id = contains id h.persistence_ids

-- `rand.Intn n` is some number below `n`.
abbrev pub Intn : Type 0
Intn = ℕ → ℕ

-- `sliceLoc`: the random start is drawn only if some port would be left.
unfoldable pub slice_loc : Intn → ℕ → ℕ → ℕ
slice_loc intn len ports = if ltb ports len then intn (len - ports) else 0

-- The last block of `apply` up to the assignment of `against.Ports`: the ports taken and left.
-- With fewer ports than asked `make` is given a negative length and panics.
unfoldable pub take_ports : Intn → List ℕ → ℕ → Option (List ℕ × List ℕ)
unfolding slice_loc
take_ports intn ps ports =
    let loc = slice_loc intn (length ps) ports in
    if ltb (length ps) ports
    then none
    else some (take ports (drop loc ps), take loc ps ++ drop (loc + ports) ps)

-- Who a reservation is for; empty strings ask for none.
pub record Owner : Type 0 where
  pub principal : Text
  pub role : Text
  pub persistence_id : Text
  pub container_path : Text

abbrev pub nobody : Owner
nobody = record { principal = []; role = []; persistence_id = []; container_path = [] }

abbrev pub reserves : Owner → Bool
reserves o = not (is_empty o.principal) && not (is_empty o.role)

abbrev pub persists : Owner → Bool
persists o = reserves o && not (is_empty o.container_path) && not (is_empty o.persistence_id)

module _ (u : MesosUtil) (intn : Intn) where
  unfoldable pub scalar_ask : Text → ℤ → Owner → Resource
  scalar_ask name v o =
      if reserves o
      then u.new_scalar_resource_with_reservation name v o.principal o.role
      else u.new_scalar_resource name v

  unfoldable pub disk_ask : ℤ → Owner → Resource
  unfolding scalar_ask
  disk_ask v o =
      if persists o
      then u.new_volume_resource_with_reservation v o.container_path o.persistence_id o.principal
          o.role
      else scalar_ask (codes "disk") v o

  unfoldable pub ports_ask : List ℕ → Owner → Resource
  ports_ask taking o =
      let r = u.new_ranges_resource (codes "ports") (array_to_ranges taking) in
      if reserves o then u.add_resource_reservation r o.principal o.role else r

  unfoldable pub apply_scalars : ResourceGroup → Ask → Owner → ResourceGroup × List Resource
  unfolding scalar_ask disk_ask
  apply_scalars against ask o = (
    record against {
      cpus = if positive ask.cpus then against.cpus -ℤ ask.cpus else against.cpus;
      mem = if positive ask.mem then against.mem -ℤ ask.mem else against.mem;
      disk = if positive ask.disk then against.disk -ℤ ask.disk else against.disk;
    },
    (if positive ask.cpus then scalar_ask (codes "cpus") ask.cpus o ∷ [] else [])
        ++ ((if positive ask.mem then scalar_ask (codes "mem") ask.mem o ∷ [] else [])
            ++ (if positive ask.disk then disk_ask ask.disk o ∷ [] else [])),
  )

  -- The group after the ask is taken from it, and the resources to ask for.
  unfoldable pub apply : ResourceGroup → Ask → Owner → Option (ResourceGroup × List Resource)
  apply against ask o =
      let r = apply_scalars against ask o in
      if ltb 0 ask.ports
      then (take_ports intn against.ports ask.ports >>= λ t.
          some (record (r.0) { ports = t.1 }, r.1 ++ ports_ask t.0 o ∷ []))
      else some r

  unfoldable pub apply_reserved : OfferHelper → Ask → Owner → Option (OfferHelper × List Resource)
  apply_reserved h ask o = do
    r ← apply h.reserved_resources ask o
    some (record h { reserved_resources = r.0 }, r.1)

  unfoldable pub apply_unreserved_for :
      OfferHelper → Ask → Owner → Option (OfferHelper × List Resource)
  apply_unreserved_for h ask o = do
    r ← apply h.unreserved_resources ask o
    some (record h { unreserved_resources = r.0 }, r.1)

  unfoldable pub apply_unreserved : OfferHelper → Ask → Option (OfferHelper × List Resource)
  unfolding apply_unreserved_for
  apply_unreserved h ask = apply_unreserved_for h ask nobody

  unfoldable pub make_reservation : OfferHelper → Ask → Text → Text → Option OfferHelper
  unfolding apply_unreserved_for
  make_reservation h ask principal role = do
    r ←
        apply_unreserved_for h ask
          (record { principal = principal; role = role; persistence_id = []; container_path = [] })
    some (record (r.0) { resources_to_reserve = (r.0).resources_to_reserve ++ r.1 })

  -- The disk is given back: the reservation has taken it already.
  unfoldable pub make_volume : OfferHelper → ℤ → Owner → Option OfferHelper
  unfolding apply_unreserved_for
  make_volume h disk o = do
    r ← apply_unreserved_for h (record { cpus = pos 0; mem = pos 0; disk = disk; ports = 0 }) o
    let g = (r.0).unreserved_resources
    some (record (r.0) {
      unreserved_resources = record g { disk = g.disk +ℤ disk };
      volumes_to_create = (r.0).volumes_to_create ++ r.1;
    })

module _ (u : MesosUtil) where
  -- Gives back what an offer holds in reserve if nothing is launched with it.
  unfoldable pub maybe_unreserve : OfferHelper → OfferHelper
  maybe_unreserve h = if ltb 0 (length h.tasks_to_launch) then h else record h {
    resources_to_unreserve =
        h.resources_to_unreserve
        ++ (if offer_has_reservations h
            then copy_reserved_resources u h.mesos_offer.resources
            else []);
    volumes_to_destroy =
        h.volumes_to_destroy
        ++ (if offer_has_volumes h then copy_reserved_volumes u h.mesos_offer.resources else []);
  }

  abbrev operation_if {ℓ} : {A : Type ℓ} → (List A → Operation) → List A → List Operation
  operation_if make xs = if ltb 0 (length xs) then make xs ∷ [] else []

  unfoldable pub operations : OfferHelper → List Operation
  operations h =
      operation_if u.new_launch_operation h.tasks_to_launch
      ++ (operation_if u.new_destroy_operation h.volumes_to_destroy
          ++ (operation_if u.new_unreserve_operation h.resources_to_unreserve
              ++ (operation_if u.new_reserve_operation h.resources_to_reserve
                  ++ operation_if u.new_create_operation h.volumes_to_create)))
