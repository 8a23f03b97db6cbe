-- ===== src/Common/Offer/Ports.antt =====
-- The ports that a task is given by OfferHelper.apply (common/offer.go) and reads back through
-- PortIterator (common/utils.go).
use mathlib.Core.List.{Perm, append_assoc, append-nil}
use mathlib.Core.List.Perm
use mathlib.Core.Option.{some_inj}
use riak_mesos_legacy.Base.{
  ℕ, ◌≡◌, refl, sym, ap, subst, ◌∙◌, inl, inr, Bool, true, false, List, [], ◌∷◌, ◌++◌, some, none,
  arith, Bool-cases, Option-cases, ltb, length, if◌then◌else◌, keep, All, All-append,
}
use riak_mesos_legacy.Base.Opt.{>>=-eq-some}
use riak_mesos_legacy.Base.Int.{ℤ}
use riak_mesos_legacy.Base.Text.{Text, codes, text_eq}
use riak_mesos_legacy.Mesos.{ValueRange, Resource, MesosUtil, IsMesosUtil, get_ranges}
use riak_mesos_legacy.Common.Ranges.{
  sort, array_to_ranges, ranges_to_array, ports_of, port_iterator,
}
use riak_mesos_legacy.Common.Ranges.Sorted.{
  IsSmall, Ascending, Distinct, length-sort, sort-perm, sort-Ascending,
}
use riak_mesos_legacy.Common.Ranges.RoundTrip.{ranges_to_array-array_to_ranges}
use riak_mesos_legacy.Common.Offer.{
  ResourceGroup, Ask, Owner, Intn, positive, reserves, scalar_ask, disk_ask, take_ports,
  apply_scalars, ports_ask, apply,
}
use riak_mesos_legacy.Common.Offer.Take.{IsIntn, take_ports_lem, take_ports-window}
use riak_mesos_legacy.Common.Offer.Apply.{apply_scalars-ports, apply-panic, apply-none, apply-some}

abbrev is_ports : Resource → Bool
is_ports res = text_eq res.name (codes "ports")

ports_of-append :
    (rs ss : List Resource) (a b : List ℕ)
    → ports_of rs ≡ some a
    → ports_of ss ≡ some b
    → ports_of (rs ++ ss) ≡ some (a ++ b)
unfolding ports_of
ports_of-append [] ss a b e f = ground arith
ports_of-append (r ∷ rs) ss a b e f =
    let (temp, p, q) = >>=-eq-some (ranges_to_array (get_ranges r)) _ e in
    let (rest, p', q') = >>=-eq-some (ports_of rs) (λ l. some (temp ++ l)) q in
    let whole : temp ++ rest ≡ a = some_inj.0 q' in
    rw (p, ports_of-append rs ss rest b p' f)
      (ap some (sym (append_assoc temp rest b) ∙ ap (λ l. l ++ b) whole))

keep-append :
    (rs ss : List Resource) → keep is_ports (rs ++ ss) ≡ keep is_ports rs ++ keep is_ports ss
keep-append [] ss = refl
keep-append (r ∷ rs) ss = ground (arith, keep-append rs ss)

keep-nil : (rs : List Resource) → All (λ r. is_ports r ≡ false) rs → keep is_ports rs ≡ []
keep-nil [] h = refl
keep-nil (r ∷ rs) h = ground (arith, keep-nil rs h.1)

optional :
    (b : Bool) (r : Resource)
    → is_ports r ≡ false
    → All (λ r. is_ports r ≡ false) (if b then r ∷ [] else [])
optional true r h = (h, tt)
optional false r h = tt

other_name :
    (r : Resource) {t : Text} → r.name ≡ t → text_eq t (codes "ports") ≡ false → is_ports r ≡ false
other_name r e h = ap (λ t. text_eq t (codes "ports")) e ∙ h

single :
    (r : Resource) (vs : List ValueRange) (l : List ℕ)
    → r.name ≡ codes "ports"
    → r.ranges ≡ some vs
    → ranges_to_array vs ≡ some l
    → ports_of (keep is_ports (r ∷ [])) ≡ some l
unfolding ports_of
single r vs l n v e =
    let here : is_ports r ≡ true = ap (λ t. text_eq t (codes "ports")) n ∙ unfold text_eq in refl in
    let ranges : get_ranges r ≡ vs = ap (λ o. elim o [ none ↦ [] | some v ↦ v ]) v in
    rw here (rw (ranges, e) (ap some (append-nil l)))

module _ (u : MesosUtil) (laws : IsMesosUtil u) where
  pub port_iterator-append :
      (rs ss : List Resource) (a b : List ℕ)
      → port_iterator u rs ≡ some a
      → port_iterator u ss ≡ some b
      → port_iterator u (rs ++ ss) ≡ some (a ++ b)
  unfolding port_iterator
  port_iterator-append rs ss a b e f =
      rw (laws.filters, keep-append rs ss)
        (ports_of-append (keep is_ports rs) (keep is_ports ss) a b
          (rw (laws.filters rs is_ports) at e) (rw (laws.filters ss is_ports) at f))

  module _ (intn : Intn) (o : Owner) where
    scalar_ask-name : (name : Text) (v : ℤ) → (scalar_ask u intn name v o).name ≡ name
    unfolding scalar_ask
    scalar_ask-name name v =
        ground (arith, laws.scalar_name name v, laws.reserved_scalar_name name v o.principal o.role)

    disk_ask-name : (v : ℤ) → (disk_ask u intn v o).name ≡ codes "disk"
    unfolding disk_ask
    disk_ask-name v = ground (
      arith,
      scalar_ask-name (codes "disk") v,
      laws.volume_name v o.container_path o.persistence_id o.principal o.role,
    )

    apply_scalars-no_ports :
        (g : ResourceGroup) (ask : Ask)
        → All (λ r. is_ports r ≡ false) (apply_scalars u intn g ask o).1
    unfolding apply_scalars
    apply_scalars-no_ports g ask =
        let cpus = scalar_ask u intn (codes "cpus") ask.cpus o in
        let mem = scalar_ask u intn (codes "mem") ask.mem o in
        let disk = disk_ask u intn ask.disk o in
        All-append (λ r. is_ports r ≡ false) (if positive ask.cpus then cpus ∷ [] else []) _
          (optional (positive ask.cpus) cpus
            (other_name cpus (scalar_ask-name (codes "cpus") ask.cpus) (unfold text_eq in refl)))
          (All-append (λ r. is_ports r ≡ false) (if positive ask.mem then mem ∷ [] else []) _
            (optional (positive ask.mem) mem
              (other_name mem (scalar_ask-name (codes "mem") ask.mem) (unfold text_eq in refl)))
            (optional (positive ask.disk) disk
              (other_name disk (disk_ask-name ask.disk) (unfold text_eq in refl))))

    -- The amounts of an ask bring no port.
    pub port_iterator-apply_scalars :
        (g : ResourceGroup) (ask : Ask) → port_iterator u (apply_scalars u intn g ask o).1 ≡ some []
    unfolding port_iterator
    port_iterator-apply_scalars g ask =
        rw (laws.filters, keep-nil _ (apply_scalars-no_ports g ask)) (unfold ports_of in refl)

    pub apply-no_ports :
        (against g : ResourceGroup) (ask : Ask) (rs : List Resource)
        → ltb 0 ask.ports ≡ false
        → apply u intn against ask o ≡ some (g, rs)
        → port_iterator u rs ≡ some []
    apply-no_ports against g ask rs idle e =
        subst (λ r. port_iterator u r.1 ≡ some [])
          (some_inj.0 (sym (apply-none u intn against ask o idle) ∙ e))
          (port_iterator-apply_scalars against ask)

    -- An ask for no port leaves the ports as they are.
    pub apply-same_ports :
        (against g : ResourceGroup) (ask : Ask) (rs : List Resource)
        → ltb 0 ask.ports ≡ false
        → apply u intn against ask o ≡ some (g, rs)
        → against.ports ≡ g.ports
    apply-same_ports against g ask rs idle e =
        sym (apply_scalars-ports u intn against ask o)
        ∙ ap (λ (r : ResourceGroup × List Resource). (r.0).ports)
            (some_inj.0 (sym (apply-none u intn against ask o idle) ∙ e))

    port_iterator-ports_ask :
        (taking : List ℕ)
        → reserves o ≡ false
        → All IsSmall taking
        → Distinct taking
        → port_iterator u (ports_ask u intn taking o ∷ []) ≡ some (sort taking)
    unfolding port_iterator ports_ask
    port_iterator-ports_ask taking free s d =
        let ranges = array_to_ranges taking in
        let r = u.new_ranges_resource (codes "ports") ranges in
        rw (free, laws.filters (r ∷ []) is_ports)
          (single r ranges (sort taking) (laws.ranges_name (codes "ports") ranges)
            (laws.ranges_ranges (codes "ports") ranges)
            (ranges_to_array-array_to_ranges taking s d))

    abbrev Gives : ResourceGroup → Ask → ResourceGroup × List Resource → Type 0
    Gives against ask r =
        (ports : List ℕ) × (port_iterator u r.1 ≡ some ports)
        × (length ports ≡ ask.ports)
        × Ascending ports
        × Perm (ports ++ (r.0).ports) against.ports

    idle-Gives :
        (against : ResourceGroup) (ask : Ask)
        → ltb 0 ask.ports ≡ false
        → Gives against ask (apply_scalars u intn against ask o)
    idle-Gives against ask idle = (
      [],
      port_iterator-apply_scalars against ask,
      ground arith,
      tt,
      rw (apply_scalars-ports u intn against ask o) (Perm.refl against.ports),
    )

    taking-Gives :
        (against : ResourceGroup) (ask : Ask) (taking leaving : List ℕ)
        → IsIntn intn
        → reserves o ≡ false
        → All IsSmall against.ports
        → Distinct against.ports
        → take_ports intn against.ports ask.ports ≡ some (taking, leaving)
        → Gives against ask (
          record ((apply_scalars u intn against ask o).0) { ports = leaving },
          (apply_scalars u intn against ask o).1 ++ ports_ask u intn taking o ∷ [],
        )
    taking-Gives against ask taking leaving ok free s d e =
        let (small, distinct) = take_ports-window intn against.ports ask.ports e s d in
        let (perm, many) = take_ports_lem intn against.ports ask.ports ok e in
        (
          sort taking,
          port_iterator-append _ _ [] (sort taking) (port_iterator-apply_scalars against ask)
              (port_iterator-ports_ask taking free small distinct),
          length-sort taking ∙ many,
          sort-Ascending taking small distinct,
          Perm.trans (Perm.append (sort-perm taking) (Perm.refl leaving)) perm,
        )

    -- If mesosutil does what it documents, the random numbers are in range, and a group's ports
    -- are distinct and below the largest int64, a task that asks for ports without a reservation,
    -- and does not panic, reads back as many ports as it asked for, in ascending order, which
    -- together with those left are the ports of the group.
    pub apply-ports :
        (against g : ResourceGroup) (ask : Ask) (rs : List Resource)
        → IsIntn intn
        → reserves o ≡ false
        → All IsSmall against.ports
        → Distinct against.ports
        → apply u intn against ask o ≡ some (g, rs)
        → (ports : List ℕ) × (port_iterator u rs ≡ some ports)
          × (length ports ≡ ask.ports)
          × Ascending ports
          × Perm (ports ++ g.ports) against.ports
    apply-ports against g ask rs ok free s d e = elim (Bool-cases (ltb 0 ask.ports)) [
      | inl want ↦ elim (Option-cases (take_ports intn against.ports ask.ports)) [
        | inl panic ↦ absurd (cc (apply-panic u intn against ask o want panic))
        | inr ((taking, leaving), took) ↦
            subst (Gives against ask)
              (some_inj.0 (sym (apply-some u intn against ask o _ want took) ∙ e))
              (taking-Gives against ask taking leaving ok free s d took)
      ]
      | inr idle ↦
          subst (Gives against ask) (some_inj.0 (sym (apply-none u intn against ask o idle) ∙ e))
            (idle-Gives against ask idle)
    ]
