-- ===== src/Common/Offer/Apply.antt =====
-- OfferHelper.apply and its callers (common/offer.go): what they take from a group.
use mathlib.Core.List.{Perm, append_assoc}
use mathlib.Core.List.Perm
use mathlib.Core.Option.{some_inj}
use riak_mesos_legacy.Base.{
  ℕ, ◌+◌, ◌≤◌, ◌≡◌, refl, sym, ap, subst, ◌∙◌, inl, inr, true, false, List, [], ◌∷◌, ◌++◌, some,
  none, arith, length-append, Bool-cases, Option-cases, ltb, length, if◌then◌else◌,
}
use riak_mesos_legacy.Base.Int.{ℤ, pos, ◌+ℤ◌, ◌-ℤ◌, ◌≤ℤ◌, int_laws, +ℤ_parts, eq_of_parts}
use riak_mesos_legacy.Mesos.{Resource, MesosUtil}
use riak_mesos_legacy.Common.Offer.{
  ResourceGroup, Ask, Owner, Intn, take_ports, positive, at_least, can_fit, apply_scalars,
  ports_ask, apply,
}
use riak_mesos_legacy.Common.Offer.Take.{IsIntn, take_ports_lem, take_ports-some}

-- No amount of the ask is negative.
pub record IsAsk (ask : Ask) : Type 0 where
  pub cpus : pos 0 ≤ℤ ask.cpus
  pub mem : pos 0 ≤ℤ ask.mem
  pub disk : pos 0 ≤ℤ ask.disk

-- `after` is what is left of `before` once the ask is taken.
pub record IsCharged (before after : ResourceGroup) (ask : Ask) : Type 0 where
  pub cpus : after.cpus +ℤ ask.cpus ≡ before.cpus
  pub mem : after.mem +ℤ ask.mem ≡ before.mem
  pub disk : after.disk +ℤ ask.disk ≡ before.disk
  pub taken : List ℕ
  pub taken-perm : Perm (taken ++ after.ports) before.ports
  pub length-taken : length taken ≡ ask.ports

pub charge : (a v : ℤ) → pos 0 ≤ℤ v → (if positive v then a -ℤ v else a) +ℤ v ≡ a
charge a v h = elim (Bool-cases (positive v)) [
  | inl p ↦ rw p (omega int_laws)
  | inr z ↦ rw z (ground (arith, +ℤ_parts a v, eq_of_parts (a +ℤ v) a))
]

module _ (u : MesosUtil) (intn : Intn) where
  pub apply-none :
      (against : ResourceGroup) (ask : Ask) (o : Owner)
      → ltb 0 ask.ports ≡ false
      → apply u intn against ask o ≡ some (apply_scalars u intn against ask o)
  unfolding apply
  apply-none against ask o e = rw e

  pub apply-panic :
      (against : ResourceGroup) (ask : Ask) (o : Owner)
      → ltb 0 ask.ports ≡ true
      → take_ports intn against.ports ask.ports ≡ none
      → apply u intn against ask o ≡ none
  unfolding apply
  apply-panic against ask o e p = rw e (rw p)

  pub apply-some :
      (against : ResourceGroup) (ask : Ask) (o : Owner) (t : List ℕ × List ℕ)
      → ltb 0 ask.ports ≡ true
      → take_ports intn against.ports ask.ports ≡ some t
      → apply u intn against ask o
        ≡ some (
          record ((apply_scalars u intn against ask o).0) { ports = t.1 },
          (apply_scalars u intn against ask o).1 ++ ports_ask u intn t.0 o ∷ [],
        )
  unfolding apply
  apply-some against ask o t e p = rw e (rw p)

  pub apply_scalars-ports :
      (against : ResourceGroup) (ask : Ask) (o : Owner)
      → (apply_scalars u intn against ask o).0.ports ≡ against.ports
  unfolding apply_scalars
  apply_scalars-ports against ask o = refl

  -- The amounts of a successful call.
  apply_scalars_lem :
      (against : ResourceGroup) (ask : Ask) (o : Owner)
      → IsAsk ask
      → let g = (apply_scalars u intn against ask o).0 in
        (g.cpus +ℤ ask.cpus ≡ against.cpus)
        × (g.mem +ℤ ask.mem ≡ against.mem)
        × (g.disk +ℤ ask.disk ≡ against.disk)
  unfolding apply_scalars
  apply_scalars_lem against ask o a = (
    charge against.cpus ask.cpus a.cpus,
    charge against.mem ask.mem a.mem,
    charge against.disk ask.disk a.disk,
  )

  idle-IsCharged :
      (against : ResourceGroup) (ask : Ask) (o : Owner)
      → IsAsk ask
      → ltb 0 ask.ports ≡ false
      → IsCharged against (apply_scalars u intn against ask o).0 ask
  idle-IsCharged against ask o a idle =
      let amounts = apply_scalars_lem against ask o a in
      record {
        cpus = amounts.0;
        mem = amounts.1;
        disk = amounts.2;
        taken = [];
        taken-perm = rw (apply_scalars-ports against ask o) (Perm.refl against.ports);
        length-taken = ground arith;
      }

  taking-IsCharged :
      (against : ResourceGroup) (ask : Ask) (o : Owner) (taking leaving : List ℕ)
      → IsIntn intn
      → IsAsk ask
      → take_ports intn against.ports ask.ports ≡ some (taking, leaving)
      → IsCharged against (record ((apply_scalars u intn against ask o).0) { ports = leaving }) ask
  taking-IsCharged against ask o taking leaving h a e =
      let amounts = apply_scalars_lem against ask o a in
      let ports = take_ports_lem intn against.ports ask.ports h e in
      record {
        cpus = amounts.0;
        mem = amounts.1;
        disk = amounts.2;
        taken = taking;
        taken-perm = ports.0;
        length-taken = ports.1;
      }

  -- What a successful call takes from the group is what was asked for, and nothing else changes.
  pub apply-IsCharged :
      (against g : ResourceGroup) (ask : Ask) (o : Owner) (rs : List Resource)
      → IsIntn intn
      → IsAsk ask
      → apply u intn against ask o ≡ some (g, rs)
      → IsCharged against g ask
  apply-IsCharged against g ask o rs h a e = elim (Bool-cases (ltb 0 ask.ports)) [
    | inl want ↦ elim (Option-cases (take_ports intn against.ports ask.ports)) [
      | inl panic ↦ absurd (cc (apply-panic against ask o want panic))
      | inr ((taking, leaving), took) ↦
          subst (λ x. IsCharged against x ask) (cc (apply-some against ask o _ want took))
            (taking-IsCharged against ask o taking leaving h a took)
    ]
    | inr idle ↦
        subst (λ x. IsCharged against x ask)
          (ap (λ r. r.0) (some_inj.0 (sym (apply-none against ask o idle) ∙ e)))
          (idle-IsCharged against ask o a idle)
  ]

  -- If the random numbers are in range, an ask of no negative amount for no more ports than the
  -- group has does not panic, and what is gone from the group is what was asked for.
  pub apply_lem :
      (against : ResourceGroup) (ask : Ask) (o : Owner)
      → IsIntn intn
      → IsAsk ask
      → ask.ports ≤ length against.ports
      → (g : ResourceGroup) × (rs : List Resource) × (apply u intn against ask o ≡ some (g, rs))
        × IsCharged against g ask
  apply_lem against ask o h a enough = elim (Bool-cases (ltb 0 ask.ports)) [
    | inl want ↦
        let (t, took) = take_ports-some intn against.ports ask.ports enough in
        (
          _,
          _,
          apply-some against ask o t want took,
          taking-IsCharged against ask o t.0 t.1 h a took,
        )
    | inr idle ↦ (_, _, apply-none against ask o idle, idle-IsCharged against ask o a idle)
  ]

sum_chain : (a b c x y z : ℤ) → b +ℤ x ≡ a → c +ℤ y ≡ b → x +ℤ y ≡ z → c +ℤ z ≡ a
sum_chain a b c x y z p q e =
    let regroup : c +ℤ (x +ℤ y) ≡ c +ℤ y +ℤ x = omega int_laws in
    ap (λ t. c +ℤ t) (sym e) ∙ regroup ∙ ap (λ t. t +ℤ x) q ∙ p

-- Two asks in a row are charged together.
pub IsCharged-trans :
    {a b c : ResourceGroup} {x y : Ask} (z : Ask)
    → x.cpus +ℤ y.cpus ≡ z.cpus
    → x.mem +ℤ y.mem ≡ z.mem
    → x.disk +ℤ y.disk ≡ z.disk
    → x.ports + y.ports ≡ z.ports
    → IsCharged a b x
    → IsCharged b c y
    → IsCharged a c z
IsCharged-trans {a} {b} {c} {x} {y} z ec em ed ep p q = record {
  cpus = sum_chain a.cpus b.cpus c.cpus x.cpus y.cpus z.cpus p.cpus q.cpus ec;
  mem = sum_chain a.mem b.mem c.mem x.mem y.mem z.mem p.mem q.mem em;
  disk = sum_chain a.disk b.disk c.disk x.disk y.disk z.disk p.disk q.disk ed;
  taken = p.taken ++ q.taken;
  taken-perm =
      Perm.trans (rw append_assoc (Perm.append (Perm.refl p.taken) q.taken-perm)) p.taken-perm;
  length-taken = omega (arith, length-append p.taken q.taken, p.length-taken, q.length-taken, ep);
}

-- A group holds no negative amount.
pub record IsSolvent (g : ResourceGroup) : Type 0 where
  pub cpus : pos 0 ≤ℤ g.cpus
  pub mem : pos 0 ≤ℤ g.mem
  pub disk : pos 0 ≤ℤ g.disk

within_sum : (a v b : ℤ) → v ≤ℤ b → a +ℤ v ≡ b → pos 0 ≤ℤ a
within_sum a v b le e =
    let le' : v ≤ℤ a +ℤ v = subst (λ t. v ≤ℤ t) (sym e) le in omega (int_laws, +ℤ_parts a v)

within : (a v b : ℤ) → at_least b v ≡ true → a +ℤ v ≡ b → pos 0 ≤ℤ a
within a v b h e = let le : v ≤ℤ b = ground arith in within_sum a v b le e

-- What is left of a group after an ask that fits is not negative.
pub IsCharged-IsSolvent :
    {a b : ResourceGroup} {x : Ask} → can_fit a x ≡ true → IsCharged a b x → IsSolvent b
unfolding can_fit
IsCharged-IsSolvent {a} {b} {x} fits p = record {
  cpus = within b.cpus x.cpus a.cpus (ground arith) p.cpus;
  mem = within b.mem x.mem a.mem (ground arith) p.mem;
  disk = within b.disk x.disk a.disk (ground arith) p.disk;
}
