-- ===== src/Common/Offer/Asked.antt =====
-- The resources that OfferHelper.apply (common/offer.go) asks for.
use mathlib.Core.List.{append-nil}
use mathlib.Core.Option.{some_inj}
use riak_mesos_legacy.Base.{
  ℕ, ◌≡◌, sym, ap, ◌∙◌, inl, inr, false, List, [], ◌∷◌, ◌++◌, some, Bool-cases, Option-cases, ltb,
  if◌then◌else◌,
}
use riak_mesos_legacy.Base.Text.{codes}
use riak_mesos_legacy.Mesos.{Resource, MesosUtil}
use riak_mesos_legacy.Common.Offer.{
  ResourceGroup, Ask, Owner, Intn, take_ports, positive, scalar_ask, disk_ask, ports_ask,
  apply_scalars, apply,
}
use riak_mesos_legacy.Common.Offer.Apply.{apply-none, apply-panic, apply-some}

module _ (u : MesosUtil) (intn : Intn) where
  -- One resource for each amount that is positive, reserved for its owner.
  abbrev pub amounts : Ask → Owner → List Resource
  amounts ask o =
      (if positive ask.cpus then scalar_ask u intn (codes "cpus") ask.cpus o ∷ [] else [])
      ++ ((if positive ask.mem then scalar_ask u intn (codes "mem") ask.mem o ∷ [] else [])
          ++ (if positive ask.disk then disk_ask u intn ask.disk o ∷ [] else []))

  -- One resource for the ports, if any are asked for.
  abbrev pub ports_of_ask : Ask → List ℕ → Owner → List Resource
  ports_of_ask ask taking o = if ltb 0 ask.ports then ports_ask u intn taking o ∷ [] else []

  -- A call that asks for no ports gives its amounts.
  pub apply-amounts :
      (against g : ResourceGroup) (ask : Ask) (o : Owner) (rs : List Resource)
      → ltb 0 ask.ports ≡ false
      → apply u intn against ask o ≡ some (g, rs)
      → rs ≡ amounts ask o
  unfolding apply_scalars
  apply-amounts against g ask o rs idle e =
      ap (λ r. r.1) (some_inj.0 (sym e ∙ apply-none u intn against ask o idle))

  -- A call that does not panic gives its amounts and its ports.
  pub apply-resources :
      (against g : ResourceGroup) (ask : Ask) (o : Owner) (rs : List Resource)
      → apply u intn against ask o ≡ some (g, rs)
      → (taking : List ℕ) × (rs ≡ amounts ask o ++ ports_of_ask ask taking o)
  unfolding apply_scalars
  apply-resources against g ask o rs e = elim (Bool-cases (ltb 0 ask.ports)) [
    | inl want ↦ elim (Option-cases (take_ports intn against.ports ask.ports)) [
      | inl panic ↦ absurd (cc (apply-panic u intn against ask o want panic))
      | inr (t, took) ↦ (
        t.0,
        rw want (ap (λ r. r.1) (some_inj.0 (sym e ∙ apply-some u intn against ask o t want took))),
      )
    ]
    | inr idle ↦
        ([], rw (idle, append-nil (amounts ask o)) (apply-amounts against g ask o rs idle e))
  ]
