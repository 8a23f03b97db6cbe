-- ===== src/Scheduler/Offers/Due.antt =====
-- ResourceOffers of scheduler/scheduler.go and ApplyOffer of scheduler/cluster.go: which tasks are
-- launched on an offer.
use mathlib.Core.Option.{some_inj}
use riak_mesos_legacy.Base.{
  ◌≡◌, ◌⊎◌, refl, subst, inl, inr, Bool, true, false, List, [], ◌∷◌, none, some, arith, All,
  All-append, Option-cases,
}
use riak_mesos_legacy.Base.Opt.{>>=-eq-some}
use riak_mesos_legacy.Base.Text.{Text}
use riak_mesos_legacy.Base.Map.{Map}
use riak_mesos_legacy.Mesos.{Resource, TaskInfo}
use riak_mesos_legacy.Common.Ranges.{port_iterator}
use riak_mesos_legacy.Common.Offer.{
  OfferHelper, apply_reserved, apply_unreserved, make_reservation, make_volume,
}
use riak_mesos_legacy.Scheduler.Config.{Config, Outside}
use riak_mesos_legacy.Scheduler.Node.{
  Node, current_id, needs_to_be_reconciled, can_be_scheduled, make_task_info, apply_reserved_offer,
  apply_unreserved_offer, take_asks,
}
use riak_mesos_legacy.Scheduler.Cluster.{Visit, visit, visits}

-- The task is that of a node whose state the master has told, or that has had no task, and that may be
-- scheduled.
pub record IsDue (t : TaskInfo) (n : Node) : Type 0 where
  pub task_id : t.task_id ≡ current_id n
  pub is_known : needs_to_be_reconciled n ≡ false
  pub is_ready : can_be_scheduled n ≡ true

-- The task is that of some node of the map.
abbrev pub DueIn : TaskInfo → Map Node → Type 0
DueIn t [] = ⊥
DueIn t ((k, n) ∷ m) = IsDue t n ⊎ DueIn t m

-- What holds of the tasks that are due for a node.
abbrev pub Ready : (TaskInfo → Type 0) → Text × Node → Type 0
Ready P (k, n) = (t : TaskInfo) → IsDue t n → P t

module _ (sc : Config) (out : Outside) where
  apply_unreserved_offer-tasks :
      (n : Node) (h : OfferHelper) (r : Node × OfferHelper × Bool)
      → apply_unreserved_offer out n h ≡ some r
      → r.1.tasks_to_launch ≡ h.tasks_to_launch
  unfolding apply_unreserved_offer apply_unreserved make_reservation make_volume
  apply_unreserved_offer-tasks n h r e = ground arith

  take_asks-tasks :
      (n : Node) (h : OfferHelper) (r : OfferHelper × List Resource × List Resource)
      → take_asks sc out n h ≡ some (some r)
      → r.0.tasks_to_launch ≡ h.tasks_to_launch
  unfolding take_asks apply_unreserved apply_reserved
  take_asks-tasks n h r e = ground arith

  -- A visit launches nothing, or what ApplyReservedOffer launches for a node that is due.
  visit-tasks :
      (n : Node) (h : OfferHelper) (v : Visit)
      → visit sc out n h ≡ some v
      → (v.helper.tasks_to_launch ≡ h.tasks_to_launch)
        ⊎ ((r : Node × OfferHelper × Bool) × (apply_reserved_offer sc out n h ≡ some r)
            × (v.helper.tasks_to_launch ≡ r.1.tasks_to_launch)
            × (needs_to_be_reconciled n ≡ false)
            × (can_be_scheduled n ≡ true))
  unfolding visit
  visit-tasks n h v e = elim (Option-cases (apply_reserved_offer sc out n h)) [
    | inl no_reserved ↦ elim (Option-cases (apply_unreserved_offer out n h)) [
      | inl no_unreserved ↦ inl (ground arith)
      | inr (s, b) ↦ let same = apply_unreserved_offer-tasks n h s b in inl (ground arith)
    ]
    | inr (r, a) ↦
        let split : (v.helper.tasks_to_launch ≡ h.tasks_to_launch)
            ⊎ ((v.helper.tasks_to_launch ≡ r.1.tasks_to_launch)
                × (needs_to_be_reconciled n ≡ false)
                × (can_be_scheduled n ≡ true)) =
          elim (Option-cases (apply_unreserved_offer out n h)) [
            | inl no_unreserved ↦ ground arith
            | inr (s, b) ↦ let same = apply_unreserved_offer-tasks n h s b in ground arith
          ] in
        elim split [ inl same ↦ inl same | inr (t, x, y) ↦ inr (r, a, t, x, y) ]
  ]

  module _ (P : TaskInfo → Type 0) where
    apply_reserved_offer-All :
        (n : Node) (h : OfferHelper) (r : Node × OfferHelper × Bool)
        → ((t : TaskInfo) → t.task_id ≡ current_id n → P t)
        → All P h.tasks_to_launch
        → apply_reserved_offer sc out n h ≡ some r
        → All P r.1.tasks_to_launch
    unfolding apply_reserved_offer make_task_info current_id
    apply_reserved_offer-All n h r f all e = elim (Option-cases (take_asks sc out n h)) [
      | inl panic ↦ absurd (ground arith)
      | inr (none, asked) ↦
          subst (λ (x : Node × OfferHelper × Bool). All P x.1.tasks_to_launch)
            (some_inj.0 (rw (apply_reserved_offer, asked) at e)) all
      | inr (some (h', task_ask, exec_ask), asked) ↦
          let before : All P h'.tasks_to_launch =
            rw (take_asks-tasks n h (h', task_ask, exec_ask) asked) all in
          elim (Option-cases (port_iterator out.util task_ask)) [
            | inl panic ↦ absurd (cc (rw (apply_reserved_offer, asked, panic) at e))
            | inr (ports, read) ↦
                subst (λ (x : Node × OfferHelper × Bool). All P x.1.tasks_to_launch)
                  (some_inj.0 (rw (apply_reserved_offer, asked, read) at e))
                  (All-append P h'.tasks_to_launch _ before (f _ refl, tt))
          ]
    ]

    visit-All :
        (k : Text) (n : Node) (h : OfferHelper) (v : Visit)
        → Ready P (k, n)
        → All P h.tasks_to_launch
        → visit sc out n h ≡ some v
        → All P v.helper.tasks_to_launch
    visit-All k n h v f all e = elim (visit-tasks n h v e) [
      | inl same ↦ rw same all
      | inr (r, applied, same, known, can) ↦ rw same (
          apply_reserved_offer-All n h r
            (λ t id. f t (record { task_id = id; is_known = known; is_ready = can })) all applied)
    ]

    pub visits-All :
        (m : Map Node) (h : OfferHelper) (r : Map Node × OfferHelper × Bool × Bool)
        → All (Ready P) m
        → All P h.tasks_to_launch
        → visits sc out m h ≡ some r
        → All P r.1.tasks_to_launch
    unfolding visits
    visits-All [] h r f all e =
        subst (λ (x : Map Node × OfferHelper × Bool × Bool). All P x.1.tasks_to_launch)
          (some_inj.0 e) all
    visits-All ((k, n) ∷ m) h r (f, fs) all e =
        let (v, visited, e') = >>=-eq-some (visit sc out n h) _ e in
        let (s, went, e'') = >>=-eq-some (visits sc out m v.helper) _ e' in
        subst (λ (x : Map Node × OfferHelper × Bool × Bool). All P x.1.tasks_to_launch)
          (some_inj.0 e'') (visits-All m v.helper s fs (visit-All k n h v f all visited) went)

-- A property of the tasks that are due in a map is one of those that are due for each of its nodes.
pub DueIn-Ready :
    (P : TaskInfo → Type 0) (m : Map Node) → ((t : TaskInfo) → DueIn t m → P t) → All (Ready P) m
DueIn-Ready P [] f = tt
DueIn-Ready P ((k, n) ∷ m) f = ((λ t d. f t (inl d)), DueIn-Ready P m (λ t d. f t (inr d)))
