-- ===== src/Scheduler/Start/Identity.antt =====
-- The identity of the framework over restarts (scheduler/scheduler.go and scheduler/state.go).
use riak_mesos_legacy.Base.{
  Option, some, ◌≡◌, refl, ap, ◌∙◌, subst, true, arith, is_some, inl, inr, Option-cases,
}
use riak_mesos_legacy.Base.Text.{Text}
use riak_mesos_legacy.Scheduler.Config.{Config}
use riak_mesos_legacy.Scheduler.Core.{
  SchedulerState, Core, Outcome, Write, written, refused, unacknowledged, set_data, exported,
  persist, continue, done, core_of, Zookeeper, registered, restarted,
}
use riak_mesos_legacy.Scheduler.Start.{Machine, Settings, DriverConfig, run}
use riak_mesos_legacy.Scheduler.System.{Since, first_start}
use riak_mesos_legacy.Scheduler.System.Sound.{BothSound, Leaves, restarted-BothSound}
use riak_mesos_legacy.Scheduler.System.Callbacks.{registered-Leaves}
use riak_mesos_legacy.Scheduler.System.Reachable.{AnyId, Since-BothSound, Since-IsSound}

abbrev IsKnown : Option Text → Type 0
IsKnown id = is_some id ≡ true

run-id :
    (machine : Machine) (settings : Settings) (sc : Config) (s : SchedulerState) (master : Text)
    (driver : DriverConfig)
    → run machine settings sc s master ≡ some driver
    → driver.framework.id ≡ s.framework_id
unfolding run
run-id machine settings sc s master driver e = ground arith

stored_id :
    (w : Write) (id : Text) (core core' : Core)
    → core.state.framework_id ≡ some id
    → ◌≡◌ {A = Outcome (Unit {0})}
        (continue (set_data w core) (λ c _. done (record c { enabled = true }) tt))
        (done core' tt)
    → (core'.state.framework_id ≡ some id) × (core'.stored.framework_id ≡ some id)
unfolding set_data exported
stored_id written id core core' h e =
    let same = ap core_of e in
    (
      subst (λ (c : Core). c.state.framework_id ≡ some id) same h,
      subst (λ (c : Core). c.stored.framework_id ≡ some id) same h,
    )
stored_id refused id core core' h e = absurd (cc e)
stored_id unacknowledged id core core' h e = absurd (cc e)

registered-id :
    (zk : Zookeeper) (id : Text) (core core' : Core)
    → registered zk id core ≡ done core' tt
    → (core'.state.framework_id ≡ some id) × (core'.stored.framework_id ≡ some id)
unfolding registered persist
registered-id zk id core core' e = stored_id (zk core.persists) id _ core' refl e

module _ (sc : Config) where
  -- Where the scheduler has registered once, and the state was stored, then whatever happens after, a
  -- restart gives Mesos the id of a framework, and does not ask for a new one.
  pub registered-run :
      (machine : Machine) (settings : Settings) (driver : DriverConfig) (zk : Zookeeper)
      (first master id : Text) {core core' core'' : Core}
      → Since sc (first_start first) core
      → registered zk id core ≡ done core' tt
      → Since sc core' core''
      → run machine settings sc (restarted master core'').state master ≡ some driver
      → (known : Text) × (driver.framework.id ≡ some known)
  registered-run machine settings driver zk first master id {core} {core'} {core''} before e after
        r =
      let (in_state, in_store) = registered-id zk id core core' e in
      let any : BothSound sc.framework_name AnyId core' =
        subst (Leaves sc.framework_name AnyId) e (
          registered-Leaves sc.framework_name AnyId zk id core tt
            (Since-IsSound sc first before)) in
      let start : BothSound sc.framework_name IsKnown core' = (
        record { known = ap is_some in_state; live = any.0.live; dead = any.0.dead },
        record { known = ap is_some in_store; live = any.1.live; dead = any.1.dead },
      ) in
      let now = Since-BothSound sc IsKnown (λ id. refl) after start in
      let again = restarted-BothSound sc.framework_name IsKnown master core'' now in
      elim (Option-cases (restarted master core'').state.framework_id) [
        | inl lost ↦ absurd (cc (again.0.known, lost))
        | inr (known, k) ↦ (known, run-id machine settings sc _ master driver r ∙ k)
      ]
