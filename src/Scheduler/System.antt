-- ===== src/Scheduler/System.antt =====
-- The scheduler as a whole: the callbacks of scheduler/scheduler.go, the requests of server.go and
-- the ticks of reconcilation.go, in any order. Each holds the lock of SchedulerCore, so they follow
-- one another.
pub mod Sound
pub mod Requests
pub mod Callbacks
pub mod Offers
pub mod Rounds
pub mod Reachable
use riak_mesos_legacy.Base.{ℕ, false, List}
use riak_mesos_legacy.Base.Text.{Text}
use riak_mesos_legacy.Mesos.{TaskStatus, Offer}
use riak_mesos_legacy.Scheduler.Config.{Config, Outside}
use riak_mesos_legacy.Scheduler.Explorer.{Explorer}
use riak_mesos_legacy.Scheduler.Core.{
  Core, Outcome, done, panics, core_of, empty_scheduler_state, Zookeeper, registered, reregistered,
  restarted, status_update,
}
use riak_mesos_legacy.Scheduler.Offers.{resource_offers}
use riak_mesos_legacy.Scheduler.Reconcile.{Driver, reconcile}
use riak_mesos_legacy.Scheduler.Server.Proxy.{Http}
use riak_mesos_legacy.Scheduler.Server.Router.{Route, handle}

-- The scheduler on its first start, GetSchedulerState and Run: it has made its node in Zookeeper.
abbrev pub first_start : Text → Core
first_start mesos_master = record {
  state = record empty_scheduler_state { mesos_master = mesos_master };
  stored = empty_scheduler_state;
  persists = 0;
  enabled = false;
}

-- A panic of a callback or of the loop ends the process, which is started again.
abbrev pub goes_on {ℓ} : {A : Type ℓ} → Text → Outcome A → Core
goes_on mesos_master (done core a) = core
goes_on mesos_master (panics core) = restarted mesos_master core

-- What may happen to the scheduler. A request that panics ends with its connection: `net/http`
-- recovers, the lock is released, and the state stays as the request left it. What lies outside,
-- the Zookeeper included, may answer in another way each time.
module _ (sc : Config) where
  pub data Step : Core → Core → Type 0 where
    requested :
        (out : Outside) (http : Http) (zk : Zookeeper) (route : Route) (core : Core)
        → Step core (core_of (handle sc out http zk route core))
    registers :
        (master framework_id : Text) (zk : Zookeeper) (core : Core)
        → Step core (goes_on master (registered zk framework_id core))
    reregisters : (master : Text) (core : Core) → Step core (goes_on master (reregistered core))
    updates :
        (master : Text) (ex : Explorer) (zk : Zookeeper) (status : TaskStatus) (core : Core)
        → Step core (goes_on master (status_update ex zk status core))
    offered :
        (master : Text) (out : Outside) (zk : Zookeeper) (offers : List Offer) (core : Core)
        → Step core (goes_on master (resource_offers sc out zk offers core))
    ticks :
        (master : Text) (d : Driver) (zk : Zookeeper) (now : ℕ) (core : Core)
        → Step core (goes_on master (reconcile d zk now core))
    restarts : (master : Text) (core : Core) → Step core (restarted master core)

  -- The states after the given one.
  pub data Since (core : Core) : Core → Type 0 where
    here : Since core core
    later : {core' core'' : Core} → Since core core' → Step core' core'' → Since core core''
