-- ===== src/Executor.antt =====
-- executor/executor.go and executor/node.go: the executor of one task, which starts Riak and its
-- process manager, tells the master, and writes the node's address to Zookeeper.
pub mod Coordination
pub mod Inversion
pub mod Node
pub mod Callbacks
use riak_mesos_legacy.Base.{
  ℕ, Bool, true, false, List, [], ◌∷◌, ◌++◌, Option, none, some, if◌then◌else◌, length,
}
use riak_mesos_legacy.Base.Text.{Text}
use riak_mesos_legacy.Mesos.{TaskState}
use riak_mesos_legacy.Scheduler.Config.{TaskData}
use riak_mesos_legacy.Metadata.Zookeeper.{Zk}
use riak_mesos_legacy.Metadata.Retry.{Action, returned, panicked}
use riak_mesos_legacy.Metadata.Manager.{ZkNode}

-- What riakNode.pm points to: a process manager in its loop, or one that has returned.
pub data Pm : Type 0 where
  pm_up pm_over : Pm

-- RiakNode. `finishChan` is left out: no code makes the channel, so that it is nil. `looping` is the
-- child that the goroutine of runLoop has, where it was started.
pub record RiakNode : Type 0 where
  pub task_id : Text
  pub task_data : TaskData
  pub generation : ℕ
  pub running : Bool
  pub kill_status : TaskState
  pub pm : Option Pm
  pub looping : Option ZkNode

-- A status update: its state and data.
pub record Update : Type 0 where
  pub state : TaskState
  pub data_sent : List ℕ

-- ExecutorCore, with what it has sent to the master, whether its driver was stopped, and Zookeeper.
-- The infos that registration keeps are left out: nothing reads them.
pub record Core (S : Type 0) : Type 0 where
  pub riak_node : Option RiakNode
  -- whether the field Driver is set
  pub driver : Bool
  pub sent : List Update
  pub stopped : Bool
  pub zk : S

-- A callback returns, panics, ends the process, or never returns and keeps the lock.
pub data Ran (S A : Type 0) : Type 0 where
  done : Core S → A → Ran S A
  panics exits blocks : Core S → Ran S A

abbrev pub Step : Type 0 → Type 0 → Type 0
Step S A = Core S → Ran S A

module _ {S A : Type 0} where
  abbrev pub pure : A → Step S A
  pure a c = done c a

  abbrev pub panic : Step S A
  panic c = panics c

  abbrev pub exit : Step S A
  exit c = exits c

  abbrev pub block : Step S A
  block c = blocks c

infixl 5 ◌>>=◌ ◌>>◌
abbrev pub ◌>>=◌ : {S A B : Type 0} → Step S A → (A → Step S B) → Step S B
◌>>=◌ m f c = elim (m c) [
  | done c' a ↦ f a c'
  | panics c' ↦ panics c'
  | exits c' ↦ exits c'
  | blocks c' ↦ blocks c'
]

abbrev pub ◌>>◌ : {S A B : Type 0} → Step S A → Step S B → Step S B
m >> k = m >>= λ _. k

-- A call of the metadata manager.
abbrev pub metadata : {S A : Type 0} → Action S A → Step S A
metadata m c = elim (m c.zk) [
  | returned s a ↦ done (record c { zk = s }) a
  | panicked s ↦ panics (record c { zk = s })
]

-- Whether the driver takes the status update after so many: SendStatusUpdate's error is a panic.
abbrev pub Master : Type 0
Master = ℕ → Bool

-- SendStatusUpdate of the driver that a callback is given.
unfoldable pub send_status : {S : Type 0} → Master → Update → Step S (Unit {0})
send_status master u c =
    if master (length c.sent) then done (record c { sent = c.sent ++ u ∷ [] }) tt else panics c

-- The same of the field Driver, which may be nil.
unfoldable pub send_by_driver : {S : Type 0} → Master → Update → Step S (Unit {0})
unfolding send_status
send_by_driver master u c = if c.driver then send_status master u c else panics c
