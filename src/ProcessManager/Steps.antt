-- ===== src/ProcessManager/Steps.antt =====
-- The steps of a process manager (process_manager/manager.go), and what holds in each of its phases.
use riak_mesos_legacy.Base.{ℕ, suc, ◌+◌, ◌≡◌, Bool, true, false, [], Option, none, some, All}
use riak_mesos_legacy.Base.Int.{ℤ}
use riak_mesos_legacy.ProcessManager.{
  Listener, starting, in_background, ended, stuck, Manager, new_manager, Kernel, Event, subscribe,
  signal, teardown, exited, second, round, queued, listen, tear_down,
}

-- A process whose exit status is received takes no signal: it is gone, and its number is not that of
-- another process yet.
abbrev pub IsKernel : Kernel → Event → Type 0
IsKernel k (exited status) = k.alive ≡ false
IsKernel k signal = Unit {0}
IsKernel k subscribe = Unit {0}
IsKernel k teardown = Unit {0}
IsKernel k (second healthy) = Unit {0}

-- What a number of rounds leads to. Clients listen and tear down once they have the manager.
pub data Reach : ℕ → Manager → Type 0 where
  begins : Reach 0 new_manager
  turns :
      {n : ℕ} {pm pm' : Manager} (k : Kernel) (e : Event)
      → Reach n pm
      → IsKernel k e
      → round k e pm ≡ some pm'
      → Reach (suc n) pm'
  listens :
      {n : ℕ} {pm pm' : Manager} (id : ℕ)
      → Reach n pm
      → pm.answered ≡ some true
      → listen id pm ≡ queued pm'
      → Reach n pm'
  tears_down :
      {n : ℕ} {pm pm' : Manager} (reply : ℕ)
      → Reach n pm
      → pm.answered ≡ some true
      → tear_down reply pm ≡ queued pm'
      → Reach n pm'

abbrev pub Holds : Option ℤ → Listener → Type 0
Holds w l = l.held ≡ w

-- It has ended, NewProcessManager was answered, and all listeners that were taken up were told the
-- same status.
pub record HasEnded (pm : Manager) : Type 0 where
  pub over : pm.phase ≡ ended
  pub answer : Bool
  pub is_answered : pm.answered ≡ some answer
  pub status : ℤ
  pub all_told : All (Holds (some status)) pm.subscriptions

-- It waits for ever in killProcess for a status that does not come: NewProcessManager may not have been
-- answered, but all listeners that were taken up were told the same status.
pub record IsStuck (pm : Manager) : Type 0 where
  pub waits : pm.phase ≡ stuck
  pub status : ℤ
  pub all_told : All (Holds (some status)) pm.subscriptions

-- In the start: the rounds add up, and nobody has the manager.
pub record IsStarting (n left : ℕ) (pm : Manager) : Type 0 where
  pub is_start : pm.phase ≡ starting (suc left)
  pub rounds_left : n + suc left ≡ 60
  pub unanswered : pm.answered ≡ none
  pub nobody : pm.listening ≡ []
  pub no_teardown : pm.tearing ≡ []
  pub no_listeners : pm.subscriptions ≡ []
  pub running : pm.reaped ≡ false

-- In the background: the caller has the manager, and no listener was told anything.
pub record IsBackground (pm : Manager) : Type 0 where
  pub is_background : pm.phase ≡ in_background
  pub is_given : pm.answered ≡ some true
  pub none_told : All (Holds none) pm.subscriptions
  pub still_running : pm.reaped ≡ false

pub data IsValid (n : ℕ) (pm : Manager) : Type 0 where
  in_start : (left : ℕ) → IsStarting n left pm → IsValid n pm
  in_between : IsBackground pm → IsValid n pm
  at_end : HasEnded pm → IsValid n pm
  in_kill : IsStuck pm → IsValid n pm

-- It has ended, or it waits for ever.
pub data IsOver (pm : Manager) : Type 0 where
  has_ended : HasEnded pm → IsOver pm
  is_stuck : IsStuck pm → IsOver pm

pub IsOver-IsValid : {n : ℕ} {pm : Manager} → IsOver pm → IsValid n pm
IsOver-IsValid (has_ended o) = at_end o
IsOver-IsValid (is_stuck s) = in_kill s
