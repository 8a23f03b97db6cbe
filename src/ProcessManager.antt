-- ===== src/ProcessManager.antt =====
-- process_manager/manager.go: one goroutine that starts a process, tells its listeners of its end, and
-- kills it when asked to. Each `select` of its two loops is a step, of what it picks; the clients put
-- what they send into the queues of its two channels.
pub mod Reaper
pub mod Steps
pub mod Endings
pub mod Rounds
pub mod Life
pub mod Start
use riak_mesos_legacy.Base.{
  ℕ, zero, suc, Bool, true, false, List, [], ◌∷◌, ◌++◌, Option, none, some, if◌then◌else◌, ltb,
  length,
}
use riak_mesos_legacy.Base.Int.{ℤ, negsuc}

-- A channel of one place, with the status it holds.
pub record Listener : Type 0 where
  pub id : ℕ
  pub held : Option ℤ

-- What the manager does to others, in order: the callback of teardown, the signals to the process, and
-- the answers to TearDown.
pub data Call : Type 0 where
  called_back sent_term sent_kill : Call
  replied : ℕ → Call

-- With the rounds that the start has left, or in the loop of `background`; ended, or waiting for ever
-- in killProcess for a status that was received before, or that does not come.
pub data Phase : Type 0 where
  starting : ℕ → Phase
  in_background ended stuck : Phase

pub record Manager : Type 0 where
  pub phase : Phase
  -- the queues of pm.subscribe and pm.teardown, of ten places
  pub listening : List ℕ
  pub tearing : List ℕ
  pub subscriptions : List Listener
  -- whether the status of the process was received
  pub reaped : Bool
  -- what NewProcessManager was answered: a manager, or an error
  pub answered : Option Bool
  pub calls : List Call

-- startProcessManager, once the process is started and subscribed.
abbrev pub new_manager : Manager
new_manager = record {
  phase = starting 60;
  listening = [];
  tearing = [];
  subscriptions = [];
  reaped = false;
  answered = none;
  calls = [];
}

-- When the status of the process comes to killProcess, which the reaper may also have missed: within
-- five seconds of SIGTERM, after SIGKILL, or never.
pub data Arrival : Type 0 where
  in_time late never : Arrival

-- What killProcess meets: whether the process takes signal 0, and when its status comes.
pub record Kernel : Type 0 where
  pub alive : Bool
  pub arrival : Arrival

unfoldable pub tell : ℤ → Listener → Listener
tell status l = elim l.held [ none ↦ record l { held = some status } | some old ↦ l ]

unfoldable pub tell_all : ℤ → List Listener → List Listener
unfolding tell
tell_all status [] = []
tell_all status (l ∷ ls) = tell status l ∷ tell_all status ls

unfoldable pub notify : ℤ → Manager → Manager
unfolding tell_all
notify status pm = record pm { subscriptions = tell_all status pm.subscriptions }

unfoldable pub log_call : Call → Manager → Manager
log_call c pm = record pm { calls = pm.calls ++ c ∷ [] }

-- The two waits of killProcess after SIGTERM, of which only the first has a limit, and what comes after
-- them.
unfoldable pub await_status : Arrival → (Manager → Manager) → Manager → Manager
unfolding log_call
await_status in_time next pm = next (record pm { reaped = true })
await_status late next pm = next (record (log_call sent_kill pm) { reaped = true })
await_status never next pm = record (log_call sent_kill pm) { phase = stuck }

-- killProcess, and what comes after it. A status that was received does not come again.
unfoldable pub kill_process : Kernel → (Manager → Manager) → Manager → Manager
unfolding log_call await_status
kill_process k next pm =
    if k.alive
    then await_status (if pm.reaped then never else k.arrival) next (log_call sent_term pm)
    else next pm

-- The deferred calls: the channels are closed, and so is that of an answer not given.
unfoldable pub finish : Manager → Manager
finish pm = record pm {
  phase = ended;
  answered = elim pm.answered [ none ↦ some false | some a ↦ some a ];
}

-- What a `select` picks: a listener, a signal to end, the process's exit status, a call of TearDown, or
-- that a second has passed, with whether the health check then finds no error.
pub data Event : Type 0 where
  subscribe signal teardown : Event
  exited : ℤ → Event
  second : Bool → Event

-- The end of a round of the start: the last one gives up.
unfoldable pub next_round : Kernel → ℕ → Manager → Manager
unfolding kill_process finish
next_round k zero pm = kill_process k finish pm
next_round k (suc left) pm = record pm { phase = starting (suc left) }

-- The end at a signal, at TearDown and at the exit of the process, in the two loops.
unfoldable pub end_exited : Kernel → ℤ → Manager → Manager
unfolding notify kill_process finish log_call
end_exited k status pm =
    kill_process k finish (log_call called_back (notify status (record pm { reaped = true })))

unfoldable pub end_teardown : Kernel → ℕ → Manager → Manager
unfolding notify kill_process finish log_call
end_teardown k reply pm =
    kill_process k (λ pm'. finish (log_call (replied reply) (log_call called_back pm')))
      (notify (negsuc 0) pm)

unfoldable pub end_signal_starting : Kernel → Manager → Manager
unfolding notify kill_process finish log_call
end_signal_starting k pm =
    kill_process k (λ pm'. finish (log_call called_back pm')) (notify (negsuc 0) pm)

unfoldable pub end_signal : Kernel → Manager → Manager
unfolding notify kill_process finish log_call
end_signal k pm = kill_process k finish (log_call called_back (notify (negsuc 0) pm))

-- Takes up the first listener in the queue.
unfoldable pub take_up : Manager → Option Manager
take_up pm = elim pm.listening [
  | [] ↦ none
  | l ∷ ls ↦ some (record pm {
    listening = ls;
    subscriptions = pm.subscriptions ++ record { id = l; held = none } ∷ [];
  })
]

unfoldable pub end_first_teardown : Kernel → Manager → Option Manager
unfolding end_teardown
end_first_teardown k pm = elim pm.tearing [
  | [] ↦ none
  | t ∷ ts ↦ some (end_teardown k t (record pm { tearing = ts }))
]

-- One round of the loop of startProcessManager, with the rounds left after it.
unfoldable pub start_round : Kernel → ℕ → Event → Manager → Option Manager
unfolding take_up end_signal_starting end_exited end_first_teardown next_round
start_round k left subscribe pm = elim (take_up pm) [
  | none ↦ none
  | some pm' ↦ some (next_round k left pm')
]
start_round k left signal pm = some (end_signal_starting k pm)
start_round k left (exited status) pm = some (end_exited k status pm)
start_round k left teardown pm = end_first_teardown k pm
start_round k left (second true) pm =
    some (record pm { answered = some true; phase = in_background })
start_round k left (second false) pm = some (next_round k left pm)

unfoldable pub background_round : Kernel → Event → Manager → Option Manager
unfolding take_up end_signal end_exited end_first_teardown
background_round k subscribe pm = take_up pm
background_round k signal pm = some (end_signal k pm)
background_round k (exited status) pm = some (end_exited k status pm)
background_round k teardown pm = end_first_teardown k pm
background_round k (second healthy) pm = none

-- The next step of the goroutine; `none` where the event is not one that it could pick.
round_in : Phase → Kernel → Event → Manager → Option Manager
unfolding start_round background_round
round_in (starting zero) k e pm = none
round_in (starting (suc left)) k e pm = start_round k left e pm
round_in in_background k e pm = background_round k e pm
round_in ended k e pm = none
round_in stuck k e pm = none

unfoldable pub round : Kernel → Event → Manager → Option Manager
unfolding round_in
round k e pm = round_in pm.phase k e pm

-- How a send ends: in the queue, or waiting for a place in it, or with the panic of a closed channel.
pub data Sent : Type 0 where
  queued : Manager → Sent
  blocks panics : Sent

abbrev is_ended : Phase → Bool
is_ended (starting left) = false
is_ended in_background = false
is_ended ended = true
is_ended stuck = false

unfoldable pub listen : ℕ → Manager → Sent
listen id pm =
    if is_ended pm.phase
    then panics
    else if ltb (length pm.listening) 10
    then queued (record pm { listening = pm.listening ++ id ∷ [] })
    else blocks

unfoldable pub tear_down : ℕ → Manager → Sent
tear_down reply pm =
    if is_ended pm.phase
    then panics
    else if ltb (length pm.tearing) 10
    then queued (record pm { tearing = pm.tearing ++ reply ∷ [] })
    else blocks
