-- ===== src/ProcessManager/Reaper.antt =====
-- process_manager/manager_reaper.go: the goroutine that waits for every child process, and sends its
-- status to the channel subscribed for it.
pub mod Delivery
use riak_mesos_legacy.Base.{ℕ, Bool, List, [], ◌∷◌, Option, none, some, if◌then◌else◌, ◌==◌}
use riak_mesos_legacy.Base.Int.{ℤ}

-- A channel of one place.
pub data Channel : Type 0 where
  open_channel : Option ℤ → Channel
  closed_channel : Channel

-- The map of subscriptions, from the processes to their channels, and the channels, which the process
-- managers read and close.
pub record Reaper : Type 0 where
  pub subscriptions : ℕ → Option ℕ
  pub channels : ℕ → Channel

-- What the `select` of processManagerLoop picks; a SIGCHLD with what Wait4 answers.
pub data Wait : Type 0 where
  reaped : ℕ → ℤ → Wait
  wait_failed : Wait

pub data Request : Type 0 where
  subscribes : ℕ → ℕ → Request
  unsubscribes : ℕ → Request
  child_ended : Wait → Request

pub data Outcome : Type 0 where
  goes_on : Reaper → Outcome
  dies : Outcome

unfoldable pub update : {A : Type 0} → (ℕ → A) → ℕ → A → ℕ → A
update f k a n = if n == k then a else f n

-- The send to a channel that may be full; a send to a closed one panics.
unfoldable pub send : Reaper → ℕ → ℕ → ℤ → Outcome
unfolding update
send r pid c status = elim (r.channels c) [
  | closed_channel ↦ dies
  | open_channel held ↦ elim held [
    | none ↦ goes_on (record r { channels = update r.channels c (open_channel (some status)) })
    | some old ↦ goes_on (record r { subscriptions = update r.subscriptions pid none })
  ]
]

unfoldable pub handle_request : Request → Reaper → Outcome
unfolding send update
handle_request (subscribes pid c) r = elim (r.subscriptions pid) [
  | none ↦ goes_on (record r { subscriptions = update r.subscriptions pid (some c) })
  | some assigned ↦ dies
]
handle_request (unsubscribes pid) r =
    goes_on (record r { subscriptions = update r.subscriptions pid none })
handle_request (child_ended wait_failed) r = goes_on r
handle_request (child_ended (reaped pid status)) r = elim (r.subscriptions pid) [
  | none ↦ goes_on r
  | some c ↦ send r pid c status
]

unfoldable pub process_manager_loop : List Request → Reaper → Outcome
unfolding handle_request
process_manager_loop [] r = goes_on r
process_manager_loop (q ∷ qs) r = elim (handle_request q r) [
  | goes_on r' ↦ process_manager_loop qs r'
  | dies ↦ dies
]
