-- ===== src/Executor/Callbacks/Alive.antt =====
-- What stops Riak (executor/executor.go).
use riak_mesos_legacy.Base.{
  if◌then◌else◌, replicate, ◌-◌, ◌++◌, ℕ, ◌+◌, ◌%◌, ◌^◌, ◌≡◌, Bool, true, false, Bool-cases, inl,
  inr, List, [], Option, none, some, length, leb,
}
use riak_mesos_legacy.Base.Text.{Text, codes, text_eq}
use riak_mesos_legacy.Scheduler.Config.{TaskData}
use riak_mesos_legacy.Metadata.Zookeeper.{Zk}
use riak_mesos_legacy.Mesos.{task_starting, task_killed, task_running}
use riak_mesos_legacy.Executor.{
  ◌>>◌, block, pm_up, RiakNode, Update, Core, Ran, done, panics, exits, blocks, Step, ◌>>=◌, Master,
  send_status, send_by_driver,
}
use riak_mesos_legacy.Executor.Coordination.{CoordinatedData}
use riak_mesos_legacy.Executor.Node.{Site, finish, next, uvarint, set_node, send_generation, run}
use riak_mesos_legacy.Executor.Callbacks.{
  new_riak_node, set_driver, reregistered, launch_task, kill_task, framework_message, shutdown,
  sigusr1, sigusr2, Callback, reregisters, kills, shuts_down, launches, sends_message, signals,
  handle,
}

-- The core that an outcome leaves.
abbrev pub core_of : {S A : Type 0} → Ran S A → Core S
core_of (done c a) = c
core_of (panics c) = c
core_of (exits c) = c
core_of (blocks c) = c

-- There is a node, and its process manager is up.
abbrev pub IsUpNode : Option RiakNode → Type 0
IsUpNode none = ⊥
IsUpNode (some n) = n.pm ≡ some pm_up

abbrev pub IsUp : {S : Type 0} → Core S → Type 0
IsUp c = IsUpNode c.riak_node

-- Where the call returns, or waits for ever, the process manager is up; it may also end the executor.
abbrev pub StaysUp : {S A : Type 0} → Ran S A → Type 0
StaysUp (done c a) = IsUp c
StaysUp (panics c) = Unit
StaysUp (exits c) = Unit
StaysUp (blocks c) = IsUp c

module _ {S A B : Type 0} where
  then-StaysUp :
      (r : Ran S A) (f : A → Step S B)
      → StaysUp r
      → ((c : Core S) (a : A) → IsUp c → StaysUp (f a c))
      → StaysUp (elim r as (λ _. Ran S B) [
        | done c a ↦ f a c
        | panics c ↦ panics c
        | exits c ↦ exits c
        | blocks c ↦ blocks c
      ])
  then-StaysUp (done c a) f h k = k c a h
  then-StaysUp (panics c) f h k = tt
  then-StaysUp (exits c) f h k = tt
  then-StaysUp (blocks c) f h k = h

  >>=-StaysUp :
      (m : Step S A) (f : A → Step S B) (c : Core S)
      → StaysUp (m c)
      → ((c' : Core S) (a : A) → IsUp c' → StaysUp (f a c'))
      → StaysUp ((m >>= f) c)
  >>=-StaysUp m f c h k = then-StaysUp (m c) f h k

guard-StaysUp :
    {S A : Type 0} (b : Bool) (r : Ran S A) (c : Core S)
    → StaysUp r
    → IsUp c
    → StaysUp (if b then r else panics c)
guard-StaysUp true r c h g = h
guard-StaysUp false r c h g = tt

node-StaysUp :
    {S A : Type 0} (o : Option RiakNode) (f : RiakNode → Step S A) (c : Core S)
    → IsUpNode o
    → ((n : RiakNode) → n.pm ≡ some pm_up → StaysUp (f n c))
    → StaysUp (elim o as (λ _. Ran S A) [ none ↦ panics c | some n ↦ f n c ])
node-StaysUp none f c h k = absurd h
node-StaysUp (some n) f c h k = k n h

exits_again :
    {S A : Type 0} (o : Option RiakNode) (f : Step S A) (c : Core S)
    → IsUpNode o
    → IsUp c
    → StaysUp (elim o as (λ _. Ran S A) [ some n ↦ exits c | none ↦ f c ])
exits_again none f c h g = absurd h
exits_again (some n) f c h g = tt

module _ {S : Type 0} (master : Master) (u : Update) (c : Core S) (h : IsUp c) where
  send_status-StaysUp : StaysUp (send_status master u c)
  unfolding send_status
  send_status-StaysUp = elim (Bool-cases (master (length c.sent))) [
    | inl taken ↦ rw taken h
    | inr lost ↦ rw lost tt
  ]

  send_by_driver-StaysUp : StaysUp (send_by_driver master u c)
  unfolding send_by_driver
  send_by_driver-StaysUp = guard-StaysUp c.driver (send_status master u c) c send_status-StaysUp h

module _ (z : Zk) (master : Master) (serialize : CoordinatedData → Text) (status_data : ℕ → List ℕ)
    (deserialize : List ℕ → Option TaskData) where
  open z use {State}

  abbrev pub is_finish : Callback z master serialize status_data deserialize → Bool
  is_finish (sends_message msg) = text_eq msg (codes "finish")
  is_finish reregisters = false
  is_finish kills = false
  is_finish shuts_down = false
  is_finish (launches site task_id task_bytes) = false
  is_finish (signals s) = false

  finish-StaysUp : (c : Core State) → IsUp c → StaysUp (finish z master serialize status_data c)
  unfolding finish
  finish-StaysUp c h = node-StaysUp c.riak_node (λ n. block) c h λ n u. h

  kill_task-StaysUp :
      (c : Core State) → IsUp c → StaysUp (kill_task z master serialize status_data deserialize c)
  unfolding kill_task
  kill_task-StaysUp c h =
      node-StaysUp c.riak_node
        (λ n.
          send_status master (record { state = task_killed; data_sent = [] })
          >> finish z master serialize status_data)
        c h
        λ n u.
          >>=-StaysUp (send_status master (record { state = task_killed; data_sent = [] })) _ c
            (send_status-StaysUp master _ c h) λ c' _ g. finish-StaysUp c' g

  launch_task-StaysUp :
      (site : Site) (task_id : Text) (task_bytes : List ℕ) (c : Core State)
      → IsUp c
      → StaysUp (launch_task z master serialize status_data deserialize site task_id task_bytes c)
  unfolding launch_task
  launch_task-StaysUp site task_id task_bytes c h =
      >>=-StaysUp (send_status master (record { state = task_starting; data_sent = [] })) _ c
        (send_status-StaysUp master _ c h)
        λ c' _ g.
          exits_again c'.riak_node
            (new_riak_node z master serialize status_data deserialize task_id task_bytes >>= λ n.
              set_node n >> run z master serialize status_data site n)
            c' g g

  send_generation-StaysUp :
      (c : Core State) (n : RiakNode)
      → IsUp c
      → n.pm ≡ some pm_up
      → StaysUp (send_generation z master serialize status_data n c)
  unfolding send_generation set_node
  send_generation-StaysUp c n h u = elim (Bool-cases (leb (length (uvarint 10 n.generation)) 4)) [
    | inr long ↦ rw long tt
    | inl short ↦ rw short (
        >>=-StaysUp
          (send_by_driver master (record {
            state = task_running;
            data_sent =
                uvarint 10 n.generation ++ replicate (4 - length (uvarint 10 n.generation)) 0;
          }))
          (λ _. set_node (record n { generation = (n.generation + 1) % 2 ^ 64 })) c
          (send_by_driver-StaysUp master _ c h) λ c' _ g. u)
  ]

  next-StaysUp : (c : Core State) → IsUp c → StaysUp (next z master serialize status_data c)
  unfolding next
  next-StaysUp c h =
      node-StaysUp c.riak_node (send_generation z master serialize status_data) c h
        λ n u. send_generation-StaysUp c n h u

  -- Where the process manager of a node is up, a callback of the driver or a SIGUSR1 or SIGUSR2, other
  -- than a finish message, leaves it up where it returns or waits for ever; it may also end the
  -- executor. KillTask is one of those callbacks. SIGTERM and SIGINT, which the process manager takes
  -- itself, are not among the signals.
  pub handle-StaysUp :
      (b : Callback z master serialize status_data deserialize) (c : Core State)
      → is_finish b ≡ false
      → IsUp c
      → StaysUp (handle z master serialize status_data deserialize b c)
  unfolding handle reregistered set_driver shutdown
  handle-StaysUp reregisters c f h = h
  handle-StaysUp shuts_down c f h = tt
  handle-StaysUp kills c f h = kill_task-StaysUp c h
  handle-StaysUp (launches site task_id task_bytes) c f h =
      launch_task-StaysUp site task_id task_bytes c h
  handle-StaysUp (sends_message msg) c f h = rw (framework_message, f) h
  handle-StaysUp (signals sigusr1) c f h = finish-StaysUp c h
  handle-StaysUp (signals sigusr2) c f h = next-StaysUp c h
