-- ===== src/Scheduler/Node.antt =====
-- scheduler/node.go: a Riak node as the scheduler sees it. A method that mutates its receiver
-- returns the new node; `none` is a panic.
pub mod Offers
pub mod Launch
pub mod Identity
use riak_mesos_legacy.Base.{
  ℕ, suc, ◌+◌, Bool, true, false, not, ◌&&◌, ◌||◌, List, [], ◌∷◌, ◌++◌, Option, none, some, leb,
  if◌then◌else◌, get_or,
}
use riak_mesos_legacy.Base.Int.{ℤ, pos, ◌+ℤ◌}
use riak_mesos_legacy.Base.Opt.{◌>>=◌}
use riak_mesos_legacy.Base.Text.{Text, codes, text_eq, itoa}
use riak_mesos_legacy.Mesos.{
  Resource, TaskState, task_error, TaskStatus, TaskInfo, Offer, MesosUtil,
}
use riak_mesos_legacy.Common.Ranges.{port_iterator}
use riak_mesos_legacy.Common.Offer.{
  OfferHelper, Ask, Owner, can_fit_reserved, can_fit_unreserved, apply_reserved, apply_unreserved,
  make_reservation, make_volume,
}
use riak_mesos_legacy.Scheduler.ProcessState.{
  ProcessState, unknown, reserved, starting, started, shutting_down, shutdown, failed, restarting,
  is, at_most,
}
use riak_mesos_legacy.Scheduler.Config.{TaskData, Config, Outside}

-- CPUS_PER_EXECUTOR, in thousandths.
abbrev pub cpus_per_executor : ℤ
cpus_per_executor = pos 100

-- MEM_PER_EXECUTOR, in thousandths.
abbrev pub mem_per_executor : ℤ
mem_per_executor = pos 32000

abbrev pub ports_per_task : ℕ
ports_per_task = 10

-- FrameworkRiakNode. Times are nanoseconds, 0 the zero time. The pointers to role and principal
-- are never nil.
pub record Node : Type 0 where
  pub reconciled : Bool
  pub last_asked_to_reconcile : ℕ
  pub simple_id : ℕ
  pub destination_state : ProcessState
  pub current_state : ProcessState
  pub task_status : Option TaskStatus
  pub generation : ℕ
  pub slave_id : Option Text
  pub hostname : Text
  pub task_data : TaskData
  pub framework_name : Text
  pub cluster_name : Text
  pub role : Text
  pub principal : Text
  pub cpus : ℤ
  pub mem : ℤ
  pub disk : ℤ
  pub ports : ℕ
  pub uuid : Text
  pub container_path : Text
  pub restart_generation : ℕ

-- `common.TaskData{}`.
abbrev pub empty_task_data : TaskData
empty_task_data = record {
  fully_qualified_node_name = [];
  zookeepers = [];
  framework_name = [];
  cluster_name = [];
  uri = [];
  host = [];
  use_super_chroot = false;
  http_port = 0;
  pb_port = 0;
  handoff_port = 0;
  disterl_port = 0;
}

-- `uuid` is the fresh `uuid.NewV4().String()`. A setting that is no number panics.
unfoldable pub new_framework_riak_node : Config → Outside → Text → Text → ℕ → ℕ → Option Node
new_framework_riak_node sc out uuid cluster_name restart_generation simple_id = do
  cpus ← out.parse_amount sc.node_cpus
  mem ← out.parse_amount sc.node_mem
  disk ← out.parse_amount sc.node_disk
  some (record {
    reconciled = false;
    last_asked_to_reconcile = 0;
    simple_id = simple_id;
    destination_state = started;
    current_state = unknown;
    task_status = none;
    generation = 0;
    slave_id = none;
    hostname = [];
    task_data = empty_task_data;
    framework_name = sc.framework_name;
    cluster_name = cluster_name;
    role = sc.framework_role;
    principal = sc.mesos_auth_principal;
    cpus = cpus;
    mem = mem;
    disk = disk;
    ports = ports_per_task;
    uuid = uuid;
    container_path = codes "root";
    restart_generation = restart_generation;
  })

-- Values.

-- `fmt.Sprintf("%s-%s-%d", FrameworkName, ClusterName, SimpleId)`.
unfoldable pub current_id : Node → Text
current_id n =
    n.framework_name ++ (codes "-" ++ (n.cluster_name ++ (codes "-" ++ itoa n.simple_id)))

unfoldable pub name : Node → Text
name n = n.framework_name ++ (codes "-" ++ n.cluster_name)

unfoldable pub executor_id : Node → Text
executor_id n =
    n.framework_name
    ++ (codes "-"
        ++ (n.cluster_name ++ (codes "-" ++ (n.uuid ++ (codes "-" ++ itoa n.generation)))))

abbrev pub persistence_id : Node → Text
persistence_id n = n.uuid

-- State: getters.

unfoldable pub has_requested_reservation : Node → Bool
has_requested_reservation n = at_most reserved n.current_state

unfoldable pub needs_to_be_reconciled : Node → Bool
needs_to_be_reconciled n =
    not n.reconciled && not (is n.current_state unknown) && not (is n.current_state reserved)

-- The nested switches over the destination and the current state.
unfoldable pub schedulable : ProcessState → ProcessState → Bool
schedulable restarting unknown = true
schedulable restarting reserved = true
schedulable restarting shutdown = true
schedulable restarting failed = true
schedulable started unknown = true
schedulable started reserved = true
schedulable started failed = true
schedulable _ _ = false

unfoldable pub can_be_scheduled : Node → Bool
unfolding schedulable needs_to_be_reconciled
can_be_scheduled n =
    if needs_to_be_reconciled n then false else schedulable n.destination_state n.current_state

unfoldable pub can_be_killed : Node → Bool
can_be_killed n =
    is n.destination_state shutdown && (is n.current_state starting || is n.current_state started)

unfoldable pub can_be_removed : Node → Bool
can_be_removed n = is n.destination_state shutdown && not (is n.current_state started)

unfoldable pub can_join_cluster : Node → Bool
can_join_cluster n = is n.current_state starting && is n.destination_state started

-- CanBeJoined, and CanBeLeft, which calls it.
unfoldable pub can_be_joined : Node → Bool
can_be_joined n = is n.current_state started && is n.destination_state started

unfoldable pub has_restarted : ℕ → Node → Bool
has_restarted generation n =
    is n.destination_state started
    && is n.current_state started
    && leb generation n.restart_generation

unfoldable pub is_restarting : ℕ → Node → Bool
is_restarting generation n =
    (is n.destination_state started || is n.destination_state restarting)
    && not (is n.current_state started)
    && leb generation n.restart_generation

-- The status to ask the master about. Its slave id is left empty.
unfoldable pub get_task_status : Node → Option TaskStatus
get_task_status n = elim n.task_status [
  | some ts ↦ some (record ts { slave_id = some [] })
  | none ↦
      if at_most n.current_state reserved
      then none
      else some (record { task_id = current_id n; state = task_error; slave_id = some [] })
]

-- State: setters.

unfoldable pub restart : ℕ → Node → Node
restart generation n = record n { restart_generation = generation; destination_state = restarting }

unfoldable pub unreserve : Node → Node
unreserve n = record n { current_state = unknown; slave_id = none }

unfoldable pub kill_next : Node → Node
kill_next n = record n { destination_state = shutdown }

-- Start, and Stage, which calls it.
unfoldable pub start : Node → Node
start n = record n { current_state = starting; destination_state = started }

unfoldable pub run : Node → Node
run n = record n { current_state = started; destination_state = started }

unfoldable pub finish : Node → Node
finish n = record n { current_state = shutdown }

unfoldable pub kill : Node → Node
kill n = record n { current_state = shutdown }

-- Error, and Fail and Lost, which call it.
unfoldable pub error : Node → Node
error n = record n { current_state = failed }

-- Resources.

-- What the node and its executor ask of an offer.
abbrev pub executor_ask : Ask
executor_ask = record { cpus = cpus_per_executor; mem = mem_per_executor; disk = pos 0; ports = 0 }

abbrev pub node_ask : Node → ℕ → Ask
node_ask n ports = record { cpus = n.cpus; mem = n.mem; disk = n.disk; ports = ports }

abbrev pub whole_ask : Node → Ask
whole_ask n = record {
  cpus = n.cpus +ℤ cpus_per_executor;
  mem = n.mem +ℤ mem_per_executor;
  disk = n.disk;
  ports = n.ports;
}

abbrev pub ports_ask_of : Node → Ask
ports_ask_of n = record { cpus = pos 0; mem = pos 0; disk = pos 0; ports = n.ports }

abbrev pub owner : Node → Owner
owner n = record {
  principal = n.principal;
  role = n.role;
  persistence_id = persistence_id n;
  container_path = n.container_path;
}

-- Reserves the node's resources and creates its volume. The Boolean is the method's result.
unfoldable pub apply_unreserved_offer :
    Outside → Node → OfferHelper → Option (Node × OfferHelper × Bool)
apply_unreserved_offer out n h =
    if not (can_fit_unreserved h (whole_ask n)) then some (n, h, false) else do
      r ← apply_unreserved out.util out.intn h (record executor_ask { ports = n.ports })
      h' ← make_reservation out.util out.intn r.0 (node_ask n 0) n.principal n.role
      h'' ← make_volume out.util out.intn h' n.disk (owner n)
      some (
        record n {
          slave_id = h.mesos_offer.slave_id;
          hostname = h.mesos_offer.hostname;
          current_state = reserved;
        },
        h'',
        true,
      )

-- The asks of ApplyReservedOffer: `none` inside where the offer does not fit.
unfoldable pub take_asks :
    Config
    → Outside
    → Node
    → OfferHelper
    → Option (Option (OfferHelper × List Resource × List Resource))
take_asks sc out n h =
    if sc.compatibility_mode
    then (if not (can_fit_unreserved h (whole_ask n)) then some none else do
      task ← apply_unreserved out.util out.intn h (node_ask n n.ports)
      exec ← apply_unreserved out.util out.intn task.0 executor_ask
      some (some (exec.0, task.1, exec.1)))
    else (if not (can_fit_reserved h (node_ask n 0))
          || not (can_fit_unreserved h (record executor_ask { ports = n.ports }))
        then some none
        else do
          task ← apply_reserved out.util out.intn h (node_ask n 0) (owner n)
          ports ← apply_unreserved out.util out.intn task.0 (ports_ask_of n)
          exec ← apply_unreserved out.util out.intn ports.0 executor_ask
          some (some (exec.0, task.1 ++ ports.1, exec.1)))

-- `strings.Contains(s, ".")`.
contains_dot : Text → Bool
contains_dot [] = false
contains_dot (c ∷ s) = if text_eq (c ∷ []) (codes ".") then true else contains_dot s

nodename : Node → Text
unfolding contains_dot
nodename n =
    let name = current_id n ++ (codes "@" ++ n.hostname) in
    if not (contains_dot n.hostname) then name ++ codes "." else name

-- A receive from the closed channel gives 0, so a task with fewer ports gets port 0.
pub make_task_data : Config → Node → List ℕ → TaskData
unfolding nodename
make_task_data sc n ports = record {
  fully_qualified_node_name = nodename n;
  zookeepers = sc.zookeepers;
  framework_name = sc.framework_name;
  cluster_name = n.cluster_name;
  uri = sc.uri;
  host = n.hostname;
  use_super_chroot = not (text_eq sc.use_super_chroot (codes "false"));
  http_port = get_or ports 0 0;
  pb_port = get_or ports 1 0;
  handoff_port = 0;
  disterl_port = get_or ports 2 0;
}

unfoldable pub make_task_info : Config → Outside → Node → List Resource → List Resource → TaskInfo
make_task_info sc out n task_ask exec_ask = record {
  name = name n;
  task_id = current_id n;
  slave_id = n.slave_id;
  executor = record {
    executor_id = executor_id n;
    name = current_id n ++ codes " Executor";
    source = n.framework_name;
    value = sc.executor_value;
    uris = (sc.host_uri, false) ∷ (sc.riak_uri, false) ∷ (sc.cepmd_uri, true) ∷ [];
    shell = sc.executor_shell;
    arguments = sc.executor_args (current_id n);
    resources = exec_ask;
  };
  resources = task_ask;
  task_data = out.marshal n.task_data;
}

-- The node as it is launched on the offer's slave.
abbrev pub launched : Node → Offer → Node
launched n offer = record n {
  slave_id = offer.slave_id;
  hostname = offer.hostname;
  generation = n.generation + 1;
  task_status = none;
  current_state = starting;
}

-- Launches the node's task on the offer, if its resources are there.
unfoldable pub apply_reserved_offer :
    Config → Outside → Node → OfferHelper → Option (Node × OfferHelper × Bool)
unfolding take_asks make_task_data make_task_info
apply_reserved_offer sc out n h = take_asks sc out n h >>= λ asks. elim asks [
  | none ↦ some (n, h, false)
  | some (h', task_ask, exec_ask) ↦ do
    ports ← port_iterator out.util task_ask
    let n' = launched n h.mesos_offer
    let n'' = record n' { task_data = make_task_data sc n' ports }
    some (
      n'',
      record h' {
        tasks_to_launch = h'.tasks_to_launch ++ make_task_info sc out n'' task_ask exec_ask ∷ [];
      },
      true,
    )
]
