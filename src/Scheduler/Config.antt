-- ===== src/Scheduler/Config.antt =====
-- What the handlers read of SchedulerCore and SchedulerHTTPServer (scheduler/scheduler.go and
-- server.go) and of code outside the repository. None of it changes while the scheduler runs.
use riak_mesos_legacy.Base.{ℕ, Bool, Option, List}
use riak_mesos_legacy.Base.Int.{ℤ}
use riak_mesos_legacy.Base.Text.{Text}
use riak_mesos_legacy.Mesos.{MesosUtil}
use riak_mesos_legacy.Common.Offer.{Intn}

-- common/structs.go.
pub record TaskData : Type 0 where
  pub fully_qualified_node_name : Text
  pub zookeepers : List Text
  pub framework_name : Text
  pub cluster_name : Text
  pub uri : Text
  pub host : Text
  pub use_super_chroot : Bool
  pub http_port : ℕ
  pub pb_port : ℕ
  pub handoff_port : ℕ
  pub disterl_port : ℕ

-- The fields of SchedulerCore, and of its HTTP server.
pub record Config : Type 0 where
  pub zookeepers : List Text
  pub framework_name : Text
  pub framework_role : Text
  pub mesos_auth_principal : Text
  pub node_cpus : Text
  pub node_mem : Text
  pub node_disk : Text
  pub compatibility_mode : Bool
  pub host_uri : Text
  pub riak_uri : Text
  pub cepmd_uri : Text
  pub uri : Text
  -- the environment variable USE_SUPER_CHROOT
  pub use_super_chroot : Text
  -- executor_golang.go or executor_erlang.go, as the build tag selects
  pub executor_value : Text
  pub executor_shell : Bool
  pub executor_args : Text → List Text

-- Code outside the repository. `parse_amount` reads a number as thousandths, `none` where
-- `strconv.ParseFloat` fails; `marshal` is `json.Marshal` of a task's data; `asset` is a file packed
-- into the binary, empty where it is missing.
pub record Outside : Type 0 where
  pub util : MesosUtil
  pub intn : Intn
  pub parse_amount : Text → Option ℤ
  pub marshal : TaskData → Text
  pub asset : Text → Text
