-- ===== src/Scheduler/Start.antt =====
-- How the scheduler starts: NewSchedulerCore and Run of scheduler/scheduler.go, the addresses of
-- ServeExecutorArtifact of scheduler/server.go, and the variants scheduler/executor_golang.go and
-- scheduler/executor_erlang.go.
pub mod Identity
use riak_mesos_legacy.Base.{
  ℕ, Bool, true, false, not, ◌&&◌, List, [], ◌∷◌, ◌++◌, Option, none, some, if◌then◌else◌, is_empty,
}
use riak_mesos_legacy.Base.Opt.{◌>>=◌}
use riak_mesos_legacy.Base.Text.{Text, codes, itoa}
use riak_mesos_legacy.Scheduler.Config.{Config}
use riak_mesos_legacy.Scheduler.Core.{SchedulerState}

-- The arguments of NewSchedulerCore.
pub record Settings : Type 0 where
  pub scheduler_hostname : Text
  pub framework_name : Text
  pub framework_role : Text
  pub zookeepers : List Text
  pub scheduler_ip_addr : Text
  pub user : Text
  pub node_cpus : Text
  pub node_mem : Text
  pub node_disk : Text
  pub auth_provider : Text
  pub mesos_auth_principal : Text
  pub mesos_auth_secret_file : Text
  pub use_reservations : Bool

-- The machine: the name of the host, the port that is listened on, the variable USE_SUPER_CHROOT, a
-- file's content, and the addresses of a name; `none` for an error.
pub record Machine : Type 0 where
  pub hostname : Option Text
  pub port : Option ℕ
  pub use_super_chroot : Text
  pub read_file : Text → Option Text
  pub lookup_ip : Text → Option (List Text)

-- The build tag.
pub data Variant : Type 0 where
  golang erlang : Variant

unfoldable pub executor_value : Variant → Text
executor_value golang = codes "./executor_linux_amd64"
executor_value erlang = codes "./riak_mesos_executor/bin/ermf-executor"

unfoldable pub executor_shell : Variant → Bool
executor_shell golang = false
executor_shell erlang = true

unfoldable pub executor_args : Variant → Text → List Text
unfolding executor_value
executor_args golang current_id =
    executor_value golang ∷ codes "-logtostderr=true" ∷ codes "-taskinfo" ∷ current_id ∷ []
executor_args erlang current_id = []

-- `http://%s:%d` and what comes after it.
abbrev served : Text → ℕ → Text → Text
served host port rest = codes "http://" ++ (host ++ (codes ":" ++ (itoa port ++ rest)))

-- The name that the scheduler is reached by.
unfoldable pub host_of : Machine → Settings → Option Text
host_of machine settings =
    if is_empty settings.scheduler_hostname
    then machine.hostname
    else some settings.scheduler_hostname

-- NewSchedulerCore and ServeExecutorArtifact: what does not change afterwards. `none` is log.Fatal.
unfoldable pub new_scheduler_core : Variant → Machine → Settings → Option Config
unfolding host_of executor_value executor_shell executor_args
new_scheduler_core variant machine settings = do
  port ← machine.port
  host ← host_of machine settings
  some (record {
    zookeepers = settings.zookeepers;
    framework_name = settings.framework_name;
    framework_role = settings.framework_role;
    mesos_auth_principal = settings.mesos_auth_principal;
    node_cpus = settings.node_cpus;
    node_mem = settings.node_mem;
    node_disk = settings.node_disk;
    compatibility_mode = not settings.use_reservations;
    host_uri = served host port (codes "/static/riak_mesos_executor.tar.gz");
    riak_uri = served host port (codes "/static/riak-bin.tar.gz");
    cepmd_uri = served host port (codes "/static/cepmd_linux_amd64");
    uri = served host port [];
    use_super_chroot = machine.use_super_chroot;
    executor_value = executor_value variant;
    executor_shell = executor_shell variant;
    executor_args = executor_args variant;
  })

-- parseIP: the first address; `none` is log.Fatal.
unfoldable pub parse_ip : Machine → Text → Option Text
parse_ip machine address = elim (machine.lookup_ip address) [
  | none ↦ none
  | some found ↦ elim found [ [] ↦ none | first ∷ rest ↦ some first ]
]

-- mesos.FrameworkInfo, with the timeout in seconds.
pub record FrameworkInfo : Type 0 where
  pub name : Text
  pub id : Option Text
  pub failover_timeout : ℕ
  pub webui_url : Text
  pub checkpoint : Bool
  pub role : Text
  pub user : Text
  pub principal : Option Text

pub record Credential : Type 0 where
  pub principal : Text
  pub secret : Text

-- sched.DriverConfig, with the login provider and its binding address for WithAuthContext.
pub record DriverConfig : Type 0 where
  pub framework : FrameworkInfo
  pub master : Text
  pub credential : Option Credential
  pub hostname_override : Text
  pub binding_address : Option Text
  pub login : Option (Text × Option Text)

-- The secret is read where there is a file and a principal.
unfoldable pub credential_of : Machine → Settings → Option (Option Credential)
credential_of machine settings =
    let secret = machine.read_file settings.mesos_auth_secret_file in
    if not (is_empty settings.mesos_auth_secret_file)
      && not (is_empty settings.mesos_auth_principal)
    then (secret >>= λ text.
        some (some (record { principal = settings.mesos_auth_principal; secret = text })))
    else some none

unfoldable pub binding_of : Machine → Settings → Option (Option Text)
unfolding parse_ip
binding_of machine settings =
    let ip = parse_ip machine settings.scheduler_ip_addr in
    if is_empty settings.scheduler_ip_addr then some none else (ip >>= λ a. some (some a))

-- Run up to the driver that it makes. `none` is log.Fatal.
unfoldable pub run : Machine → Settings → Config → SchedulerState → Text → Option DriverConfig
unfolding credential_of binding_of
run machine settings sc state mesos_master = do
  credential ← credential_of machine settings
  hostname ← machine.hostname
  binding ← binding_of machine settings
  let principal = settings.mesos_auth_principal
  some (record {
    framework = record {
      name = sc.framework_name;
      id = state.framework_id;
      failover_timeout = 86400;
      webui_url = sc.uri;
      checkpoint = true;
      role = sc.framework_role;
      user = if is_empty settings.user then codes "guest" else settings.user;
      principal = if is_empty principal then none else some principal;
    };
    master = mesos_master;
    credential = credential;
    hostname_override = hostname;
    binding_address = binding;
    login =
        if not (is_empty settings.auth_provider) && not (is_empty principal)
        then some (settings.auth_provider, binding)
        else none;
  })
