-- ===== src/Framework.antt =====
-- framework/framework.go: the program that starts the scheduler. The flags are given as they are
-- parsed; the file of the log is left out.
pub mod Names
use riak_mesos_legacy.Base.{
  ℕ, Bool, true, false, not, ◌&&◌, ◌||◌, leb, ◌==◌, List, [], ◌∷◌, Option, none, some,
  if◌then◌else◌,
}
use riak_mesos_legacy.Base.Opt.{◌>>=◌}
use riak_mesos_legacy.Base.Text.{Text, codes, text_eq}
use riak_mesos_legacy.Scheduler.Config.{Config}
use riak_mesos_legacy.Scheduler.Core.{SchedulerState}
use riak_mesos_legacy.Scheduler.Start.{
  Settings, Machine, Variant, DriverConfig, new_scheduler_core, run,
}

-- The flags.
pub record Flags : Type 0 where
  pub mesos_master : Text
  pub zookeeper_addr : Text
  pub scheduler_hostname : Text
  pub scheduler_ip_addr : Text
  pub user : Text
  pub framework_name : Text
  pub framework_role : Text
  pub node_cpus : Text
  pub node_mem : Text
  pub node_disk : Text
  pub auth_provider : Text
  pub mesos_auth_principal : Text
  pub mesos_auth_secret_file : Text
  pub use_reservations : Bool

-- The values of flags that are not given; `provider_name` is `sasl.ProviderName`.
abbrev pub default_flags : Text → Flags
default_flags provider_name = record {
  mesos_master = codes "zk://master.mesos:2181/mesos";
  zookeeper_addr = codes "master.mesos:2181";
  scheduler_hostname = [];
  scheduler_ip_addr = [];
  user = [];
  framework_name = codes "riak";
  framework_role = codes "*";
  node_cpus = codes "1.0";
  node_mem = codes "16000";
  node_disk = codes "20000";
  auth_provider = provider_name;
  mesos_auth_principal = [];
  mesos_auth_secret_file = [];
  use_reservations = false;
}

-- `[a-zA-Z]`, and `[a-zA-Z0-9-_]`.
abbrev pub is_letter : ℕ → Bool
is_letter c = leb b'a' c && leb c b'z' || leb b'A' c && leb c b'Z'

abbrev pub is_name_byte : ℕ → Bool
is_name_byte c = is_letter c || leb b'0' c && leb c b'9' || c == b'-' || c == b'_'

unfoldable pub longest_name : Text → Text
longest_name [] = []
longest_name (c ∷ s) = let rest = longest_name s in if is_name_byte c then c ∷ rest else []

-- `frameNameRegex.FindString`: the leftmost match, as long as it goes, and empty where there is none.
unfoldable pub find_name : Text → Text
unfolding longest_name
find_name [] = []
find_name (c ∷ s) = let later = find_name s in if is_letter c then c ∷ longest_name s else later

unfoldable pub name_is_valid : Text → Bool
unfolding find_name
name_is_valid name = text_eq (find_name name) name

abbrev pub settings_of : Flags → Settings
settings_of flags = record {
  scheduler_hostname = flags.scheduler_hostname;
  framework_name = flags.framework_name;
  framework_role = flags.framework_role;
  zookeepers = flags.zookeeper_addr ∷ [];
  scheduler_ip_addr = flags.scheduler_ip_addr;
  user = flags.user;
  node_cpus = flags.node_cpus;
  node_mem = flags.node_mem;
  node_disk = flags.node_disk;
  auth_provider = flags.auth_provider;
  mesos_auth_principal = flags.mesos_auth_principal;
  mesos_auth_secret_file = flags.mesos_auth_secret_file;
  use_reservations = flags.use_reservations;
}

-- main, with the state that is read from Zookeeper: the scheduler and the driver it runs. `none` is
-- log.Fatal.
unfoldable pub main : Variant → Machine → SchedulerState → Flags → Option (Config × DriverConfig)
unfolding name_is_valid new_scheduler_core run
main variant machine state flags =
    let started = (do
      sc ← new_scheduler_core variant machine (settings_of flags)
      driver ← run machine (settings_of flags) sc state flags.mesos_master
      some (sc, driver)) in
    if name_is_valid flags.framework_name then started else none
