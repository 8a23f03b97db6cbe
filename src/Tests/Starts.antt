-- ===== src/Tests/Starts.antt =====
-- Witnesses: the start of a process on Linux.
use riak_mesos_legacy.Base.{◌≡◌, refl, true, [], ◌∷◌, ◌++◌, map, some}
use riak_mesos_legacy.Base.Text.{Text, codes, text_eq}
use riak_mesos_legacy.Base.Map.{Map}
use riak_mesos_legacy.Base.Split.{contains}
use riak_mesos_legacy.ProcessManager.Start.{
  Linux, open_files_limit, with_home, set_open_files_limit, start,
}
use riak_mesos_legacy.ProcessManager.Start.Environment.{render, start_lem, set_open_files_limit_lem}

abbrev environment : Map Text
environment = (codes "PATH", codes "/bin") ∷ (codes "HOME", codes "/root") ∷ []

abbrev linux : Linux
linux = record {
  environ = map render environment;
  home = codes "/root";
  wd = some (codes "/work");
  limits = record { cur = 1024; max = 4096 };
  reads_limits = true;
  setrlimit = λ limit. true;
  join_path = λ root path. root ++ (codes "/" ++ path);
  fork_exec = λ path args attributes. some 7;
}

start_lem_example :
    start linux (codes "riak") (codes "console" ∷ []) (some (codes "root"))
    ≡ some (7, (set_open_files_limit linux open_files_limit open_files_limit).0)
unfolding with_home text_eq contains
start_lem_example =
    start_lem linux (codes "riak") (codes "root") [] (codes "console" ∷ []) environment refl
      ((refl, refl), ((refl, refl), tt))

set_open_files_limit_lem_example :
    (set_open_files_limit linux 65536 65536).0 ≡ record { cur = 65536; max = 65536 }
unfolding set_open_files_limit
set_open_files_limit_lem_example = set_open_files_limit_lem linux 65536 65536
