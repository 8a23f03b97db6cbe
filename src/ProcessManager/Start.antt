-- ===== src/ProcessManager/Start.antt =====
-- process_manager/manager_linux.go: how the process is started on Linux.
pub mod Environment
use riak_mesos_legacy.Base.{
  ℕ, Bool, true, false, not, ◌||◌, List, [], ◌∷◌, ◌++◌, Option, none, some, ltb, if◌then◌else◌,
}
use riak_mesos_legacy.Base.Opt.{◌>>=◌}
use riak_mesos_legacy.Base.Text.{Text, codes, text_eq}
use riak_mesos_legacy.Base.Split.{split, join}

-- syscall.Rlimit.
pub record Rlimit : Type 0 where
  pub cur : ℕ
  pub max : ℕ

-- syscall.ProcAttr without its files, which are those of the program itself.
pub record ProcAttr : Type 0 where
  pub setpgid : Bool
  pub dir : Text
  pub env : List Text

-- The system: the environment, its HOME, the working directory, the limits of open files, whether they
-- can be read and which new ones are taken, filepath.Join, and ForkExec, which gives a process or an error.
pub record Linux : Type 0 where
  pub environ : List Text
  pub home : Text
  pub wd : Option Text
  pub limits : Rlimit
  pub reads_limits : Bool
  pub setrlimit : Rlimit → Bool
  pub join_path : Text → Text → Text
  pub fork_exec : Text → List Text → ProcAttr → Option ℕ

-- The directories that are added to a PATH, and the PATH of an environment that has none.
abbrev pub more_path : List Text
more_path =
    codes "/usr/local/sbin"
    ∷ codes "/usr/local/bin"
    ∷ codes "/usr/sbin"
    ∷ codes "/usr/bin"
    ∷ codes "/sbin:/bin"
    ∷ codes "/usr/games"
    ∷ codes "/usr/local/games"
    ∷ []

abbrev pub whole_path : Text
whole_path =
    codes "/usr/local/sbin:/usr/local/bin:/usr/sbin:/usr/bin:/sbin:/bin:/usr/games:/usr/local/games"

-- The loop over the environment, up to its first PATH, and whether it has found one. `none` where an
-- entry `PATH` has no value to index.
unfoldable pub add_path : List Text → Option (List Text × Bool)
add_path [] = some ([], false)
add_path (entry ∷ rest) =
    let others = add_path rest >>= λ r. some (entry ∷ r.0, r.1) in
    elim (split b'=' entry) [
      | [] ↦ none
      | key ∷ values ↦
          if text_eq key (codes "PATH")
          then elim values [
            | [] ↦ none
            | value ∷ more ↦
                some ((codes "PATH=" ++ join b':' (split b':' value ++ more_path)) ∷ rest, true)
          ]
          else others
    ]

-- The directory and the environment before the loop; `none` is log.Fatal.
unfoldable pub with_home : Linux → Option (Text × List Text)
with_home sys =
    if text_eq sys.home []
    then (sys.wd >>= λ dir. some (dir, sys.environ ++ (codes "HOME=" ++ dir) ∷ []))
    else some ([], sys.environ)

-- GetProcAttributes.
unfoldable pub get_proc_attributes : Linux → Option ProcAttr
unfolding add_path with_home
get_proc_attributes sys = do
  h ← with_home sys
  r ← add_path h.1
  some (record {
    setpgid = true;
    dir = h.0;
    env = if r.1 then r.0 else r.0 ++ (codes "PATH=" ++ whole_path) ∷ [];
  })

abbrev pub open_files_limit : ℕ
open_files_limit = 65536

-- setOpenFilesLimit: the limits that are in force after it, and whether there was no error.
unfoldable pub set_open_files_limit : Linux → ℕ → ℕ → Rlimit × Bool
set_open_files_limit sys cur max =
    let limit = sys.limits in
    let raised : Rlimit = record {
      cur = if ltb limit.cur cur then cur else limit.cur;
      max = if ltb limit.max max then max else limit.max;
    } in
    if not sys.reads_limits
    then (limit, false)
    else if ltb limit.cur cur || ltb limit.max max
    then if sys.setrlimit raised then (raised, true) else (limit, false)
    else (limit, true)

-- start, maybeChroot and doStart: the process and the limits it has. `none` is a panic, of a root that
-- is nil among others; an error of the limits is only logged.
unfoldable pub start : Linux → Text → List Text → Option Text → Option (ℕ × Rlimit)
unfolding get_proc_attributes set_open_files_limit
start sys executable_path args chroot = do
  root ← chroot
  attributes ← get_proc_attributes sys
  let path = sys.join_path root executable_path
  pid ← sys.fork_exec path (path ∷ args) attributes
  some (pid, (set_open_files_limit sys open_files_limit open_files_limit).0)
