-- ===== src/ProcessManager/Start/Environment.antt =====
-- The environment and the limits of the process that is started (process_manager/manager_linux.go).
use Prim.Native.Nat.{max}
use riak_mesos_legacy.Base.{
  ℕ, ◌≡◌, refl, ap, sym, ◌∙◌, inl, inr, Bool, true, false, List, [], ◌∷◌, ◌++◌, map, Option, none,
  some, arith, ◌||◌, ltb, if◌then◌else◌, All, Bool-cases,
}
use riak_mesos_legacy.Base.Opt.{◌>>=◌}
use riak_mesos_legacy.Base.Text.{Text, codes, text_eq}
use riak_mesos_legacy.Base.Map.{Map, lookup, insert, has}
use riak_mesos_legacy.Base.Split.{split, join, Plain, split-Plain, split-append, join-split}
use riak_mesos_legacy.ProcessManager.Start.{
  Rlimit, Linux, more_path, whole_path, add_path, with_home, get_proc_attributes, open_files_limit,
  set_open_files_limit, start,
}

-- An entry of an environment.
abbrev pub render : Text × Text → Text
render (k, v) = k ++ b'=' ∷ v

-- Neither its name nor its value has an equals sign.
abbrev pub IsPlain : Text × Text → Type 0
IsPlain (k, v) = Plain b'=' k × Plain b'=' v

-- The PATH of the process, by that of the environment.
abbrev pub extended : Option Text → Text
extended none = whole_path
extended (some path) = path ++ b':' ∷ whole_path

abbrev path_key : Text
path_key = codes "PATH"

split-render : (k v : Text) → IsPlain (k, v) → split b'=' (render (k, v)) ≡ k ∷ v ∷ []
split-render k v h = split-append b'=' k v h.0 ∙ ap (λ r. k ∷ r) (split-Plain b'=' v h.1)

more_path-join : (v : Text) → join b':' (split b':' v ++ more_path) ≡ v ++ b':' ∷ whole_path
unfolding join
more_path-join v = join-split b':' v _ _

-- What the loop makes of an environment that is written from a map.
abbrev looped : Map Text → List Text × Bool
looped m =
    if has path_key m
    then (map render (insert path_key (extended (lookup path_key m)) m), true)
    else (map render m, false)

lookup-other :
    (k v : Text) (m : Map Text)
    → text_eq k path_key ≡ false
    → lookup path_key ((k, v) ∷ m) ≡ lookup path_key m
unfolding lookup
lookup-other k v m e = rw e refl

add_path-render : (m : Map Text) → All IsPlain m → add_path (map render m) ≡ some (looped m)
unfolding add_path has insert lookup
add_path-render [] h = refl
add_path-render ((k, v) ∷ m) h = elim (Bool-cases (text_eq k path_key)) [
  | inl e ↦ rw (add_path, split-render k v h.0, e, more_path-join v) refl
  | inr e ↦ elim (Bool-cases (has path_key m)) [
    | inl f ↦
        rw (add_path, split-render k v h.0, e, add_path-render m h.1, f)
          (ap (λ p. some (render (k, v) ∷ map render (insert path_key (extended p) m), true))
            (sym (lookup-other k v m e)))
    | inr f ↦ rw (add_path, split-render k v h.0, e, add_path-render m h.1, f) refl
  ]
]

insert-missing : (k v : Text) (m : Map Text) → has k m ≡ false → insert k v m ≡ m ++ (k, v) ∷ []
unfolding insert has
insert-missing k v [] h = refl
insert-missing k v ((j, w) ∷ m) h = ground (arith, insert-missing k v m)

lookup-missing : (k : Text) (m : Map Text) → has k m ≡ false → lookup k m ≡ none
unfolding lookup has
lookup-missing k [] h = refl
lookup-missing k ((j, w) ∷ m) h = ground (arith, lookup-missing k m)

map-append : (m l : Map Text) → map render (m ++ l) ≡ map render m ++ map render l
map-append [] l = refl
map-append (x ∷ m) l = ap (λ r. render x ∷ r) (map-append m l)

get_proc_attributes_lem :
    (sys : Linux) (dir : Text) (m : Map Text)
    → with_home sys ≡ some (dir, map render m)
    → All IsPlain m
    → get_proc_attributes sys
      ≡ some (record {
        setpgid = true;
        dir = dir;
        env = map render (insert path_key (extended (lookup path_key m)) m);
      })
unfolding get_proc_attributes
get_proc_attributes_lem sys dir m e h = elim (Bool-cases (has path_key m)) [
  | inl f ↦ rw (get_proc_attributes, e, add_path-render m h, f) refl
  | inr f ↦
      rw
        (
          get_proc_attributes,
          e,
          add_path-render m h,
          f,
          lookup-missing path_key m f,
          insert-missing path_key whole_path m f,
          map-append m ((path_key, whole_path) ∷ []),
        )
        refl
]

-- The environment is written from a map whose names and values have no equals sign, after HOME is added
-- where it is empty, and the root is given. The process is then the one under the root, with its own
-- path before the arguments and in a group of its own; its environment is the same, with the standard
-- directories after those of PATH, or alone where there is no PATH; and an error of the limits does
-- not matter.
pub start_lem :
    (sys : Linux) (executable_path root dir : Text) (args : List Text) (m : Map Text)
    → with_home sys ≡ some (dir, map render m)
    → All IsPlain m
    → let path = sys.join_path root executable_path in
      start sys executable_path args (some root) ≡ (
        sys.fork_exec path (path ∷ args) (record {
          setpgid = true;
          dir = dir;
          env = map render (insert (codes "PATH") (extended (lookup (codes "PATH") m)) m);
        })
        >>= λ pid. some (pid, (set_open_files_limit sys open_files_limit open_files_limit).0))
unfolding start
start_lem sys executable_path root dir args m e h =
    rw (start, get_proc_attributes_lem sys dir m e h) refl

abbrev raised : Linux → ℕ → ℕ → Rlimit
raised sys cur top = record {
  cur = if ltb sys.limits.cur cur then cur else sys.limits.cur;
  max = if ltb sys.limits.max top then top else sys.limits.max;
}

larger : (a b : ℕ) → (if ltb a b then b else a) ≡ max a b
larger a b = ground arith

large_enough : (a b : ℕ) → ltb a b ≡ false → a ≡ max a b
large_enough a b h = ground arith

-- Where no error is reported, the limits are the larger of those there were and those that are wanted;
-- else they are those there were.
pub set_open_files_limit_lem :
    (sys : Linux) (cur top : ℕ)
    → let (limit, fine) = set_open_files_limit sys cur top in
      limit ≡ (
        if fine
        then record { cur = max sys.limits.cur cur; max = max sys.limits.max top }
        else sys.limits)
unfolding set_open_files_limit
set_open_files_limit_lem sys cur top = elim (Bool-cases sys.reads_limits) [
  | inr e ↦ rw (set_open_files_limit, e) refl
  | inl e ↦ elim (Bool-cases (ltb sys.limits.cur cur || ltb sys.limits.max top)) [
    | inl f ↦ elim (Bool-cases (sys.setrlimit (raised sys cur top))) [
      | inl g ↦
          rw (set_open_files_limit, e, f, g)
            (rw (larger sys.limits.cur cur, larger sys.limits.max top) refl)
      | inr g ↦ rw (set_open_files_limit, e, f, g) refl
    ]
    | inr f ↦
        let (p, q) : (ltb sys.limits.cur cur ≡ false) × (ltb sys.limits.max top ≡ false) =
          ground arith in
        rw (set_open_files_limit, e, f)
          (rw (sym (large_enough sys.limits.cur cur p), sym (large_enough sys.limits.max top q))
            refl)
  ]
]
