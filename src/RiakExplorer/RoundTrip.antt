-- ===== src/RiakExplorer/RoundTrip.antt =====
-- The addresses that the client of Riak Explorer asks, read back (riak_explorer/client.go).
use mathlib.Core.Option
use riak_mesos_legacy.Base.{◌≡◌, refl, ap, ◌++◌, List, [], ◌∷◌, Option, none, some, All}
use riak_mesos_legacy.Base.Text.{Text, codes, text_eq}
use riak_mesos_legacy.Base.Map.{lookup}
use riak_mesos_legacy.Base.Split.{split, Plain, split-Plain, split-append}
use riak_mesos_legacy.Metadata.Namespace.{slash}
use riak_mesos_legacy.RiakExplorer.Address.{Command, command_uri, command_url}

-- What the parts of a path below `admin` ask for.
unfoldable read_path : List Text → Option Command
unfolding lookup text_eq
read_path (area ∷ word ∷ []) = some Command.ping
read_path (area ∷ nodes ∷ node ∷ word ∷ []) = lookup word (
    (codes "aae-status", Command.aae_status node)
    ∷ (codes "status", Command.status node)
    ∷ (codes "ringready", Command.ringready node)
    ∷ (codes "transfers", Command.transfers node)
    ∷ (codes "bucket_types", Command.bucket_types node)
    ∷ (codes "staged-leave", Command.staged_leave node)
    ∷ (codes "plan", Command.plan node)
    ∷ (codes "repair", Command.repair node)
    ∷ (codes "commit", Command.commit node)
    ∷ (codes "clear", Command.clear node)
    ∷ [])
read_path (area ∷ nodes ∷ node ∷ word ∷ other ∷ []) = lookup word (
    (codes "bucket_types", Command.create_bucket_type node other)
    ∷ (codes "join", Command.join node other)
    ∷ (codes "staged-join", Command.staged_join node other)
    ∷ (codes "leave", Command.leave node other)
    ∷ (codes "staged-leave", Command.staged_leave_target node other)
    ∷ (codes "force-remove", Command.force_remove node other)
    ∷ [])
read_path (area ∷ nodes ∷ node ∷ word ∷ old_node ∷ new_node ∷ []) = lookup word (
    (codes "replace", Command.replace node old_node new_node)
    ∷ (codes "staged-replace", Command.staged_replace node old_node new_node)
    ∷ (codes "force-replace", Command.force_replace node old_node new_node)
    ∷ [])
read_path _ = none

-- The host and the command of an address.
unfoldable read_parts : List Text → Option (Text × Command)
unfolding read_path
read_parts (scheme ∷ empty ∷ host ∷ admin ∷ path) = Option.map (λ c. (host, c)) (read_path path)
read_parts _ = none

unfoldable pub read_url : Text → Option (Text × Command)
unfolding split read_parts
read_url url = read_parts (split slash url)

-- The nodes and the bucket type that a command names.
abbrev pub names : Command → List Text
names Command.ping = []
names (Command.aae_status n) = n ∷ []
names (Command.status n) = n ∷ []
names (Command.ringready n) = n ∷ []
names (Command.transfers n) = n ∷ []
names (Command.bucket_types n) = n ∷ []
names (Command.create_bucket_type n t) = n ∷ t ∷ []
names (Command.join n m) = n ∷ m ∷ []
names (Command.staged_join n m) = n ∷ m ∷ []
names (Command.leave n m) = n ∷ m ∷ []
names (Command.staged_leave_target n m) = n ∷ m ∷ []
names (Command.force_remove n m) = n ∷ m ∷ []
names (Command.staged_leave n) = n ∷ []
names (Command.plan n) = n ∷ []
names (Command.repair n) = n ∷ []
names (Command.commit n) = n ∷ []
names (Command.clear n) = n ∷ []
names (Command.replace n l m) = n ∷ l ∷ m ∷ []
names (Command.staged_replace n l m) = n ∷ l ∷ m ∷ []
names (Command.force_replace n l m) = n ∷ l ∷ m ∷ []

split-command_url :
    (host path : Text)
    → Plain slash host
    → split slash (command_url host path)
      ≡ codes "http:" ∷ [] ∷ host ∷ codes "admin" ∷ split slash path
unfolding split command_url
split-command_url host path h =
    ap (λ r. codes "http:" ∷ [] ∷ r) (split-append slash host (codes "admin/" ++ path) h)

-- One part more is read off a path, and at its end the last one.
module _ {r : Option Command} (before : List Text) where
  read_part :
      (n t : Text)
      → Plain slash n
      → read_path (before ++ n ∷ split slash t) ≡ r
      → read_path (before ++ split slash (n ++ slash ∷ t)) ≡ r
  read_part n t h e = rw (split-append slash n t h) e

  read_last :
      (n : Text)
      → Plain slash n
      → read_path (before ++ n ∷ []) ≡ r
      → read_path (before ++ split slash n) ≡ r
  read_last n h e = rw (split-Plain slash n h) e

abbrev control : List Text
control = codes "control" ∷ codes "nodes" ∷ []

abbrev explore : List Text
explore = codes "explore" ∷ codes "nodes" ∷ []

read_path-command_uri :
    (c : Command) → All (Plain slash) (names c) → read_path (split slash (command_uri c)) ≡ some c
unfolding read_path command_uri split
read_path-command_uri Command.ping h = refl
read_path-command_uri (Command.aae_status n) h = read_part control n (codes "aae-status") h.0 refl
read_path-command_uri (Command.status n) h = read_part control n (codes "status") h.0 refl
read_path-command_uri (Command.ringready n) h = read_part control n (codes "ringready") h.0 refl
read_path-command_uri (Command.transfers n) h = read_part control n (codes "transfers") h.0 refl
read_path-command_uri (Command.bucket_types n) h =
    read_part explore n (codes "bucket_types") h.0 refl
read_path-command_uri (Command.staged_leave n) h =
    read_part control n (codes "staged-leave") h.0 refl
read_path-command_uri (Command.plan n) h = read_part control n (codes "plan") h.0 refl
read_path-command_uri (Command.repair n) h = read_part control n (codes "repair") h.0 refl
read_path-command_uri (Command.commit n) h = read_part control n (codes "commit") h.0 refl
read_path-command_uri (Command.clear n) h = read_part control n (codes "clear") h.0 refl
read_path-command_uri (Command.create_bucket_type n m) h =
    read_part explore n (codes "bucket_types/" ++ m) h.0
      (read_last (explore ++ n ∷ codes "bucket_types" ∷ []) m h.1.0 refl)
read_path-command_uri (Command.join n m) h =
    read_part control n (codes "join/" ++ m) h.0
      (read_last (control ++ n ∷ codes "join" ∷ []) m h.1.0 refl)
read_path-command_uri (Command.staged_join n m) h =
    read_part control n (codes "staged-join/" ++ m) h.0
      (read_last (control ++ n ∷ codes "staged-join" ∷ []) m h.1.0 refl)
read_path-command_uri (Command.leave n m) h =
    read_part control n (codes "leave/" ++ m) h.0
      (read_last (control ++ n ∷ codes "leave" ∷ []) m h.1.0 refl)
read_path-command_uri (Command.staged_leave_target n m) h =
    read_part control n (codes "staged-leave/" ++ m) h.0
      (read_last (control ++ n ∷ codes "staged-leave" ∷ []) m h.1.0 refl)
read_path-command_uri (Command.force_remove n m) h =
    read_part control n (codes "force-remove/" ++ m) h.0
      (read_last (control ++ n ∷ codes "force-remove" ∷ []) m h.1.0 refl)
read_path-command_uri (Command.replace n l m) h =
    read_part control n (codes "replace/" ++ (l ++ slash ∷ m)) h.0 (
      read_part (control ++ n ∷ codes "replace" ∷ []) l m h.1.0
        (read_last (control ++ n ∷ codes "replace" ∷ l ∷ []) m h.1.1.0 refl))
read_path-command_uri (Command.staged_replace n l m) h =
    read_part control n (codes "staged-replace/" ++ (l ++ slash ∷ m)) h.0 (
      read_part (control ++ n ∷ codes "staged-replace" ∷ []) l m h.1.0
        (read_last (control ++ n ∷ codes "staged-replace" ∷ l ∷ []) m h.1.1.0 refl))
read_path-command_uri (Command.force_replace n l m) h =
    read_part control n (codes "force-replace/" ++ (l ++ slash ∷ m)) h.0 (
      read_part (control ++ n ∷ codes "force-replace" ∷ []) l m h.1.0
        (read_last (control ++ n ∷ codes "force-replace" ∷ l ∷ []) m h.1.1.0 refl))

-- Where the host and the names in a command have no slash, the address that is asked tells the host,
-- the command and its names: it is read back as they were.
pub read_url-command_url :
    (host : Text) (c : Command)
    → Plain slash host
    → All (Plain slash) (names c)
    → read_url (command_url host (command_uri c)) ≡ some (host, c)
unfolding read_url read_parts
read_url-command_url host c h k =
    rw (split-command_url host (command_uri c) h)
      (ap (Option.map (λ c. (host, c))) (read_path-command_uri c k))
