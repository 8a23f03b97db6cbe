-- ===== src/Cepm.antt =====
-- cepmd/cepm/cepm.go: the port mapper, which keeps the port of each Erlang node under a node of
-- Zookeeper, and answers a line of a connection.
pub mod Names
use riak_mesos_legacy.Base.{
  ℕ, zero, suc, ◌+◌, ◌==◌, Bool, true, false, List, [], ◌∷◌, ◌++◌, Option, none, some, ◌⊎◌, inl,
  inr, if◌then◌else◌,
}
use riak_mesos_legacy.Base.Int.{ℤ, pos, negsuc}
use riak_mesos_legacy.Base.Text.{Text, codes, itoa, text_eq}
use riak_mesos_legacy.Base.Split.{split}
use riak_mesos_legacy.Metadata.Zookeeper.{ZkError, Zk}
use riak_mesos_legacy.Metadata.Retry.{Action, pure, panic, ◌>>=◌, ◌>>◌}
use riak_mesos_legacy.Metadata.Manager.{ZkNode, log_panic}
use riak_mesos_legacy.Metadata.Tree.{
  get_root_node, create_child_if_not_exists, get_child, make_child_with_data,
}

pub record DisterlData : Type 0 where
  pub node_name : Text
  pub disterl_port : ℤ

-- strconv.Atoi, and the JSON of DisterlData.
pub record Codec : Type 0 where
  pub atoi : Text → Option ℤ
  pub serialize : DisterlData → Option Text
  pub deserialize : Text → Option DisterlData

-- How a connection is answered: with a text, with nothing, or with OK and a node that stays until the
-- connection is closed, and is deleted then.
pub data Answer : Type 0 where
  says : Text → Answer
  says_nothing : Answer
  registers : ZkNode → Answer

-- '\r' and '\n'.
is_end : ℕ → Bool
is_end c = if c == 13 then true else c == 10

unfoldable pub trim_left : Text → Text
unfolding is_end
trim_left [] = []
trim_left (c ∷ s) = let rest = trim_left s in if is_end c then rest else c ∷ s

-- Drops a run of ends of line at the end of a text.
unfoldable pub trim_right : Text → Text
unfolding is_end
trim_right [] = []
trim_right (c ∷ s) =
    let rest = trim_right s in
    elim rest [ [] ↦ if is_end c then [] else c ∷ [] | d ∷ more ↦ c ∷ d ∷ more ]

-- `%d`.
unfoldable pub decimal : ℤ → Text
decimal (pos n) = itoa n
decimal (negsuc n) = b'-' ∷ itoa (suc n)

module _ (z : Zk) (codec : Codec) where
  open z use {State}

  unfoldable pub register_answer : ZkError ⊎ ZkNode → Answer
  register_answer (inl e) = says (codes "ERROR\n")
  register_answer (inr node) = registers node

  unfoldable pub register_at : ZkNode → Text → Text → Action State Answer
  unfolding make_child_with_data register_answer
  register_at cepmd_node name port = elim (codec.atoi port) [
    | none ↦ pure says_nothing
    | some p ↦ elim (codec.serialize (record { node_name = name; disterl_port = p })) [
      | none ↦ pure says_nothing
      | some bytes ↦
          make_child_with_data z cepmd_node name bytes true >>= λ r. pure (register_answer r)
    ]
  ]

  -- The port of the data, or 0 where they are not read.
  unfoldable pub port_answer : ZkError ⊎ ZkNode → Answer
  unfolding decimal
  port_answer (inl e) = says (codes "NOTFOUND\n")
  port_answer (inr node) = elim (codec.deserialize node.contents) [
    | none ↦ says (codes "0\n")
    | some d ↦ says (decimal d.disterl_port ++ codes "\n")
  ]

  unfoldable pub port_please : ZkNode → Text → Action State Answer
  unfolding get_child port_answer
  port_please cepmd_node name = get_child z cepmd_node name >>= λ r. pure (port_answer r)

  -- A REGISTER with fewer than two words after it, and a PORT_PLEASE with none, index past their end.
  unfoldable pub answer_command : ZkNode → List Text → Action State Answer
  unfolding register_at port_please
  answer_command cepmd_node [] = panic
  answer_command cepmd_node (command ∷ []) =
      if text_eq command (codes "REGISTER")
      then panic
      else if text_eq command (codes "PORT_PLEASE")
      then panic
      else pure says_nothing
  answer_command cepmd_node (command ∷ name ∷ []) =
      if text_eq command (codes "REGISTER")
      then panic
      else if text_eq command (codes "PORT_PLEASE")
      then port_please cepmd_node name
      else pure says_nothing
  answer_command cepmd_node (command ∷ name ∷ port ∷ more) =
      if text_eq command (codes "REGISTER")
      then register_at cepmd_node name port
      else if text_eq command (codes "PORT_PLEASE")
      then port_please cepmd_node name
      else pure says_nothing

  -- handleConn, up to the end of the connection of a node that is registered; `none` is an error of the
  -- reader.
  unfoldable pub handle_conn : ZkNode → Option Text → Action State Answer
  unfolding trim_left trim_right answer_command
  handle_conn cepmd_node none = pure says_nothing
  handle_conn cepmd_node (some line) =
      answer_command cepmd_node (split b' ' (trim_left (trim_right line)))

module _ (z : Zk) where
  open z use {State}

  -- NewCPMd once it listens.
  unfoldable pub new_cpmd : Text → Action State ZkNode
  unfolding get_root_node create_child_if_not_exists get_child
  new_cpmd framework_id = get_root_node z framework_id >>= λ root.
      create_child_if_not_exists z root (codes "cepmd") >> get_root_node z framework_id >>= λ again.
      get_child z again (codes "cepmd") >>= λ r. elim r [
        | inl e ↦ log_panic e
        | inr node ↦ pure node
      ]
