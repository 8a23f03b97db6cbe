-- ===== src/Cepm/Names.antt =====
-- A name that is registered is found (cepmd/cepm/cepm.go).
use riak_mesos_legacy.Base.{
  ◌≡◌, refl, subst, true, false, Bool-cases, inl, inr, [], ◌∷◌, ◌++◌, none, some,
}
use riak_mesos_legacy.Base.Int.{ℤ}
use riak_mesos_legacy.Base.Text.{Text, codes, text_eq}
use riak_mesos_legacy.Base.Split.{contains}
use riak_mesos_legacy.Metadata.Namespace.{slash, get_zk_path, make_sub_space}
use riak_mesos_legacy.Metadata.Zookeeper.{Zk}
use riak_mesos_legacy.Metadata.Zookeeper.Laws.{Ephemeral}
use riak_mesos_legacy.Metadata.Retry.{returned, panicked, with_retry}
use riak_mesos_legacy.Metadata.Retry.Laws.{Ends, ends, Ends->>=, Ends-weaken, Ends-returned}
use riak_mesos_legacy.Metadata.Manager.{ZkNode, get_node, make_node_with_data}
use riak_mesos_legacy.Metadata.Tree.{below, get_child, make_child_with_data}
use riak_mesos_legacy.Metadata.Manager.Data.{AtMost, get_node-Open, make_node_with_data-Open}
use riak_mesos_legacy.Cepm.{
  Codec, says, registers, decimal, register_at, port_answer, port_please, answer_command,
}

module _ (z : Zk) (codec : Codec) (cepmd_node : ZkNode) (name : Text)
    (o : Ephemeral z (get_zk_path (make_sub_space cepmd_node.ns name))) where
  open z use {State}

  register_at-AtMost :
      (port bytes : Text) (p : ℤ) (s : State)
      → codec.atoi port ≡ some p
      → codec.serialize (record { node_name = name; disterl_port = p }) ≡ some bytes
      → contains slash name ≡ false
      → o.at s ≡ none
      → Ends
          (λ s' a. AtMost bytes (o.at s'))
          (λ s'. Unit {0})
          (register_at z codec cepmd_node name port s)
  unfolding register_at make_child_with_data below
  register_at-AtMost port bytes p s a b fine h =
      rw (register_at, a, b, fine)
        (Ends->>= (make_node_with_data z (make_sub_space cepmd_node.ns name) bytes true) _ s
          (Ends-weaken (λ s' r k. k.0) (λ s' k. tt)
            (make_node_with_data-Open z (make_sub_space cepmd_node.ns name) o bytes true s h))
          λ s' r k. ends k)

  register_at-slash :
      (port bytes : Text) (p : ℤ) (s : State)
      → codec.atoi port ≡ some p
      → codec.serialize (record { node_name = name; disterl_port = p }) ≡ some bytes
      → contains slash name ≡ true
      → register_at z codec cepmd_node name port s ≡ panicked s
  unfolding register_at make_child_with_data below
  register_at-slash port bytes p s a b bad = rw (register_at, a, b, bad) refl

  port_please-found :
      (bytes : Text) (p : ℤ) (s s' : State) (found : ZkNode)
      → codec.deserialize bytes ≡ some (record { node_name = name; disterl_port = p })
      → contains slash name ≡ false
      → get_node z (make_sub_space cepmd_node.ns name) s ≡ returned s' (inr found)
      → bytes ≡ found.contents
      → port_please z codec cepmd_node name s ≡ returned s' (says (decimal p ++ codes "\n"))
  unfolding port_please get_child below port_answer with_retry
  port_please-found bytes p s s' found d fine e same =
      let read : codec.deserialize found.contents
          ≡ some (record { node_name = name; disterl_port = p }) =
        subst (λ b. codec.deserialize b ≡ some (record { node_name = name; disterl_port = p })) same
          d in
      rw (port_please, fine, e, port_answer, read) refl

  -- A name that was not there is registered with a port, where no other client writes its ephemeral
  -- node and the data are read back as they were written. Then a request for its port is answered with
  -- that port wherever getNode reads the node, whatever became of sessions meanwhile: no read ever
  -- finds other data.
  pub register-port_please :
      (port bytes : Text) (p : ℤ) (s s1 s2 : State) (node found : ZkNode)
      → codec.atoi port ≡ some p
      → codec.serialize (record { node_name = name; disterl_port = p }) ≡ some bytes
      → codec.deserialize bytes ≡ some (record { node_name = name; disterl_port = p })
      → o.at s ≡ none
      → answer_command z codec cepmd_node (codes "REGISTER" ∷ name ∷ port ∷ []) s
        ≡ returned s1 (registers node)
      → get_node z (make_sub_space cepmd_node.ns name) s1 ≡ returned s2 (inr found)
      → answer_command z codec cepmd_node (codes "PORT_PLEASE" ∷ name ∷ []) s1
        ≡ returned s2 (says (decimal p ++ codes "\n"))
  unfolding answer_command text_eq
  register-port_please port bytes p s s1 s2 node found at ser de h e1 e2 =
      elim (Bool-cases (contains slash name)) [
        | inl bad ↦ absurd (cc (register_at-slash port bytes p s at ser bad, e1))
        | inr fine ↦
            let open_node : AtMost bytes (o.at s1) =
              Ends-returned
                (subst (Ends _ _) e1 (register_at-AtMost port bytes p s at ser fine h)) in
            let read = Ends-returned (
              subst (Ends _ _) e2
                (get_node-Open z (make_sub_space cepmd_node.ns name) o bytes s1 open_node)) in
            port_please-found bytes p s1 s2 found de fine e2 (read.1)
      ]
