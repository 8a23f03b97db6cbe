-- ===== src/Metadata/Manager/Data.antt =====
-- An ephemeral node that is made with its data, written and read (metadata_manager/manager.go:
-- makeNodeWithData, SetData and getNode), whose session may end meanwhile.
use mathlib.Core.Option.{some_inj}
use riak_mesos_legacy.Base.{
  ℕ, ◌≡◌, refl, sym, ◌∙◌, ◌⊎◌, inl, inr, Bool, false, Bool-cases, Option, none, some, Option-cases,
  subst,
}
use riak_mesos_legacy.Base.Text.{Text}
use riak_mesos_legacy.Metadata.Namespace.{Namespace, get_zk_path}
use riak_mesos_legacy.Metadata.Zookeeper.{
  ConnState, no_connection, connected, has_session, connecting, other_state, ZkError, Zk,
}
use riak_mesos_legacy.Metadata.Zookeeper.Laws.{Left, Ephemeral}
use riak_mesos_legacy.Metadata.Retry.{Ran, Try, pure, with_retry}
use riak_mesos_legacy.Metadata.Retry.Laws.{
  Ends, ends, breaks, Tried, tried, trying, Ends->>=, Ends-weaken, any-Ends, with_retry-Ends,
}
use riak_mesos_legacy.Metadata.Manager.{
  ZkNode, opened, reconnect, try_create, try_make_with_data, make_node_with_data, try_get_node,
  get_node, try_set_data, set_data, create_connection, log_panic, retries,
}

-- The node is not there, or holds these contents.
abbrev pub AtMost : Text → Option Text → Type 0
AtMost c now = (now ≡ none) ⊎ (now ≡ some c)

Left-AtMost : (c : Text) {old now : Option Text} → Left old now → AtMost c old → AtMost c now
Left-AtMost c (inl same) h = rw same h
Left-AtMost c (inr gone) h = inl gone

written-AtMost :
    (c : Text) {old now : Option Text} → Left old now ⊎ (now ≡ some c) → AtMost c old → AtMost c now
written-AtMost c (inl l) h = Left-AtMost c l h
written-AtMost c (inr new) h = inr new

AtMost-some : (c d : Text) {now : Option Text} → AtMost c now → now ≡ some d → c ≡ d
AtMost-some c d (inl gone) e = absurd (cc (gone, e))
AtMost-some c d (inr there) e = some_inj.0 (sym there ∙ e)

-- A node that is there was not lost.
Left-some :
    (c d : Text) {old now : Option Text} → Left old now → old ≡ some c → now ≡ some d → now ≡ some c
Left-some c d (inl same) e f = same ∙ e
Left-some c d (inr gone) e f = absurd (cc (gone, f))

-- A node that is read has these contents.
abbrev pub Reads : Text → ZkError ⊎ ZkNode → Type 0
Reads c (inl e) = Unit {0}
Reads c (inr node) = c ≡ node.contents

module _ (z : Zk) (ns : Namespace) (o : Ephemeral z (get_zk_path ns)) (c : Text) where
  Open : z.State → Type 0
  Open s = AtMost c (o.at s)

  opened-Open :
      (e : Option ZkError) (s : z.State) → Open s → Ends (λ s' _. Open s') Open (opened z e s)
  unfolding opened
  opened-Open none s h = ends h
  opened-Open (some e) s h = breaks h

  reconnect-Open :
      (k : ConnState) (s : z.State) → Open s → Ends (λ s' _. Open s') Open (reconnect z k s)
  unfolding reconnect Open
  reconnect-Open no_connection s h = opened-Open _ _ (Left-AtMost c (o.connect_leaves s) h)
  reconnect-Open connected s h = ends h
  reconnect-Open has_session s h = ends h
  reconnect-Open connecting s h = ends h
  reconnect-Open other_state s h =
      opened-Open _ _
        (Left-AtMost c (o.connect_leaves (z.close s)) (Left-AtMost c (o.close_leaves s) h))

  create_connection-Open :
      (s : z.State) → Open s → Ends (λ s' _. Open s') Open (create_connection z s)
  unfolding create_connection
  create_connection-Open s h = reconnect-Open (z.conn_state s) s h

  -- getNode reads the contents, where it reads the node.
  pub get_node-Open :
      (s : z.State)
      → AtMost c (o.at s)
      → Ends (λ s' r. AtMost c (o.at s') × Reads c r) (λ s'. AtMost c (o.at s')) (get_node z ns s)
  unfolding get_node try_get_node Open
  get_node-Open s h =
      with_retry-Ends (try_get_node z ns) (create_connection z) (λ e. pure (inl e)) (λ s _. Open s)
        (λ s _ m.
          let kept = Left-AtMost c (o.get_leaves s) m in
          elim (Option-cases (z.get (get_zk_path ns) s).1.error) [
            | inl fine ↦ rw fine (ends (tried (kept, AtMost-some c _ kept (o.get_reads s fine))))
            | inr (e, bad) ↦ rw bad (ends (trying kept))
          ])
        (λ s _ m. create_connection-Open s m) (λ s _ e m. ends (m, tt)) retries tt s h

  try_make-Open :
      (ephemeral : Bool) (s : z.State)
      → Open s
      → Ends
          (λ s'. Tried (λ _. Open s') (λ _. Open s'))
          Open
          (try_make_with_data z (get_zk_path ns) c ephemeral tt s)
  unfolding try_make_with_data Open
  try_make-Open ephemeral s h =
      let (s', r) = z.exists (get_zk_path ns) s in
      let m = Left-AtMost c (o.exists_leaves s) h in
      elim (Option-cases r.1) [
        | inr (x, bad) ↦ rw bad (ends (trying m))
        | inl fine ↦ elim (Bool-cases r.0) [
          | inl there ↦
              let (s'', g) = z.get (get_zk_path ns) s' in
              let still = Left-AtMost c (o.get_leaves s') m in
              elim (Option-cases g.error) [
                | inr (x, bad) ↦ rw (fine, there, bad) (ends (tried still))
                | inl good ↦ elim (Option-cases g.stat) [
                  | inl gone ↦ rw (fine, there, good, gone) (breaks still)
                  | inr (v, here) ↦
                      rw (fine, there, good, here)
                        (ends (tried (written-AtMost c (o.set_leaves c v s'') still)))
                ]
              ]
          | inr gone ↦
              let made = written-AtMost c (o.create_leaves c ephemeral s') m in
              elim (Option-cases (z.create (get_zk_path ns) c ephemeral s').1) [
                | inr (x, bad) ↦ rw (fine, gone, try_create, bad) (ends (trying made))
                | inl good ↦ rw (fine, gone, try_create, good) (ends (tried made))
              ]
        ]
      ]

  -- makeNodeWithData, where the node is not there: what it returns holds the data.
  pub make_node_with_data-Open :
      (ephemeral : Bool) (s : z.State)
      → o.at s ≡ none
      → Ends
          (λ s' r. AtMost c (o.at s') × Reads c r)
          (λ s'. AtMost c (o.at s'))
          (make_node_with_data z ns c ephemeral s)
  unfolding make_node_with_data Open
  make_node_with_data-Open ephemeral s h =
      Ends->>=
        (with_retry (try_make_with_data z (get_zk_path ns) c ephemeral) (create_connection z)
          log_panic retries tt)
        (λ _. get_node z ns) s
        (with_retry-Ends (try_make_with_data z (get_zk_path ns) c ephemeral) (create_connection z)
          log_panic (λ s _. Open s) (λ s _ m. try_make-Open ephemeral s m)
          (λ s _ m. create_connection-Open s m) (λ s _ e m. breaks m) retries tt s (inl h))
        λ s' _ m. get_node-Open s' m

  Stores : Ran z.State (Try ZkError ZkNode ZkNode) → Type 0
  Stores = Ends (λ s. Tried (λ _. o.at s ≡ some c) (λ n. n.ns ≡ ns)) (λ _. Unit {0})

  try_set_data-Stores :
      (stat : Option ℕ) (d : Text) (s : z.State)
      → Stores (try_set_data z c (record { stat = stat; contents = d; ns = ns }) s)
  unfolding try_set_data Stores
  try_set_data-Stores (some v) d s =
      let (s', g) = z.get (get_zk_path ns) s in
      elim (Option-cases g.error) [
        | inr (x, bad) ↦ rw bad (ends (trying refl))
        | inl good ↦ elim (Option-cases g.stat) [
          | inl gone ↦ rw (good, gone) (breaks tt)
          | inr (version, here) ↦ elim (Option-cases (z.set (get_zk_path ns) c version s').1.1) [
            | inr (x, bad) ↦ rw (good, here, bad) (ends (trying refl))
            | inl fine ↦ rw (good, here, fine) (ends (tried (o.set_writes c version s' fine)))
          ]
        ]
      ]
  try_set_data-Stores none d s =
      let (s', r) = z.create (get_zk_path ns) c false s in
      elim (Option-cases r) [
        | inr (x, bad) ↦ rw bad (ends (trying refl))
        | inl fine ↦ elim (Option-cases (z.get (get_zk_path ns) s').1.error) [
          | inr (x, bad) ↦ rw (fine, bad) (ends (trying refl))
          | inl good ↦
              rw (fine, good)
                (ends (
                  tried (
                    Left-some c _ (o.get_leaves s') (o.create_writes c false s fine)
                      (o.get_reads s' good))))
        ]
      ]

  -- SetData that returns has left the contents in the node, whatever became of it before.
  pub set_data-Stores :
      (s : z.State) (n : ZkNode)
      → n.ns ≡ ns
      → Ends (λ s' _. o.at s' ≡ some c) (λ s'. Unit {0}) (set_data z c n s)
  unfolding set_data Stores
  set_data-Stores s n e =
      with_retry-Ends (try_set_data z c) (create_connection z) log_panic (λ s n. n.ns ≡ ns)
        (λ s n k.
          subst (λ m. Stores (try_set_data z c (record n { ns = m }) s)) (sym k)
            (try_set_data-Stores n.stat n.contents s))
        (λ s n k. Ends-weaken {0, 0} (λ s' _ l. k) (λ s' l. tt) (any-Ends (create_connection z s)))
        (λ s n x k. breaks tt) retries n s e
