-- ===== src/Metadata/Manager/Writes.antt =====
-- What a write of metadata_manager/manager.go leaves in Zookeeper (SetDataWithRetry and
-- CreateConnection).
use riak_mesos_legacy.Base.{
  ℕ, ◌≡◌, refl, sym, subst, ◌∙◌, ◌⊎◌, ◌↔◌, inl, inr, false, Option, none, some, Option-cases,
}
use riak_mesos_legacy.Base.Text.{Text}
use riak_mesos_legacy.Metadata.Namespace.{Namespace, get_zk_path}
use riak_mesos_legacy.Metadata.Zookeeper.{
  ConnState, no_connection, connected, has_session, connecting, other_state, ZkError, Zk,
}
use riak_mesos_legacy.Metadata.Zookeeper.Laws.{Owned}
use riak_mesos_legacy.Metadata.Retry.{Ran, returned, Try}
use riak_mesos_legacy.Metadata.Retry.Laws.{
  Succeeds, with_retry_iff, Ends, ends, breaks, Tried, tried, trying, Ends-weaken, with_retry-Ends,
}
use riak_mesos_legacy.Metadata.Manager.{
  ZkNode, opened, reconnect, create_connection, try_set_data, set_data, retries, log_panic,
}

module _ (z : Zk) {p : Text} (o : Owned z p) where
  opened-Ends :
      (P : Option Text → Type 0) (e : Option ZkError) (s : z.State)
      → P (o.at s)
      → Ends (λ s' _. P (o.at s')) (λ s'. P (o.at s')) (opened z e s)
  unfolding opened
  opened-Ends P none s h = ends h
  opened-Ends P (some e) s h = breaks h

  reconnect-Ends :
      (P : Option Text → Type 0) (c : ConnState) (s : z.State)
      → P (o.at s)
      → Ends (λ s' _. P (o.at s')) (λ s'. P (o.at s')) (reconnect z c s)
  unfolding reconnect
  reconnect-Ends P no_connection s h = opened-Ends P _ _ (rw (o.connect_keeps s) h)
  reconnect-Ends P connected s h = ends h
  reconnect-Ends P has_session s h = ends h
  reconnect-Ends P connecting s h = ends h
  reconnect-Ends P other_state s h =
      opened-Ends P _ _ (rw (o.connect_keeps (z.close s), o.close_keeps s) h)

  -- A new connection changes nothing of the node.
  pub create_connection-Ends :
      (P : Option Text → Type 0) (s : z.State)
      → P (o.at s)
      → Ends (λ s' _. P (o.at s')) (λ s'. P (o.at s')) (create_connection z s)
  unfolding create_connection
  create_connection-Ends P s h = reconnect-Ends P (z.conn_state s) s h

-- The node holds what it did, or what is written.
abbrev pub Between : Option Text → Text → Option Text → Type 0
Between old c now = (now ≡ old) ⊎ (now ≡ some c)

module _ (z : Zk) (ns : Namespace) (o : Owned z (get_zk_path ns)) (c : Text)
    (old : Option Text) where
  Open : z.State → Type 0
  Open s = Between old c (o.at s)

  asked : (q : Text) (s : z.State) → Open s → Open (z.get q s).0
  unfolding Open
  asked q s h = rw (o.get_keeps _ s) h

  written : (v : ℕ) (s : z.State) → Open s → Open (z.set (get_zk_path ns) c v s).0
  unfolding Open
  written v s h = elim (o.set_leaves c v s) [ inl same ↦ rw same h | inr new ↦ inr new ]

  created : (s : z.State) → Open s → Open (z.create (get_zk_path ns) c false s).0
  unfolding Open
  created s h = elim (o.create_leaves c false s) [ inl same ↦ rw same h | inr new ↦ inr new ]

  SetEnds : Ran z.State (Try ZkError ZkNode ZkNode) → Type 0
  SetEnds =
      Ends (λ s. Tried (λ n. (o.at s ≡ some c) × (n.ns ≡ ns)) (λ n. Open s × (n.ns ≡ ns))) Open

  try_set_data-Ends :
      (stat : Option ℕ) (d : Text) (s : z.State)
      → Open s
      → SetEnds (try_set_data z c (record { stat = stat; contents = d; ns = ns }) s)
  unfolding try_set_data SetEnds Open
  try_set_data-Ends (some v) d s h =
      let (s', g) = z.get (get_zk_path ns) s in
      let m = asked (get_zk_path ns) s h in
      elim (Option-cases g.error) [
        | inr (x, bad) ↦ rw bad (ends (trying (m, refl)))
        | inl good ↦ elim (Option-cases g.stat) [
          | inl gone ↦ rw (good, gone) (breaks m)
          | inr (version, here) ↦ elim (Option-cases (z.set (get_zk_path ns) c version s').1.1) [
            | inr (x, bad) ↦ rw (good, here, bad) (ends (trying (written version s' m, refl)))
            | inl fine ↦ rw (good, here, fine) (ends (tried (o.set_writes c version s' fine, refl)))
          ]
        ]
      ]
  try_set_data-Ends none d s h =
      let (s', r) = z.create (get_zk_path ns) c false s in
      elim (Option-cases r) [
        | inr (x, bad) ↦ rw bad (ends (trying (created s h, refl)))
        | inl fine ↦
            let now = o.get_keeps (get_zk_path ns) s' ∙ o.create_writes c false s fine in
            elim (Option-cases (z.get (get_zk_path ns) s').1.error) [
              | inr (x, bad) ↦ rw (fine, bad) (ends (trying (inr now, refl)))
              | inl good ↦ rw (fine, good) (ends (tried (now, refl)))
            ]
      ]

  -- SetData, where nothing else writes its node: a write that returns is made; one that panics is
  -- either not made, or made and not acknowledged.
  pub set_data-Ends :
      (s : z.State) (n : ZkNode)
      → o.at s ≡ old
      → n.ns ≡ ns
      → Ends (λ s' _. o.at s' ≡ some c) (λ s'. Between old c (o.at s')) (set_data z c n s)
  unfolding set_data Open SetEnds
  set_data-Ends s n h e =
      Ends-weaken (λ s' n' k. k.0) (λ s' k. k)
        (with_retry-Ends (try_set_data z c) (create_connection z) log_panic
          (λ s n. Open s × (n.ns ≡ ns))
          (λ s n k.
            subst (λ m. SetEnds (try_set_data z c (record n { ns = m }) s)) (sym k.1)
              (try_set_data-Ends n.stat n.contents s k.0))
          (λ s n k.
            Ends-weaken (λ s' _ l. (l, k.1)) (λ s' l. l)
              (create_connection-Ends z o (Between old c) s k.0))
          (λ s n x k. breaks k.0) retries n s (inl h, e))

-- SetData returns exactly where one of its first eleven tries succeeds, each before it having
-- failed and the connection having been renewed after it.
pub set_data_iff :
    (z : Zk) (c : Text) (n n' : ZkNode) (s s' : z.State)
    → (set_data z c n s ≡ returned s' n')
      ↔ Succeeds (try_set_data z c) (create_connection z) 10 n s s' n'
unfolding set_data
set_data_iff z c n n' s s' = with_retry_iff (try_set_data z c) (create_connection z) 10 s s' n n'
