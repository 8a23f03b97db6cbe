-- ===== src/Executor/Callbacks/Launch.antt =====
-- What a launch has told the master and written to Zookeeper (executor/executor.go: LaunchTask).
use riak_mesos_legacy.Base.{
  ℕ, ◌≡◌, sym, subst, ap, ◌∙◌, true, false, Option-cases, inl, inr, List, [], ◌∷◌, ◌++◌, Option,
  some,
}
use riak_mesos_legacy.Base.Text.{Text}
use riak_mesos_legacy.Mesos.{task_starting, task_failed}
use riak_mesos_legacy.Scheduler.Config.{TaskData}
use riak_mesos_legacy.Metadata.Namespace.{get_zk_path}
use riak_mesos_legacy.Metadata.Zookeeper.{Zk}
use riak_mesos_legacy.Metadata.Zookeeper.Laws.{Ephemeral}
use riak_mesos_legacy.Metadata.Tree.{new_metadata_manager}
use riak_mesos_legacy.Executor.{
  RiakNode, Update, Core, done, ◌>>=◌, ◌>>◌, metadata, Master, send_status,
}
use riak_mesos_legacy.Executor.Inversion.{done_inj, >>=-done, send_status-done, metadata-done}
use riak_mesos_legacy.Executor.Coordination.{CoordinatedData, coordinated_data}
use riak_mesos_legacy.Executor.Coordination.Address.{entry}
use riak_mesos_legacy.Executor.Node.{Site, template_data, set_node, run}
use riak_mesos_legacy.Executor.Node.Announce.{running_update, RanTo, run-RanTo}
use riak_mesos_legacy.Executor.Callbacks.{first_node, new_riak_node, launch_task}

module _ (z : Zk) (master : Master) (serialize : CoordinatedData → Text) (status_data : ℕ → List ℕ)
    (deserialize : List ℕ → Option TaskData) where
  open z use {State}

  abbrev pub starting_update : Update
  starting_update = record { state = task_starting; data_sent = [] }

  new_riak_node-done :
      (task_id : Text) (bytes : List ℕ) (t : TaskData) (c c' : Core State) (n : RiakNode)
      → deserialize bytes ≡ some t
      → new_riak_node z master serialize status_data deserialize task_id bytes c ≡ done c' n
      → (first_node task_id t ≡ n) × (c'.sent ≡ c.sent)
  unfolding new_riak_node
  new_riak_node-done task_id bytes t c c' n d h =
      let (c1, u, m1, h1) =
        >>=-done (metadata (new_metadata_manager z t.framework_name)) _ c c' n
          (rw (new_riak_node, d) at h) in
      let (r, e) = metadata-done (new_metadata_manager z t.framework_name) c c1 u m1 in
      let (e2, f) = done_inj h1 in (f, ap (λ x. x.sent) (sym e2) ∙ ap (λ x. x.sent) (sym e))

  started-RanTo :
      (site : Site) (task_id : Text) (bytes : List ℕ) (t : TaskData)
      (o : Ephemeral z (get_zk_path (entry t.framework_name task_id))) (c c' : Core State)
      (a : Unit {0})
      → deserialize bytes ≡ some t
      → (new_riak_node z master serialize status_data deserialize task_id bytes >>= λ n.
            set_node n >> run z master serialize status_data site n)
          c
        ≡ done c' a
      → (c1 : Core State) × (c1.sent ≡ c.sent)
        × RanTo z master serialize status_data site (first_node task_id t) o c1 c'
  unfolding set_node
  started-RanTo site task_id bytes t o c c' a d h =
      let (c1, n, m1, h1) =
        >>=-done (new_riak_node z master serialize status_data deserialize task_id bytes) _ c c' a
          h in
      let (made, kept) = new_riak_node-done task_id bytes t c c1 n d m1 in
      let (c2, u, m2, h2) =
        >>=-done (set_node n) (λ _. run z master serialize status_data site n) c1 c' a h1 in
      let (e2, _) = done_inj m2 in
      (
        c2,
        ap (λ x. x.sent) (sym e2) ∙ kept,
        run-RanTo z master serialize status_data site (first_node task_id t) o c2 c' a
            (subst (λ m. run z master serialize status_data site m c2 ≡ done c' a) (sym made) h2),
      )

  -- What a launch that returns leaves: where Riak came up, the node's address in Zookeeper, and the
  -- statuses sent; where not, the master told and the driver stopped.
  pub record Launched (site : Site) (task_id : Text) (t : TaskData)
      (o : Ephemeral z (get_zk_path (entry t.framework_name task_id))) (c c' : Core State)
      : Type 0 where
    pub comes_up :
        site.started ≡ true
        → (c'.sent
            ≡ c.sent
              ++ starting_update ∷ []
              ++ running_update z master serialize status_data t ∷ [])
          × (o.at c'.zk ≡ some (serialize (coordinated_data t (template_data t))))
    pub fails :
        site.started ≡ false
        → (c'.sent
            ≡ c.sent ++ starting_update ∷ [] ++ record { state = task_failed; data_sent = [] } ∷ [])
          × (c'.stopped ≡ true)

  -- A LaunchTask that returns, of a task whose data are read, has told the master that the task
  -- was starting, and then, if the process manager came up, that it runs, with the node's address
  -- stored in its ephemeral entry of Zookeeper as that was last written, where no other client
  -- writes it, also if the session had ended before; if not, it has told that the task failed, and
  -- has stopped the driver.
  pub launch_task-Launched :
      (site : Site) (task_id : Text) (bytes : List ℕ) (t : TaskData)
      (o : Ephemeral z (get_zk_path (entry t.framework_name task_id))) (c c' : Core State)
      (a : Unit {0})
      → deserialize bytes ≡ some t
      → launch_task z master serialize status_data deserialize site task_id bytes c ≡ done c' a
      → Launched site task_id t o c c'
  unfolding launch_task
  launch_task-Launched site task_id bytes t o c c' a d h =
      let (c1, u, m1, h1) = >>=-done (send_status master starting_update) _ c c' a h in
      let sent : c1.sent ≡ c.sent ++ starting_update ∷ [] =
        ap (λ x. x.sent) (sym (send_status-done master starting_update c c1 u m1)) in
      elim (Option-cases c1.riak_node) [
        | inr (n, old) ↦ absurd (cc (rw old at h1))
        | inl new ↦
            let (c2, kept, r) = started-RanTo site task_id bytes t o c1 c' a d (rw new at h1) in
            record {
              comes_up = λ up. (
                (r.0 up).told_running
                    ∙ ap (λ l. l ++ running_update z master serialize status_data t ∷ [])
                        (kept ∙ sent),
                (r.0 up).entry_stored,
              );
              fails = λ down. (
                (r.1 down).told_failed
                    ∙ ap (λ l. l ++ record { state = task_failed; data_sent = [] } ∷ [])
                        (kept ∙ sent),
                (r.1 down).stops,
              );
            }
      ]
