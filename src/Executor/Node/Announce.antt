-- ===== src/Executor/Node/Announce.antt =====
-- When Run tells the master that the task runs (executor/node.go).
use riak_mesos_legacy.Cepm.{new_cpmd}
use riak_mesos_legacy.Base.{
  Bool, if◌then◌else◌, Bool-cases, inl, inr, ℕ, ◌≡◌, sym, subst, ap, ◌∙◌, true, false, List, [],
  ◌∷◌, ◌++◌, some, arith,
}
use riak_mesos_legacy.Base.Text.{Text}
use riak_mesos_legacy.Mesos.{task_running, task_failed}
use riak_mesos_legacy.Scheduler.Config.{TaskData}
use riak_mesos_legacy.Metadata.Namespace.{get_zk_path}
use riak_mesos_legacy.Metadata.Zookeeper.{Zk}
use riak_mesos_legacy.Metadata.Zookeeper.Laws.{Ephemeral}
use riak_mesos_legacy.Metadata.Retry.Laws.{Ends, Ends-returned}
use riak_mesos_legacy.Metadata.Manager.Data.{set_data-Stores}
use riak_mesos_legacy.Executor.{
  RiakNode, Update, Core, done, ◌>>◌, metadata, Master, send_by_driver,
}
use riak_mesos_legacy.Executor.Inversion.{
  done_inj, >>=-done, guard-done, send_by_driver-done, metadata-done,
}
use riak_mesos_legacy.Executor.Coordination.{
  CoordinatedData, TemplateData, coordinated_data, get_coordinated_child, set_coordinated_data,
}
use riak_mesos_legacy.Executor.Coordination.Address.{entry, get_coordinated_child-Gives}
use riak_mesos_legacy.Metadata.Manager.{ZkNode}
use riak_mesos_legacy.Executor.Node.{
  start_cpmd, Template, Site, template_data, render, configure_riak, install, stop_driver, set_node,
  announce, run,
}

module _ {S : Type 0} where
  pub render-done : (t : Template) (c c' : Core S) (a : Unit {0}) → render t c ≡ done c' a → c ≡ c'
  unfolding render
  render-done t c c' a h = ground arith

  pub install-done :
      (site : Site) (c c' : Core S) (a : Unit {0}) → install site c ≡ done c' a → c ≡ c'
  unfolding install
  install-done site c c' a h = ground arith

module _ (z : Zk) (master : Master) (serialize : CoordinatedData → Text)
    (status_data : ℕ → List ℕ) where
  open z use {State}

  abbrev pub running_update : TaskData → Update
  running_update t = record { state = task_running; data_sent = status_data t.http_port }

  -- The node's entry holds its address, and one status update was sent.
  pub record Told (n : RiakNode) (config : TemplateData)
      (o : Ephemeral z (get_zk_path (entry n.task_data.framework_name n.task_id)))
      (c c' : Core State) : Type 0 where
    pub entry_stored : o.at c'.zk ≡ some (serialize (coordinated_data n.task_data config))
    pub told_running : c'.sent ≡ c.sent ++ running_update n.task_data ∷ []

  announce-Told :
      (n : RiakNode) (config : TemplateData)
      (o : Ephemeral z (get_zk_path (entry n.task_data.framework_name n.task_id)))
      (c c' : Core State) (a : Unit {0})
      → announce z master serialize status_data n config c ≡ done c' a
      → Told n config o c c'
  unfolding announce set_coordinated_data set_node
  announce-Told n config o c c' a h =
      let (c1, child, m1, h1) =
        >>=-done (metadata (get_coordinated_child z n.task_data.framework_name n.task_id)) _ c c' a
          h in
      let (r1, e1) =
        metadata-done (get_coordinated_child z n.task_data.framework_name n.task_id) c c1 child
          m1 in
      let at_entry : child.ns ≡ entry n.task_data.framework_name n.task_id = Ends-returned (
        subst (Ends _ _) r1
          (get_coordinated_child-Gives z n.task_data.framework_name n.task_id c.zk)) in
      let (c3, u, m3, h3) =
        >>=-done
          (metadata (set_coordinated_data z serialize n.task_data child config)
            >> send_by_driver master (running_update n.task_data))
          _ c1 c' a h1 in
      let (c2, node', m2, h2) =
        >>=-done (metadata (set_coordinated_data z serialize n.task_data child config)) _ c1 c3 u
          m3 in
      let (r2, e2) =
        metadata-done (set_coordinated_data z serialize n.task_data child config) c1 c2 node' m2 in
      let stored : o.at c2.zk ≡ some (serialize (coordinated_data n.task_data config)) =
        Ends-returned (
          subst (Ends _ _) r2 (
            set_data-Stores z (entry n.task_data.framework_name n.task_id) o
              (serialize (coordinated_data n.task_data config)) c1.zk child at_entry)) in
      let e3 = send_by_driver-done master (running_update n.task_data) c2 c3 u h2 in
      let kept : c2.sent ≡ c.sent = ap (λ x. x.sent) (sym e2) ∙ ap (λ x. x.sent) (sym e1) in
      let (e4, _) = done_inj h3 in
      record {
        entry_stored = ap (λ x. o.at x.zk) (sym e4) ∙ ap (λ x. o.at x.zk) (sym e3) ∙ stored;
        told_running =
            ap (λ x. x.sent) (sym e4)
            ∙ ap (λ x. x.sent) (sym e3)
            ∙ ap (λ l. l ++ running_update n.task_data ∷ []) kept;
      }

  -- Where the start of Riak fails, the master is told so, and the driver is stopped.
  pub record Failed (c c' : Core State) : Type 0 where
    pub told_failed : c'.sent ≡ c.sent ++ record { state = task_failed; data_sent = [] } ∷ []
    pub stops : c'.stopped ≡ true

  give_up-Failed :
      (c c' : Core State) (a : Unit {0})
      → (send_by_driver master (record { state = task_failed; data_sent = [] }) >> stop_driver) c
        ≡ done c' a
      → Failed c c'
  unfolding stop_driver
  give_up-Failed c c' a h =
      let (c1, u, m1, h1) =
        >>=-done (send_by_driver master (record { state = task_failed; data_sent = [] })) _ c c' a
          h in
      let e1 =
        send_by_driver-done master (record { state = task_failed; data_sent = [] }) c c1 u m1 in
      let (e2, _) =
        done_inj (guard-done c1.driver (done (record c1 { stopped = true }) tt) c1 h1) in
      record {
        told_failed = ap (λ x. x.sent) (sym e2) ∙ ap (λ x. x.sent) (sym e1);
        stops = ap (λ x. x.stopped) (sym e2);
      }

  start_cpmd-sent :
      (site : Site) (framework_name : Text) (c c' : Core State) (node : ZkNode)
      → start_cpmd z master serialize status_data site framework_name c ≡ done c' node
      → c'.sent ≡ c.sent
  unfolding start_cpmd
  start_cpmd-sent site framework_name c c' node h = elim (Bool-cases site.listens) [
    | inr silent ↦ absurd (cc (rw (start_cpmd, silent) at h))
    | inl up ↦
        let (r, e) =
          metadata-done (new_cpmd z framework_name) c c' node (rw (start_cpmd, up) at h) in
        ap (λ x. x.sent) (sym e)
  ]

  branch-RanTo :
      (b : Bool) (n : RiakNode) (config : TemplateData)
      (o : Ephemeral z (get_zk_path (entry n.task_data.framework_name n.task_id)))
      (c c' : Core State) (a : Unit {0})
      → (if b
            then announce z master serialize status_data n config
            else send_by_driver master (record { state = task_failed; data_sent = [] })
              >> stop_driver)
          c
        ≡ done c' a
      → (b ≡ true → Told n config o c c') × (b ≡ false → Failed c c')
  branch-RanTo true n config o c c' a h =
      ((λ e. announce-Told n config o c c' a h), (λ e. absurd (cc e)))
  branch-RanTo false n config o c c' a h = ((λ e. absurd (cc e)), (λ e. give_up-Failed c c' a h))

  -- What a Run that returns has done.
  abbrev pub RanTo :
      (site : Site) (n : RiakNode)
      (o : Ephemeral z (get_zk_path (entry n.task_data.framework_name n.task_id)))
      (c c' : Core State)
      → Type 0
  RanTo site n o c c' =
      (site.started ≡ true → Told n (template_data n.task_data) o c c')
      × (site.started ≡ false → Failed c c')

  pub run-RanTo :
      (site : Site) (n : RiakNode)
      (o : Ephemeral z (get_zk_path (entry n.task_data.framework_name n.task_id)))
      (c c' : Core State) (a : Unit {0})
      → run z master serialize status_data site n c ≡ done c' a
      → RanTo site n o c c'
  unfolding run configure_riak
  run-RanTo site n o c c' a h =
      let (c1, config, m1, h1) = >>=-done (configure_riak site n.task_data) _ c c' a h in
      let (c0, u0, m0, p0) = >>=-done (render site.config) _ c c1 config m1 in
      let (q, of_task) = done_inj p0 in
      let (c4, cepmd_node, m4, h4) =
        >>=-done (start_cpmd z master serialize status_data site n.task_data.framework_name) _ c1 c'
          a h1 in
      let (c3, u3, m3, h3) = >>=-done (render site.advanced >> install site) _ c4 c' a h4 in
      let (c2, u2, m2, h2) = >>=-done (render site.advanced) _ c4 c3 u3 m3 in
      let kept : c3.sent ≡ c.sent =
        ap (λ x. x.sent)
          (sym (render-done site.advanced c4 c2 u2 m2 ∙ install-done site c2 c3 u3 h2))
        ∙ start_cpmd-sent site n.task_data.framework_name c1 c4 cepmd_node m4
        ∙ ap (λ x. x.sent) (sym (render-done site.config c c0 u0 m0 ∙ q)) in
      let (up, down) = branch-RanTo site.started n config o c3 c' a h3 in
      (
        (λ e.
            let told : Told n (template_data n.task_data) o c3 c' =
              subst (λ k. Told n k o c3 c') (sym of_task) (up e) in
            record {
              entry_stored = told.entry_stored;
              told_running =
                  told.told_running ∙ ap (λ l. l ++ running_update n.task_data ∷ []) kept;
            }),
        (λ e. record {
          told_failed =
              (down e).told_failed
              ∙ ap (λ l. l ++ record { state = task_failed; data_sent = [] } ∷ []) kept;
          stops = (down e).stops;
        }),
      )
