-- ===== src/Executor/Node.antt =====
-- The methods of RiakNode (executor/node.go).
pub mod Announce
pub mod Generation
use riak_mesos_legacy.Base.{
  ℕ, zero, suc, ◌+◌, ◌-◌, ◌/◌, ◌%◌, ◌^◌, Bool, true, false, List, [], ◌∷◌, ◌++◌, Option, none, some,
  if◌then◌else◌, length, leb, ltb, replicate,
}
use riak_mesos_legacy.Base.Text.{Text, codes}
use riak_mesos_legacy.Mesos.{TaskState, task_running, task_failed, task_finished}
use riak_mesos_legacy.Scheduler.Config.{TaskData}
use riak_mesos_legacy.Metadata.Zookeeper.{Zk}
use riak_mesos_legacy.Metadata.Manager.{ZkNode}
use riak_mesos_legacy.Metadata.Tree.{delete_node}
use riak_mesos_legacy.Cepm.{new_cpmd}
use riak_mesos_legacy.Executor.{
  Pm, pm_up, pm_over, RiakNode, Update, Core, Ran, done, panics, exits, blocks, Step, pure, panic,
  exit, block, ◌>>=◌, ◌>>◌, metadata, Master, send_status, send_by_driver,
}
use riak_mesos_legacy.Executor.Coordination.{
  TemplateData, CoordinatedData, get_coordinated_child, set_coordinated_data,
}

-- How the fetch of a template and its file go.
pub record Template : Type 0 where
  pub fetched : Bool
  pub parsed : Bool
  pub opened : Bool
  pub executed : Bool

-- What the machine answers Run: the templates, whether the port mapper gets its port, the kernel directories that Glob finds, or its error,
-- what InstallInto, KillEPMD and Getwd do, and whether NewProcessManager gives no error.
pub record Site : Type 0 where
  pub config : Template
  pub advanced : Template
  pub listens : Bool
  pub kernel_dirs : Option (List Text)
  pub installed : Bool
  pub epmd_killed : Bool
  pub wd_known : Bool
  pub started : Bool

-- An error of http.Get is only logged, and the reply that it leaves nil is then read.
unfoldable pub render : {S : Type 0} → Template → Step S (Unit {0})
render t =
    if t.fetched
    then (if t.parsed
        then (if t.opened then (if t.executed then pure tt else panic) else panic)
        else panic)
    else panic

-- The values for the template.
abbrev pub template_data : TaskData → TemplateData
template_data t = record {
  http_port = t.http_port;
  pb_port = t.pb_port;
  handoff_port = t.handoff_port;
  fully_qualified_node_name = t.fully_qualified_node_name;
  disterl_port = t.disterl_port;
}

unfoldable pub configure_riak : {S : Type 0} → Site → TaskData → Step S TemplateData
unfolding render
configure_riak site t = render site.config >> pure (template_data t)

-- HealthCheckFun, of what ReadFile answers: the data, and whether there is an error. The text that it
-- looks for is a parameter of `contains`. No error is health.
unfoldable pub health_check : (Text → Bool) → Text → Bool → Bool
health_check contains_ready data_read failed = if failed then contains_ready data_read else true

-- Installing the modules of Erlang, up to the start of the process manager.
unfoldable pub install : {S : Type 0} → Site → Step S (Unit {0})
install site = elim site.kernel_dirs [
  | none ↦ exit
  | some dirs ↦ elim dirs [
    | [] ↦ panic
    | dir ∷ more ↦
        if site.installed
        then (if site.epmd_killed then (if site.wd_known then pure tt else panic) else exit)
        else panic
  ]
]

unfoldable pub stop_driver : {S : Type 0} → Step S (Unit {0})
stop_driver c = if c.driver then done (record c { stopped = true }) tt else panics c

unfoldable pub set_node : {S : Type 0} → RiakNode → Step S (Unit {0})
set_node n c = done (record c { riak_node = some n }) tt

-- PutUvarint's bytes, low groups of seven bits first; ten of them hold 64 bits.
unfoldable pub uvarint : ℕ → ℕ → List ℕ
uvarint zero x = []
uvarint (suc fuel) x =
    let rest = uvarint fuel (x / 128) in if ltb x 128 then x ∷ [] else (x % 128 + 128) ∷ rest

module _ (z : Zk) (master : Master) (serialize : CoordinatedData → Text)
    (status_data : ℕ → List ℕ) where
  open z use {State}

  -- The end of Run, once the process manager is there.
  unfoldable pub announce : RiakNode → TemplateData → Step State (Unit {0})
  unfolding get_coordinated_child set_coordinated_data send_by_driver set_node
  announce n config =
      metadata (get_coordinated_child z n.task_data.framework_name n.task_id) >>= λ child.
      metadata (set_coordinated_data z serialize n.task_data child config)
      >> send_by_driver master
          (record { state = task_running; data_sent = status_data n.task_data.http_port })
      >> set_node (record n { pm = some pm_up; running = true; looping = some child })

  unfoldable pub start_cpmd : Site → Text → Step State ZkNode
  unfolding new_cpmd
  start_cpmd site framework_name =
      if site.listens then metadata (new_cpmd z framework_name) else panic

  -- Run. Where NewProcessManager fails, riakNode.pm is the nil that it returns.
  unfoldable pub run : Site → RiakNode → Step State (Unit {0})
  unfolding configure_riak render start_cpmd install announce send_by_driver stop_driver set_node
  run site n = configure_riak site n.task_data >>= λ config.
      start_cpmd site n.task_data.framework_name >>= λ cepmd_node.
      render site.advanced
      >> install site
      >> (if site.started
          then announce n config
          else send_by_driver master (record { state = task_failed; data_sent = [] })
            >> stop_driver)

  -- A method that needs the node dereferences a nil pointer where there is none.
  abbrev with_node : {A : Type 0} → (RiakNode → Step State A) → Step State A
  with_node f c = elim c.riak_node [ none ↦ panics c | some n ↦ f n c ]

  -- runLoop from its start to its select: Listen sends on a channel that a manager which has returned
  -- has closed.
  unfoldable pub run_loop_listens : RiakNode → Step State (Unit {0})
  run_loop_listens n = elim n.pm [
    | none ↦ panic
    | some p ↦ elim p [ pm_up ↦ pure tt | pm_over ↦ panic ]
  ]

  -- runLoop once its listener is told: no other case of the select is ever picked.
  unfoldable pub run_loop_ends : ℕ → RiakNode → ZkNode → Step State (Unit {0})
  unfolding send_by_driver set_node stop_driver delete_node
  run_loop_ends fuel n child =
      set_node (record n { pm = some pm_over; looping = none })
      >> send_by_driver master (record { state = n.kill_status; data_sent = [] })
      >> metadata (delete_node z fuel child)
      >> stop_driver

  unfoldable pub send_generation : RiakNode → Step State (Unit {0})
  unfolding uvarint send_by_driver set_node
  send_generation n =
      let bin = uvarint 10 n.generation in
      if leb (length bin) 4
      then send_by_driver master
          (record { state = task_running; data_sent = bin ++ replicate (4 - length bin) 0 })
        >> set_node (record n { generation = (n.generation + 1) % 2 ^ 64 })
      else panic

  unfoldable pub next : Step State (Unit {0})
  unfolding send_generation
  next = with_node send_generation

  -- A send to a nil channel never goes through.
  unfoldable pub finish : Step State (Unit {0})
  finish = with_node λ n. block

  unfoldable pub force_finish : Step State (Unit {0})
  unfolding set_node
  force_finish = with_node λ n. elim n.pm [
    | none ↦ set_node (record n { kill_status = task_finished }) >> panic
    | some p ↦ elim p [
      | pm_up ↦ set_node (record n { kill_status = task_finished; pm = some pm_over })
      | pm_over ↦ set_node (record n { kill_status = task_finished }) >> panic
    ]
  ]
