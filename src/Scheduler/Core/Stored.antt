-- ===== src/Scheduler/Core/Stored.antt =====
-- Persist (scheduler/state.go) over SetData (metadata_manager/manager.go).
use riak_mesos_legacy.Base.{◌≡◌, refl, inl, inr, Option, some}
use riak_mesos_legacy.Base.Text.{Text}
use riak_mesos_legacy.Metadata.Namespace.{get_zk_path}
use riak_mesos_legacy.Metadata.Zookeeper.{Zk}
use riak_mesos_legacy.Metadata.Zookeeper.Laws.{Owned}
use riak_mesos_legacy.Metadata.Retry.{Ran, returned, panicked}
use riak_mesos_legacy.Metadata.Retry.Laws.{Ends, ends, breaks}
use riak_mesos_legacy.Metadata.Manager.{ZkNode, set_data as set_node_data}
use riak_mesos_legacy.Metadata.Manager.Writes.{Between, set_data-Ends}
use riak_mesos_legacy.Scheduler.Core.{
  SchedulerState, Core, Outcome, done, panics, exported, Write, written, refused, unacknowledged,
  set_data,
}

-- The scheduler's node: where nothing else writes it, and how the state is written as bytes.
module _ (z : Zk) (n : ZkNode) (o : Owned z (get_zk_path n.ns)) (encode : SchedulerState → Text)
    (decode : Text → Option SchedulerState) where
  -- What the node holds is read as what the core says is stored.
  abbrev pub IsStored : z.State → Core → Type 0
  IsStored s core = (t : Text) × (o.at s ≡ some t) × (decode t ≡ some core.stored)

  -- The two outcomes are the same, and so is what they leave stored.
  pub data Agrees : Ran z.State ZkNode → Outcome (Unit {0}) → Type 0 where
    both_return :
        {s : z.State} {n' : ZkNode} {core : Core}
        → IsStored s core
        → Agrees (returned s n') (done core tt)
    both_panic : {s : z.State} {core : Core} → IsStored s core → Agrees (panicked s) (panics core)

  agree :
      (core : Core) (old : Text) (r : Ran z.State ZkNode)
      → decode old ≡ some core.stored
      → decode (encode core.state) ≡ some (exported core.state)
      → Ends
          (λ s' _. o.at s' ≡ some (encode core.state))
          (λ s'. Between (some old) (encode core.state) (o.at s'))
          r
      → (w : Write) × Agrees r (set_data w core)
  unfolding set_data
  agree core old (returned s' n') d c (ends h) = (written, both_return (encode core.state, h, c))
  agree core old (panicked s') d c (breaks (inl h)) = (refused, both_panic (old, h, d))
  agree core old (panicked s') d c (breaks (inr h)) =
      (unacknowledged, both_panic (encode core.state, h, c))

  -- Where the node holds what the core says is stored, and the state is read back from its bytes as
  -- exported, SetData ends as one of the three writes of Core does, and leaves in the node what that
  -- write leaves stored.
  pub set_data_refines :
      (s : z.State) (core : Core)
      → IsStored s core
      → decode (encode core.state) ≡ some (exported core.state)
      → (w : Write) × Agrees (set_node_data z (encode core.state) n s) (set_data w core)
  set_data_refines s core (old, h, d) c =
      agree core old (set_node_data z (encode core.state) n s) d c
        (set_data-Ends z n.ns o (encode core.state) (some old) s n h refl)
