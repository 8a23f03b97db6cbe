-- ===== src/Scheduler/Node/Launch.antt =====
-- ApplyReservedOffer of scheduler/node.go outside the compatibility mode: what a launch takes of an
-- offer, and the ports that the task is given.
use mathlib.Core.List.{Perm}
use riak_mesos_legacy.Base.{ℕ, ◌≡◌, List, [], ◌∷◌, ◌++◌, some, length}
use riak_mesos_legacy.Mesos.{Resource, TaskInfo}
use riak_mesos_legacy.Common.Ranges.{port_iterator}
use riak_mesos_legacy.Common.Ranges.Sorted.{Ascending}
use riak_mesos_legacy.Common.Offer.{ResourceGroup, OfferHelper, nobody}
use riak_mesos_legacy.Common.Offer.Asked.{amounts, ports_of_ask}
use riak_mesos_legacy.Common.Offer.Apply.{IsCharged}
use riak_mesos_legacy.Scheduler.ProcessState.{starting}
use riak_mesos_legacy.Scheduler.Config.{Config, Outside}
use riak_mesos_legacy.Scheduler.Node.{
  Node, current_id, executor_ask, node_ask, ports_ask_of, owner, launched, make_task_data,
  make_task_info,
}

-- What the launch of `n` on an offer is made of: the task has the node's amounts, reserved for its
-- owner, and a resource from which its ports are read, and the executor has its own amounts.
pub record IsLaunched (sc : Config) (out : Outside) (n : Node) (h : OfferHelper) (n' : Node)
    (h' : OfferHelper) : Type 0 where
  pub charged : IsCharged h.reserved_resources h'.reserved_resources (node_ask n 0)
  pub charged_unreserved :
      IsCharged h.unreserved_resources h'.unreserved_resources
        (record executor_ask { ports = n.ports })
  pub ports : List ℕ
  pub ports_perm : Perm (ports ++ h'.unreserved_resources.ports) h.unreserved_resources.ports
  pub ports_ascending : Ascending ports
  pub ports_many : length ports ≡ n.ports
  pub task_data : n'.task_data ≡ make_task_data sc (launched n h.mesos_offer) ports
  pub state : n'.current_state ≡ starting
  pub taking : List ℕ
  pub ports_read :
      port_iterator out.util (ports_of_ask out.util out.intn (ports_ask_of n) taking nobody)
      ≡ some ports
  pub task : TaskInfo
  pub added : h'.tasks_to_launch ≡ h.tasks_to_launch ++ task ∷ []
  pub task_id : task.task_id ≡ current_id n
  pub task_slave : task.slave_id ≡ h.mesos_offer.slave_id
  pub task_resources :
      task.resources
      ≡ amounts out.util out.intn (node_ask n 0) (owner n)
        ++ ports_of_ask out.util out.intn (ports_ask_of n) taking nobody
  pub executor_resources : task.executor.resources ≡ amounts out.util out.intn executor_ask nobody
  pub data_sent : task.task_data ≡ out.marshal n'.task_data

abbrev launched_with : Config → Node → OfferHelper → List ℕ → Node
launched_with sc n h ports = record (launched n h.mesos_offer) {
  task_data = make_task_data sc (launched n h.mesos_offer) ports;
}

abbrev launched_from :
    Config
    → Outside
    → Node
    → OfferHelper
    → ResourceGroup
    → ResourceGroup
    → List Resource
    → List Resource
    → OfferHelper
launched_from sc out n h reserved unreserved task_ask exec_ask = record h {
  reserved_resources = reserved;
  unreserved_resources = unreserved;
  tasks_to_launch = h.tasks_to_launch ++ make_task_info sc out n task_ask exec_ask ∷ [];
}
