-- ===== src/Lib.antt =====
-- Riak on Mesos: a Mesos framework that runs clusters of Riak.
--
-- The scheduler (scheduler/) is a Mesos scheduler. It keeps clusters of Riak nodes in Zookeeper,
-- takes requests over HTTP, and answers the callbacks of the Mesos driver: it reserves parts of the
-- offers for its nodes, launches the nodes' tasks, follows the tasks' statuses, joins and removes
-- nodes of the Riak clusters through Riak Explorer (riak_explorer/), and a loop asks for lost
-- statuses, kills and removes nodes and restarts them one by one. The package common/ does the
-- bookkeeping of one offer. The executor (executor/) runs one task: it starts Riak through the process
-- manager (process_manager/), writes the node's address to Zookeeper through the metadata manager
-- (metadata_manager/), which the scheduler uses as well, and tells the master. Every handler of the
-- scheduler runs under one lock, so that each is modelled as a function of the whole state.
--
-- Files:
--   Base        helpers: lists, tests, integers, texts, maps, options
--   Mesos       the protocol messages and the helpers of mesosutil, which are a parameter
--   Common      common/utils.go (Ranges, Reserved) and common/offer.go (Offer): ArrayToRanges is
--               array_to_ranges, OfferHelper.apply is apply, and so on
--   Scheduler/ProcessState, Config, Node, Explorer, Cluster, Core, Offers, Reconcile, Server
--               scheduler/process_state/constants.go, the settings, scheduler/node.go, doJoin and
--               doLeave, scheduler/cluster.go, the state and the callbacks of scheduler/state.go and
--               scheduler/scheduler.go, ResourceOffers, scheduler/reconcilation.go and
--               scheduler/server.go, whose handlers meet in Server/Router, whose table of routes is
--               Server/Routes and whose calls of riak_explorer/client.go are in Server/Proxy
--   Scheduler/System
--               the callbacks, the requests, the ticks, the panics and the restarts as the steps of one
--               system, and what holds of the core after any of them
--   Scheduler/Start
--               NewSchedulerCore and Run, with scheduler/executor_golang.go and executor_erlang.go
--   RiakExplorer, RiakExplorer/Address, Reply
--               riak_explorer/client.go: its methods, the addresses they ask and their replies
--   Framework   framework/framework.go: the flags, the check of the name, main
--   Metadata/Namespace, Retry, Zookeeper, Manager, Tree
--               metadata_manager/manager.go and framework.go: the namespaces, the shape of the loops of
--               tries, the client of Zookeeper as a parameter, and the operations on one node and on several
--   ProcessManager, ProcessManager/Reaper
--               process_manager/manager.go (one round of its two loops is start_round and
--               background_round) and manager_reaper.go
--   ProcessManager/Start
--               process_manager/manager_linux.go
--   Executor, Executor/Coordination, Node, Callbacks
--               executor/node.go and executor/executor.go
--   Cepm        cepmd/cepm/cepm.go
--   Tests       the theorems at concrete inputs
-- Modules below these hold the theorems, by what they are about.
--
-- How the code is rendered:
--   * A method that mutates its receiver returns the new one. A panic or a nil dereference is `none`,
--     or an outcome that keeps the core as it is at that point; log.Fatal is the same.
--   * A map is an association list. A loop over a map runs in the list's order, so a theorem for all
--     lists holds for any order; keys that stand twice are ruled out where it matters.
--   * A text is a list of bytes. An amount (float64) is an integer of thousandths, the precision of
--     Mesos for scalars: the rounding of floats is not modelled. An int64 port is its 64-bit pattern;
--     the comparison and the sum of ports wrap as in Go.
--   * Times are nanoseconds, given to the functions that read the clock. A fresh UUID is an argument.
--   * The loop that reads a range of ports runs on fuel, as many rounds as the array has places; a
--     round more would index past its end, which is the panic of the code. doJoin and doLeave count the
--     tries that are left, as do the loops of the metadata manager: ten after the first. DeleteChildren
--     runs on fuel for the depth of its calls; more than the levels of nodes and the tries left is
--     enough.
--   * The process manager is a step relation: what a select picks is an event, clients put their sends
--     into queues, and the rounds of the start count down from sixty. What the kernel answers to a kill,
--     and whether the status of the process comes within five seconds, after SIGKILL or never,
--     is given with each event. The executor's callbacks may return, panic, end the process or never
--     return; what the files, ports and HTTP requests answer at a start is a record of Booleans.
--   * Code outside the repository is a parameter: mesosutil (with its documented behaviour as named
--     laws), the router of gorilla/mux, the random numbers, number parsing and JSON, the packed files, what the servers of Riak
--     Explorer respond to a GET and a PUT, the system calls, the Mesos driver's answers. To the scheduler a write to Zookeeper ends as written, refused or
--     unacknowledged; to the metadata manager the client of Zookeeper is a record of its calls over a
--     state, and what a theorem relies on is a record of laws for one node that no other client writes:
--     a persistent one, or an ephemeral one, which may go with its session at any call.
--   * What is read back from the store is what was written, but for the two fields of a node that JSON
--     leaves out. The encoding itself (JSON and zlib) is not modelled.
--
--   * A callback or a tick that panics ends the process, which is started again from the stored state. A
--     request that panics ends alone, as net/http recovers, and the state stays as it was left.
--
-- Not modelled: the parsing of flags, the listener, static files and debug pages, logging, watches of
-- Zookeeper, the pump of signals of the process manager, the executor's main, the listener and the
-- files of the port mapper (cepmd/), the Erlang modules, scripts and settings.
pub mod Base
pub mod Mesos
pub mod Common
pub mod Metadata
pub mod ProcessManager
pub mod Scheduler
pub mod Executor
pub mod RiakExplorer
pub mod Framework
pub mod Cepm
pub mod Tests
