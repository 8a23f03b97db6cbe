-- ===== src/Metadata/Zookeeper.antt =====
-- github.com/samuel/go-zookeeper/zk as metadata_manager/manager.go calls it: a parameter of the model.
-- `State` is that of the ensemble and of the connection, which the calls pass on.
pub mod Laws
use riak_mesos_legacy.Base.{ℕ, Bool, List, Option}
use riak_mesos_legacy.Base.Text.{Text}

pub data ZkError : Type 0 where
  no_node node_exists bad_version connection_lost : ZkError

-- What Get answers: data, stat and error. The pointer to the stat may be nil, also next to an error;
-- of the stat only the version is read.
pub record Got : Type 0 where
  pub data_read : Text
  pub stat : Option ℕ
  pub error : Option ZkError

-- The states of a connection that CreateConnection tells apart.
pub data ConnState : Type 0 where
  no_connection connected has_session connecting other_state : ConnState

pub record Zk : Type 1 where
  pub State : Type 0
  pub get : Text → State → State × Got
  -- path, data, version; the new stat and the error
  pub set : Text → Text → ℕ → State → State × (Option ℕ × Option ZkError)
  -- path, data, whether the node is ephemeral
  pub create : Text → Text → Bool → State → State × Option ZkError
  pub exists : Text → State → State × (Bool × Option ZkError)
  pub children : Text → State → State × (List Text × Option ZkError)
  -- of any version
  pub delete : Text → State → State × Option ZkError
  -- `zk.NewLock(conn, path, acl).Lock()`
  pub lock : Text → State → State × Option ZkError
  pub conn_state : State → ConnState
  pub close : State → State
  pub connect : State → State × Option ZkError
