-- ===== src/Mesos.antt =====
-- The protocol messages of github.com/mesos/mesos-go/mesosproto, cut down to the fields that the
-- program reads or writes, and the helpers of mesosutil, which are a parameter of the model.
-- An amount (float64) is an integer of thousandths, Mesos's own precision for scalar resources.
use riak_mesos_legacy.Base.{ℕ, ◌≡◌, Bool, Option, none, some, List, keep}
use riak_mesos_legacy.Base.Int.{ℤ, pos}
use riak_mesos_legacy.Base.Text.{Text, codes}

-- Both ends are uint64 and belong to the range.
pub record ValueRange : Type 0 where
  pub begin : ℕ
  pub end : ℕ

-- Resource_DiskInfo: the id of its persistence and the container path of its volume, where set.
pub record DiskInfo : Type 0 where
  pub persistence_id : Option Text
  pub container_path : Option Text

-- Resource_ReservationInfo.
pub record Reservation : Type 0 where
  pub principal : Option Text

pub record Resource : Type 0 where
  pub name : Text
  pub scalar : Option ℤ
  pub ranges : Option (List ValueRange)
  pub role : Option Text
  pub reservation : Option Reservation
  pub disk : Option DiskInfo

pub record Offer : Type 0 where
  pub id : Text
  pub slave_id : Option Text
  pub hostname : Text
  pub resources : List Resource

pub data TaskState : Type 0 where
  task_staging task_starting task_running task_finished : TaskState
  task_failed task_killed task_lost task_error : TaskState
  -- a value of the enumeration that the program does not name
  task_other : TaskState

pub record TaskStatus : Type 0 where
  pub task_id : Text
  pub state : TaskState
  pub slave_id : Option Text

-- ExecutorInfo and its CommandInfo: the URIs with their executable flags.
pub record ExecutorInfo : Type 0 where
  pub executor_id : Text
  pub name : Text
  pub source : Text
  pub value : Text
  pub uris : List (Text × Bool)
  pub shell : Bool
  pub arguments : List Text
  pub resources : List Resource

pub record TaskInfo : Type 0 where
  pub name : Text
  pub task_id : Text
  pub slave_id : Option Text
  pub executor : ExecutorInfo
  pub resources : List Resource
  pub task_data : Text

pub data OperationType : Type 0 where
  launch reserve unreserve create destroy other_operation : OperationType

-- Offer_Operation. `task_infos` is set on a launch, `resources` on the others.
pub record Operation : Type 0 where
  pub kind : OperationType
  pub task_infos : List TaskInfo
  pub resources : List Resource

-- github.com/mesos/mesos-go/mesosutil.
pub record MesosUtil : Type 0 where
  pub new_scalar_resource : Text → ℤ → Resource
  -- name, value, principal, role
  pub new_scalar_resource_with_reservation : Text → ℤ → Text → Text → Resource
  -- disk, container path, persistence id, principal, role; the mode is always read-write
  pub new_volume_resource_with_reservation : ℤ → Text → Text → Text → Text → Resource
  pub new_ranges_resource : Text → List ValueRange → Resource
  pub add_resource_reservation : Resource → Text → Text → Resource
  pub filter_resources : List Resource → (Resource → Bool) → List Resource
  pub new_launch_operation : List TaskInfo → Operation
  pub new_destroy_operation : List Resource → Operation
  pub new_unreserve_operation : List Resource → Operation
  pub new_reserve_operation : List Resource → Operation
  pub new_create_operation : List Resource → Operation

-- What the program relies on: the filter keeps the accepted resources in their order, and each
-- operation is of its kind and carries what it is given.
pub record IsMesosUtil (u : MesosUtil) : Type 0 where
  pub filters : (rs : List Resource) (p : Resource → Bool) → u.filter_resources rs p ≡ keep p rs
  pub launches : (ts : List TaskInfo) → (u.new_launch_operation ts).kind ≡ launch
  pub launches_tasks : (ts : List TaskInfo) → (u.new_launch_operation ts).task_infos ≡ ts
  pub destroys : (rs : List Resource) → (u.new_destroy_operation rs).kind ≡ destroy
  pub unreserves : (rs : List Resource) → (u.new_unreserve_operation rs).kind ≡ unreserve
  pub reserves : (rs : List Resource) → (u.new_reserve_operation rs).kind ≡ reserve
  pub creates : (rs : List Resource) → (u.new_create_operation rs).kind ≡ create
  pub ranges_name :
      (name : Text) (vs : List ValueRange) → (u.new_ranges_resource name vs).name ≡ name
  pub ranges_ranges :
      (name : Text) (vs : List ValueRange) → (u.new_ranges_resource name vs).ranges ≡ some vs
  pub scalar_name : (name : Text) (v : ℤ) → (u.new_scalar_resource name v).name ≡ name
  pub reserved_scalar_name :
      (name : Text) (v : ℤ) (principal role : Text)
      → (u.new_scalar_resource_with_reservation name v principal role).name ≡ name
  pub volume_name :
      (v : ℤ) (path id principal role : Text)
      → (u.new_volume_resource_with_reservation v path id principal role).name ≡ codes "disk"

-- The generated getters: an unset field reads as its zero value.
abbrev pub get_text : Option Text → Text
get_text none = List.[]
get_text (some t) = t

abbrev pub get_scalar : Resource → ℤ
get_scalar r = elim r.scalar [ none ↦ pos 0 | some v ↦ v ]

abbrev pub get_ranges : Resource → List ValueRange
get_ranges r = elim r.ranges [ none ↦ List.[] | some vs ↦ vs ]

abbrev pub is_set {ℓ} : {A : Type ℓ} → Option A → Bool
is_set none = Bool.false
is_set (some _) = Bool.true
