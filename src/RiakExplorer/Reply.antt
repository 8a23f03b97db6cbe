-- ===== src/RiakExplorer/Reply.antt =====
-- The replies of riak_explorer/client.go, and what an empty reply is.
use riak_mesos_legacy.Base.{ℕ, Bool, false, List, []}
use riak_mesos_legacy.Base.Int.{ℤ, pos}
use riak_mesos_legacy.Base.Text.{Text, codes}

pub record Links : Type 0 where
  pub self : Text
  pub related : Text

abbrev pub no_links : Links
no_links = record { self = []; related = [] }

-- The replies with the fields `success` and `error`, which differ by the key they stand under.
pub record Changed (key : Text) : Type 0 where
  pub success : Text
  pub error : Text
  pub links : Links

abbrev pub no_change : {key : Text} → Changed key
no_change = record { success = []; error = []; links = no_links }

abbrev pub JoinReply : Type 0
JoinReply = Changed (codes "join")

abbrev pub StagedJoinReply : Type 0
StagedJoinReply = Changed (codes "staged-join")

abbrev pub LeaveReply : Type 0
LeaveReply = Changed (codes "leave")

abbrev pub StagedLeaveReply : Type 0
StagedLeaveReply = Changed (codes "staged-leave")

abbrev pub ForceRemoveReply : Type 0
ForceRemoveReply = Changed (codes "force-remove")

abbrev pub ReplaceReply : Type 0
ReplaceReply = Changed (codes "replace")

abbrev pub StagedReplaceReply : Type 0
StagedReplaceReply = Changed (codes "staged-replace")

abbrev pub ForceReplaceReply : Type 0
ForceReplaceReply = Changed (codes "force-replace")

abbrev pub CommitReply : Type 0
CommitReply = Changed (codes "commit")

abbrev pub ClearReply : Type 0
ClearReply = Changed (codes "clear")

pub record PingReply : Type 0 where
  pub id : Text
  pub message : Text
  pub links : Links

abbrev pub no_ping : PingReply
no_ping = record { id = []; message = []; links = no_links }

pub record NodeChangeReply : Type 0 where
  pub node : Text
  pub action : Text
  pub target : Text

pub record PlanReply : Type 0 where
  pub changes : List NodeChangeReply
  pub error : Text
  pub links : Links

abbrev pub no_plan : PlanReply
no_plan = record { changes = []; error = []; links = no_links }

pub record RepairReply : Type 0 where
  pub success : ℤ
  pub error : ℤ
  pub links : Links

abbrev pub no_repair : RepairReply
no_repair = record { success = pos 0; error = pos 0; links = no_links }

-- A `float32` is given by its 32 bits.
pub record NodeStatusReply : Type 0 where
  pub id : Text
  pub status : Text
  pub ring_percentage : ℕ
  pub pending_percentage : ℕ

pub record StatusReply : Type 0 where
  pub nodes : List NodeStatusReply
  pub valid : ℤ
  pub leaving : ℤ
  pub exiting : ℤ
  pub joining : ℤ
  pub down : ℤ
  pub links : Links

abbrev pub no_status : StatusReply
no_status = record {
  nodes = [];
  valid = pos 0;
  leaving = pos 0;
  exiting = pos 0;
  joining = pos 0;
  down = pos 0;
  links = no_links;
}

pub record RingReadyReply : Type 0 where
  pub ready : Bool
  pub nodes : List Text
  pub error : Text
  pub links : Links

abbrev pub no_ring_ready : RingReadyReply
no_ring_ready = record { ready = false; nodes = []; error = []; links = no_links }

-- `json.Unmarshal` of a body into an empty reply, whose error the client ignores: what the reply
-- holds afterwards.
pub record Json : Type 0 where
  pub changed : (key : Text) → Text → Changed key
  pub ping : Text → PingReply
  pub plan : Text → PlanReply
  pub repair : Text → RepairReply
  pub status : Text → StatusReply
  pub ring_ready : Text → RingReadyReply
