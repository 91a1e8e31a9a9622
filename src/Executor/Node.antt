-- ===== src/Executor/Node.antt =====
-- hfsm_executor_node.py: the state of the node, the callbacks that accept and cancel goals, and the
-- status message. Times are readings of the clock in nanoseconds.
use ss_prep.Base.{
  ℕ, ◌-ℤ◌, ℤ, pos, String, Bool, true, false, Option, none, some, List, if◌then◌else◌,
}
use ss_prep.Engine.World.{CancelToken, request, World}

-- `HfsmExecutionStatus`.
pub data Status : Type 0 where
  idle running success failure : Status

-- The calls that end a goal handle.
pub data Terminal : Type 0 where
  succeed canceled abort : Terminal

pub record Goal : Type 0 where
  pub subjob_id : String
  pub behavior_parameter_json : String
  pub userdata_in_json : String

pub record GoalResult : Type 0 where
  pub succeeded : Bool
  pub outcome : String
  pub message : String
  pub userdata_out_json : String

-- The object. `ended` has the calls that ended goals, the latest first.
pub record Executor : Type 0 where
  pub subjob_id : String
  pub active_state : String
  pub status : Status
  pub start_time : ℕ
  pub spec_json : String
  pub userdata_snapshot_json : String
  pub busy : Bool
  pub cancel_token : Option CancelToken
  pub world : World
  pub ended : List Terminal

-- Whether the goal is accepted.
unfoldable pub goal_callback : Executor → Bool
goal_callback e = if e.busy then false else true

unfoldable pub cancel_callback : Executor → Executor
unfolding request
cancel_callback e = elim e.cancel_token [
  | none ↦ e
  | some t ↦ record e { cancel_token = some (request t) }
]

-- The message of `_publish_status`, at the clock reading `now`.
pub record StatusMessage : Type 0 where
  pub subjob_id : String
  pub spec_json : String
  pub active_state : String
  pub userdata_snapshot_json : String
  pub status : Status
  pub start_time : ℕ
  pub elapsed : ℤ

unfoldable pub publish_status : ℕ → Executor → StatusMessage
publish_status now e = record {
  subjob_id = e.subjob_id;
  spec_json = e.spec_json;
  active_state = if e.busy then e.world.global_path else e.active_state;
  userdata_snapshot_json = e.userdata_snapshot_json;
  status = e.status;
  start_time = e.start_time;
  elapsed = elim e.status [ running ↦ pos now -ℤ pos e.start_time | _ ↦ pos 0 ];
}
