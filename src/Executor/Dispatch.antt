-- ===== src/Executor/Dispatch.antt =====
-- hfsm_executor_node.py: `_execute_goal`, from its start over the run to one of its ends.
use Prim.Native.String
use ss_prep.Base.{
  String, Bool, true, false, none, some, List, [], ◌∷◌, contains, if◌then◌else◌, Dict, Value, Exc,
  cancelled_error, Result, ok, raise, Action, ◌>>◌,
}
use ss_prep.Engine.World.{new_token}
use ss_prep.Engine.Tree.{State}
use ss_prep.Engine.Behavior.{RunArgs}
use ss_prep.Engine.SubJob.{class_name_of, run_state}
use ss_prep.Engine.Spec.Write.{to_spec}
use ss_prep.Executor.Node.{
  running, success, failure, succeed, canceled, abort, Goal, GoalResult, Executor,
}
use ss_prep.Executor.Builder.{Env, safe_json_loads, dumps, build_subjob}

abbrev pub success_outcomes : List String
success_outcomes = "done" ∷ "succeeded" ∷ []

-- Which `except` clause takes an exception of `run`.
unfoldable pub is_cancelled : Exc → Bool
is_cancelled cancelled_error = true
is_cancelled _ = false

module _ (env : Env) where
  -- The start of `_execute_goal`, under the lock.
  unfoldable pub begin : String → Dict Value → Action Executor (Unit {0})
  begin id userdata_in e =
      let claimed = record e { busy = true; subjob_id = id; status = running; active_state = "" } in
      elim (dumps env userdata_in) [
        | raise x ↦ (raise x, claimed)
        | ok s ↦ (
          ok tt,
          record claimed {
            userdata_snapshot_json = s;
            spec_json = "";
            start_time = env.now;
            cancel_token = some new_token;
          },
        )
      ]

  unfoldable pub finish_failure : String → String → Action Executor GoalResult
  finish_failure outcome message e =
      let failed = record e { busy = false; status = failure } in
      elim (dumps env []) [
        | raise x ↦ (raise x, failed)
        | ok s ↦ (
          ok (record {
            succeeded = false;
            outcome = outcome;
            message = message;
            userdata_out_json = s;
          }),
          record failed { userdata_snapshot_json = s; ended = abort ∷ e.ended },
        )
      ]

  -- `except CancelledError`.
  unfoldable pub finish_cancelled : String → Action Executor GoalResult
  finish_cancelled class_name e = elim (dumps env []) [
    | raise x ↦ (raise x, e)
    | ok s ↦ (
      ok (record {
        succeeded = false;
        outcome = "canceled";
        message = "SubJob canceled by client";
        userdata_out_json = s;
      }),
      record e {
        busy = false;
        status = failure;
        userdata_snapshot_json = s;
        active_state = String.◌++◌ class_name " → canceled";
        cancel_token = none;
        ended = canceled ∷ e.ended;
      },
    )
  ]

  -- From `succeeded = outcome in _SUCCESS_OUTCOMES` on.
  unfoldable pub finish_outcome : String → String → Dict Value → Action Executor GoalResult
  finish_outcome id outcome userdata_out e =
      let succeeded = contains success_outcomes outcome in
      let over = record e { busy = false; status = if succeeded then success else failure } in
      elim (dumps env userdata_out) [
        | raise x ↦ (raise x, over)
        | ok s ↦ (
          ok (record {
            succeeded = succeeded;
            outcome = outcome;
            message = if succeeded then "ok" else String.◌++◌ "outcome=" outcome;
            userdata_out_json = s;
          }),
          record over {
            userdata_snapshot_json = s;
            active_state = String.◌++◌ id (String.◌++◌ " → " outcome);
            cancel_token = none;
            ended = (if succeeded then succeed else abort) ∷ e.ended;
          },
        )
      ]

  -- The spec for the status message; empty where there is none.
  unfoldable pub publish_spec : State → Executor → Executor
  unfolding to_spec
  publish_spec b e = record e {
    spec_json = elim (env.dumps (to_spec b)) [ ok s ↦ s | raise x ↦ "" ];
  }

  unfoldable pub finish :
      String → String → Result (String × Dict Value) → Action Executor GoalResult
  unfolding finish_failure finish_cancelled finish_outcome
  finish id class_name (ok (outcome, userdata_out)) = finish_outcome id outcome userdata_out
  finish id class_name (raise x) =
      if is_cancelled x
      then finish_cancelled class_name
      else finish_failure "exception" (env.repr_of x)

  unfoldable pub run_args : String → Dict Value → Dict Value → RunArgs
  run_args id behavior_parameter userdata_in = record {
    behavior_parameter = some behavior_parameter;
    userdata_in = some userdata_in;
    cancel_token = some new_token;
    root_name = some id;
  }

  unfoldable pub run_subjob : String → Dict Value → Dict Value → State → Action Executor GoalResult
  unfolding run_state finish run_args
  run_subjob id behavior_parameter userdata_in b e =
      let (r, w) = run_state b (run_args id behavior_parameter userdata_in) e.world in
      finish id (class_name_of b) r (record e { world = w })

  unfoldable pub dispatch : String → Dict Value → Dict Value → Action Executor GoalResult
  unfolding build_subjob publish_spec run_subjob finish_failure
  dispatch id behavior_parameter userdata_in e = elim (build_subjob env id) [
    | raise x ↦ finish_failure "build_error" (env.str_of x) e
    | ok b ↦ run_subjob id behavior_parameter userdata_in b (publish_spec b e)
  ]

  unfoldable pub execute_goal : Goal → Action Executor GoalResult
  unfolding safe_json_loads begin dispatch
  execute_goal goal =
      let behavior_parameter = safe_json_loads env goal.behavior_parameter_json in
      let userdata_in = safe_json_loads env goal.userdata_in_json in
      begin goal.subjob_id userdata_in >> dispatch goal.subjob_id behavior_parameter userdata_in
