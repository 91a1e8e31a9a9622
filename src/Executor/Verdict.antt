-- ===== src/Executor/Verdict.antt =====
-- hfsm_executor_node.py: whether a goal succeeds.
use ss_prep.Base.{
  ◌≡◌, inl, inr, String, Bool, false, [], arith, contains, Dict, Value, Bool-cases, Result, ok,
  raise, Result-cases,
}
use ss_prep.Engine.World.{World}
use ss_prep.Engine.Tree.{State}
use ss_prep.Engine.SubJob.{class_name_of, run_state}
use ss_prep.Executor.Node.{Goal, GoalResult, Executor}
use ss_prep.Executor.Builder.{Env, safe_json_loads, dumps, build_subjob}
use ss_prep.Executor.Dispatch.{
  success_outcomes, is_cancelled, begin, finish_failure, finish_cancelled, finish_outcome,
  publish_spec, finish, run_args, run_subjob, dispatch, execute_goal,
}

-- A run that returned one of the outcomes that count as success.
abbrev pub ran_well : Result (String × Dict Value) → Bool
ran_well (ok (outcome, userdata)) = contains success_outcomes outcome
ran_well (raise x) = false

-- A SubJob that can be built and runs well, with these parameters and this userdata.
abbrev pub built_well : Env → String → Dict Value → Dict Value → World → Result State → Bool
built_well env id bp ud w (ok b) = ran_well (run_state b (run_args env id bp ud) w).0
built_well env id bp ud w (raise x) = false

-- The result says that the goal succeeded exactly if this holds.
abbrev pub Says : Result GoalResult → Bool → Type 0
Says r b = (result : GoalResult) → r ≡ ok result → result.succeeded ≡ b

module _ (env : Env) (encodes : (d : Dict Value) → (s : String) × (dumps env d ≡ ok s)) where
  finish_failure-Says :
      (outcome message : String) (e : Executor)
      → Says (finish_failure env outcome message e).0 false
  unfolding finish_failure
  finish_failure-Says outcome message e result h =
      let (s, encoded) = encodes [] in ground (arith, encoded)

  finish-Says :
      (id class_name : String) (r : Result (String × Dict Value)) (e : Executor)
      → Says (finish env id class_name r e).0 (ran_well r)
  unfolding finish finish_outcome finish_cancelled
  finish-Says id class_name (ok (o, ud)) e result h =
      let (s, encoded) = encodes ud in ground (arith, encoded)
  finish-Says id class_name (raise x) e result h = elim (Bool-cases (is_cancelled x)) [
    | inl cancelled ↦ let (s, encoded) = encodes [] in ground (arith, encoded, cancelled)
    | inr failed ↦ finish_failure-Says _ _ e result (rw (failed, finish) at h)
  ]

  dispatch-Says :
      (id : String) (bp ud : Dict Value) (e : Executor)
      → Says (dispatch env id bp ud e).0 (built_well env id bp ud e.world (build_subjob env id))
  unfolding dispatch run_subjob publish_spec
  dispatch-Says id bp ud e result h = elim (Result-cases (build_subjob env id)) [
    | inl (b, built) ↦ rw (built) (
        finish-Says id (class_name_of b) (run_state b (run_args env id bp ud) e.world).0
          (record (publish_spec env b e) {
            world = (run_state b (run_args env id bp ud) e.world).1;
          })
          result (rw (built, dispatch) at h))
    | inr (x, error) ↦ rw (error) (finish_failure-Says _ _ e result (rw (error, dispatch) at h))
  ]

  pub execute_goal-Says :
      (goal : Goal) (e : Executor)
      → Says (execute_goal env goal e).0 (
          built_well env goal.subjob_id
            (safe_json_loads env goal.behavior_parameter_json)
            (safe_json_loads env goal.userdata_in_json)
            e.world
            (build_subjob env goal.subjob_id))
  unfolding execute_goal begin
  execute_goal-Says goal e result h =
      let ud = safe_json_loads env goal.userdata_in_json in
      let (s, encoded) = encodes ud in
      dispatch-Says goal.subjob_id (safe_json_loads env goal.behavior_parameter_json) ud _ result
        (rw (encoded, begin) at h)
