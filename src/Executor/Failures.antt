-- ===== src/Executor/Failures.antt =====
-- What a success of a goal rests on.
use ss_prep.Base.{
  ◌≡◌, refl, inl, inr, String, true, false, [], arith, contains, Dict, Value, Bool-cases, Result,
  ok, raise, Result-cases,
}
use ss_prep.Engine.Tree.{State}
use ss_prep.Engine.SubJob.{class_name_of, run_state}
use ss_prep.Executor.Node.{Goal, GoalResult, Executor}
use ss_prep.Executor.Builder.{Env, safe_json_loads, dumps, build_subjob}
use ss_prep.Executor.Dispatch.{
  success_outcomes, is_cancelled, begin, finish_failure, finish_cancelled, finish_outcome,
  publish_spec, finish, run_args, run_subjob, dispatch, execute_goal,
}

-- A run returned an outcome that counts as success, and its userdata is what the result carries.
abbrev pub HasRun : Env → Result (String × Dict Value) → GoalResult → Type 0
HasRun env r result =
    (outcome : String) × (userdata : Dict Value) × (r ≡ ok (outcome, userdata))
    × (contains success_outcomes outcome ≡ true)
    × (dumps env userdata ≡ ok result.userdata_out_json)

module _ (env : Env) where
  finish_failure_fails :
      (outcome message : String) (e : Executor) (result : GoalResult)
      → (finish_failure env outcome message e).0 ≡ ok result
      → result.succeeded ≡ false
  unfolding finish_failure
  finish_failure_fails outcome message e result h = elim (Result-cases (dumps env [])) [
    | inl (s, encoded) ↦ ground (arith, encoded)
    | inr (x, error) ↦ ground (arith, error)
  ]

  finish_cancelled_fails :
      (class_name : String) (e : Executor) (result : GoalResult)
      → (finish_cancelled env class_name e).0 ≡ ok result
      → result.succeeded ≡ false
  unfolding finish_cancelled
  finish_cancelled_fails class_name e result h = elim (Result-cases (dumps env [])) [
    | inl (s, encoded) ↦ ground (arith, encoded)
    | inr (x, error) ↦ ground (arith, error)
  ]

  finish-HasRun :
      (id class_name : String) (r : Result (String × Dict Value)) (e : Executor)
      (result : GoalResult)
      → (finish env id class_name r e).0 ≡ ok result
      → result.succeeded ≡ true
      → HasRun env r result
  unfolding finish finish_outcome
  finish-HasRun id class_name (ok (o, ud)) e result h counts = elim (Result-cases (dumps env ud)) [
    | inl (s, encoded) ↦ (o, ud, refl, ground (arith, encoded), ground (arith, encoded))
    | inr (x, error) ↦ absurd (ground (arith, error))
  ]
  finish-HasRun id class_name (raise x) e result h counts = elim (Bool-cases (is_cancelled x)) [
    | inl cancelled ↦ absurd (ground (arith, cancelled, finish_cancelled_fails class_name e result))
    | inr failed ↦ absurd (ground (arith, failed, finish_failure_fails _ _ e result))
  ]

  dispatch-HasRun :
      (id : String) (bp ud : Dict Value) (e : Executor) (result : GoalResult)
      → (dispatch env id bp ud e).0 ≡ ok result
      → result.succeeded ≡ true
      → (b : State) × (build_subjob env id ≡ ok b)
        × HasRun env (run_state b (run_args env id bp ud) e.world).0 result
  unfolding dispatch run_subjob publish_spec
  dispatch-HasRun id bp ud e result h counts = elim (Result-cases (build_subjob env id)) [
    | inl (b, built) ↦ (
      b,
      built,
      finish-HasRun id (class_name_of b) (run_state b (run_args env id bp ud) e.world).0
          (record (publish_spec env b e) {
            world = (run_state b (run_args env id bp ud) e.world).1;
          })
          result (rw (built, dispatch) at h) counts,
    )
    | inr (x, error) ↦
        absurd (ground (arith, finish_failure_fails _ _ e result (rw (error, dispatch) at h)))
  ]

  -- A goal succeeds only if its SubJob was built, and its run returned `done` or `succeeded`; the
  -- result then carries the userdata that the run returned.
  pub execute_goal-HasRun :
      (goal : Goal) (e : Executor) (result : GoalResult)
      → (execute_goal env goal e).0 ≡ ok result
      → result.succeeded ≡ true
      → (b : State) × (build_subjob env goal.subjob_id ≡ ok b)
        × HasRun env
            (run_state b
              (run_args env goal.subjob_id
                (safe_json_loads env goal.behavior_parameter_json)
                (safe_json_loads env goal.userdata_in_json))
              e.world).0
            result
  unfolding execute_goal begin
  execute_goal-HasRun goal e result h counts =
      let ud = safe_json_loads env goal.userdata_in_json in
      elim (Result-cases (dumps env ud)) [
        | inl (s, encoded) ↦
            dispatch-HasRun goal.subjob_id (safe_json_loads env goal.behavior_parameter_json) ud _
              result (rw (encoded, begin) at h) counts
        | inr (x, error) ↦ absurd (ground (arith, error))
      ]
