-- ===== src/Executor/Goals.antt =====
-- What `_execute_goal` returns, and what it leaves behind.
use ss_prep.Base.{
  ◌≡◌, refl, String, Bool, true, false, List, [], ◌∷◌, contains, if◌then◌else◌, Dict, Value, Result,
  ok, raise, Result-cases, Bool-cases, inl, inr,
}
use ss_prep.Engine.SubJob.{class_name_of, run_state}
use ss_prep.Executor.Node.{
  success, failure, Terminal, succeed, canceled, abort, Goal, GoalResult, Executor,
}
use ss_prep.Executor.Builder.{Env, safe_json_loads, dumps, build_subjob}
use ss_prep.Executor.Dispatch.{
  success_outcomes, is_cancelled, begin, finish_failure, finish_cancelled, finish_outcome,
  publish_spec, finish, run_args, run_subjob, dispatch, execute_goal,
}

unfoldable pub is_succeed : Terminal → Bool
is_succeed succeed = true
is_succeed _ = false

-- The goal is over: the node is free, exactly one more call has ended a goal handle, and the call,
-- the result and the published status agree.
pub record IsOver (before : List Terminal) (r : Result GoalResult) (e : Executor) : Type 0 where
  pub result : GoalResult
  pub returned : r ≡ ok result
  pub free : e.busy ≡ false
  pub ending : Terminal
  pub ended_once : e.ended ≡ ending ∷ before
  pub succeeds : is_succeed ending ≡ result.succeeded
  pub published : e.status ≡ (if result.succeeded then success else failure)
  pub snapshot : e.userdata_snapshot_json ≡ result.userdata_out_json

succeeds_iff : (b : Bool) → is_succeed (if b then succeed else abort) ≡ b
unfolding is_succeed
succeeds_iff true = refl
succeeds_iff false = refl

module _ (env : Env) (encodes : (d : Dict Value) → (s : String) × (dumps env d ≡ ok s)) where
  finish_failure-IsOver :
      (outcome message : String) (e : Executor)
      → IsOver e.ended
          (finish_failure env outcome message e).0
          (finish_failure env outcome message e).1
  unfolding finish_failure is_succeed
  finish_failure-IsOver outcome message e =
      let (s, h) = encodes [] in
      rw (h, finish_failure)
        (record {
          result = _;
          returned = refl;
          free = refl;
          ending = abort;
          ended_once = refl;
          succeeds = refl;
          published = refl;
          snapshot = refl;
        })

  finish_cancelled-IsOver :
      (class_name : String) (e : Executor)
      → IsOver e.ended (finish_cancelled env class_name e).0 (finish_cancelled env class_name e).1
  unfolding finish_cancelled is_succeed
  finish_cancelled-IsOver class_name e =
      let (s, h) = encodes [] in
      rw (h, finish_cancelled)
        (record {
          result = _;
          returned = refl;
          free = refl;
          ending = canceled;
          ended_once = refl;
          succeeds = refl;
          published = refl;
          snapshot = refl;
        })

  finish_outcome-IsOver :
      (id outcome : String) (userdata : Dict Value) (e : Executor)
      → IsOver e.ended
          (finish_outcome env id outcome userdata e).0
          (finish_outcome env id outcome userdata e).1
  unfolding finish_outcome
  finish_outcome-IsOver id outcome userdata e =
      let (s, h) = encodes userdata in
      rw (h, finish_outcome)
        (record {
          result = _;
          returned = refl;
          free = refl;
          ending = _;
          ended_once = refl;
          succeeds = succeeds_iff (contains success_outcomes outcome);
          published = refl;
          snapshot = refl;
        })

  finish-IsOver :
      (id class_name : String) (r : Result (String × Dict Value)) (e : Executor)
      → IsOver e.ended (finish env id class_name r e).0 (finish env id class_name r e).1
  unfolding finish
  finish-IsOver id class_name (ok (o, ud)) e = finish_outcome-IsOver id o ud e
  finish-IsOver id class_name (raise x) e = elim (Bool-cases (is_cancelled x)) [
    | inl cancelled ↦ rw (cancelled, finish) (finish_cancelled-IsOver class_name e)
    | inr failed ↦ rw (failed, finish) (finish_failure-IsOver _ _ e)
  ]

  dispatch-IsOver :
      (id : String) (bp ud : Dict Value) (e : Executor)
      → IsOver e.ended (dispatch env id bp ud e).0 (dispatch env id bp ud e).1
  unfolding dispatch run_subjob publish_spec
  dispatch-IsOver id bp ud e = elim (Result-cases (build_subjob env id)) [
    | inl (b, built) ↦
        rw (built, dispatch)
          (finish-IsOver id (class_name_of b) (run_state b (run_args env id bp ud) e.world).0
            (record (publish_spec env b e) {
              world = (run_state b (run_args env id bp ud) e.world).1;
            }))
    | inr (x, error) ↦ rw (error, dispatch) (finish_failure-IsOver _ _ e)
  ]

  -- Where every userdata has a JSON text: each goal, whatever the build and the run raise, ends with
  -- the node free again and exactly one call that ends the handle. The call is `succeed` exactly if
  -- the result says so, and the published status and snapshot agree with the result.
  pub execute_goal-IsOver :
      (goal : Goal) (e : Executor)
      → IsOver e.ended (execute_goal env goal e).0 (execute_goal env goal e).1
  unfolding execute_goal begin
  execute_goal-IsOver goal e =
      let ud = safe_json_loads env goal.userdata_in_json in
      let (s, h) = encodes ud in
      rw (h, begin)
        (dispatch-IsOver goal.subjob_id (safe_json_loads env goal.behavior_parameter_json) ud _)
