-- ===== src/Rcs/Ordered.antt =====
-- From an order to the state that shows how it ended: the bridge, the executor, and the status message
-- between them. The topic and the action deliver what they are given.
use ss_prep.Base.{
  Option, false, ℕ, ◌≡◌, refl, ◌∙◌, ap, arith, String, true, Result-cases, inl, inr, none, some,
  Dict, Value, dict, end, of_dict, pos, Result, ok, raise, ◌==◌, if◌then◌else◌,
}
use ss_prep.Engine.World.{World}
use ss_prep.Executor.Node.{
  success, failure, Goal, GoalResult, Executor, StatusMessage, goal_callback, publish_status,
}
use ss_prep.Executor.Builder.{Env, safe_json_loads, dumps, build_subjob}
use ss_prep.Executor.Dispatch.{
  begin, finish_failure, finish_cancelled, finish_outcome, publish_spec, finish, run_subjob,
  dispatch, execute_goal,
}
use ss_prep.Executor.Goals.{execute_goal-IsOver}
use ss_prep.Executor.Verdict.{built_well, execute_goal-Says}
use ss_prep.Rcs.Schema.{OrderRequest, StateSnapshot}
use ss_prep.Rcs.Orders.{submit_order_sent}
use ss_prep.Rcs.Bridge.{
  SentGoal, StatusReport, Bridge, Outside, on_status, chosen_id, register_order, encode,
  submit_order, status_label, snapshot,
}

-- The goal that the executor gets.
unfoldable pub delivered : SentGoal → Goal
delivered g = record {
  subjob_id = g.subjob_id;
  behavior_parameter_json = g.behavior_parameter_json;
  userdata_in_json = g.userdata_in_json;
}

-- The action server of the executor: an accepted goal runs, and a rejected one has no result.
unfoldable pub handle_goal : Env → SentGoal → Executor → Option (Result GoalResult) × Executor
unfolding goal_callback
handle_goal env g e =
    if goal_callback e
    then (let (r, e') = execute_goal env (delivered g) e in (some r, e'))
    else (none, e)

-- A node that is free runs the goal.
handle_goal_free :
    (env : Env) (g : SentGoal) (e : Executor)
    → e.busy ≡ false
    → handle_goal env g e
      ≡ (some (execute_goal env (delivered g) e).0, (execute_goal env (delivered g) e).1)
unfolding handle_goal
handle_goal_free env g e free = rw (free) refl

-- The status message as the bridge reads it.
unfoldable pub report : StatusMessage → StatusReport
report m = record {
  subjob_id = m.subjob_id;
  status = m.status;
  active_state = m.active_state;
  userdata_snapshot_json = m.userdata_snapshot_json;
  elapsed_sec = m.elapsed;
}

-- The executor keeps the id of the goal to its end.
module _ (env : Env) where
  subjob_id-finish :
      (id class_name : String) (r : Result (String × Dict Value)) (e : Executor)
      → (finish env id class_name r e).1.subjob_id ≡ e.subjob_id
  unfolding finish finish_outcome finish_cancelled finish_failure
  subjob_id-finish id class_name (ok (o, ud)) e = ground arith
  subjob_id-finish id class_name (raise x) e = ground arith

  subjob_id-dispatch :
      (id : String) (bp ud : Dict Value) (e : Executor)
      → (dispatch env id bp ud e).1.subjob_id ≡ e.subjob_id
  unfolding dispatch run_subjob publish_spec finish_failure
  subjob_id-dispatch id bp ud e = elim (Result-cases (build_subjob env id)) [
    | inl (b, built) ↦ rw (built, dispatch) (subjob_id-finish id _ _ _)
    | inr (x, error) ↦ rw (error, dispatch) (ground arith)
  ]

  subjob_id-execute_goal :
      (goal : Goal) (e : Executor) → (execute_goal env goal e).1.subjob_id ≡ goal.subjob_id
  unfolding execute_goal begin
  subjob_id-execute_goal goal e =
      elim (Result-cases (dumps env (safe_json_loads env goal.userdata_in_json))) [
        | inl (s, encoded) ↦ rw (encoded, begin) (subjob_id-dispatch goal.subjob_id _ _ _)
        | inr (x, error) ↦ rw (error, begin) refl
      ]

-- What the bridge makes of the userdata of a status message.
abbrev pub shown : Outside → String → Value
shown o text = elim (o.loads (if text == "" then "{}" else text)) [ none ↦ dict end | some v ↦ v ]

-- The state that the bridge shows tells of this order, and of this result of it.
pub record IsReported (o : Outside) (r : OrderRequest) (result : GoalResult) (s : StateSnapshot)
    : Type 0 where
  pub same_order : s.order_id ≡ chosen_id o r
  pub same_subjob : s.subjob_id ≡ r.subjob_id
  pub ending : s.status ≡ (if result.succeeded then "success" else "failure")
  pub userdata : s.userdata_snapshot ≡ shown o result.userdata_out_json
  pub stopped : s.elapsed_sec ≡ pos 0

snapshot-IsReported :
    (o : Outside) (r : OrderRequest) (goal : SentGoal) (b : Bridge) (now : ℕ) (result : GoalResult)
    (e : Executor)
    → e.subjob_id ≡ r.subjob_id
    → e.status ≡ (if result.succeeded then success else failure)
    → e.userdata_snapshot_json ≡ result.userdata_out_json
    → IsReported o r result
        (snapshot o (on_status (report (publish_status now e)) (register_order o r goal b)))
unfolding snapshot on_status report publish_status register_order status_label
snapshot-IsReported o r goal b now result e same published userdata = record {
  same_order = refl;
  same_subjob = same;
  ending = ground (arith, published);
  userdata = ap (shown o) userdata;
  stopped = ground (arith, published);
}

encode-subjob_id :
    (o : Outside) (r : OrderRequest) (goal : SentGoal)
    → encode o r ≡ ok goal
    → goal.subjob_id ≡ r.subjob_id
unfolding encode
encode-subjob_id o r goal h = elim (Result-cases (o.dumps (dict (of_dict r.behavior_parameter)))) [
  | inr (x, error) ↦ absurd (ground (arith, error))
  | inl (p, encoded) ↦ elim (Result-cases (o.dumps (dict (of_dict r.userdata_in)))) [
    | inr (x, error) ↦ absurd (ground (arith, encoded, error))
    | inl (u, encoded') ↦ ground (arith, encoded, encoded')
  ]
]

same_verdict :
    (env : Env) (w : World) (id id' : String) (bp bp' ud ud' : Dict Value)
    → id ≡ id'
    → bp ≡ bp'
    → ud ≡ ud'
    → built_well env id bp ud w (build_subjob env id)
      ≡ built_well env id' bp' ud' w (build_subjob env id')
same_verdict env w id id' bp bp' ud ud' p q r = rw (p, q, r) refl

-- Where the server is up, the executor is not busy, every userdata has a JSON text, and the texts of
-- the order's parameters and userdata are read back as they were: an order is answered with its id,
-- and the goal it sends is accepted and returns a result. Once the status message after the end has
-- come, the bridge shows this order, its SubJob, and the userdata of the result; and it shows success
-- exactly if the SubJob can be built and its run, with the parameters and the userdata of the order,
-- returns an outcome that counts as success.
pub order_answered :
    (o : Outside) (env : Env) (r : OrderRequest) (goal : SentGoal) (b : Bridge) (e : Executor)
    (now : ℕ)
    → ((d : Dict Value) → (s : String) × (dumps env d ≡ ok s))
    → o.server_up ≡ true
    → e.busy ≡ false
    → encode o r ≡ ok goal
    → safe_json_loads env goal.behavior_parameter_json ≡ r.behavior_parameter
    → safe_json_loads env goal.userdata_in_json ≡ r.userdata_in
    → let (answer, b1) = submit_order o r b in
      let (returned, e1) = handle_goal env goal e in
      let s = snapshot o (on_status (report (publish_status now e1)) b1) in
      (answer ≡ ok (record { accepted = true; order_id = chosen_id o r; message = "dispatched" }))
      × (result : GoalResult) × (returned ≡ some (ok result))
      × IsReported o r result s
      × (result.succeeded
          ≡ built_well env r.subjob_id r.behavior_parameter r.userdata_in e.world
              (build_subjob env r.subjob_id))
unfolding submit_order encode delivered
order_answered o env r goal b e now encodes up free encoded parameters userdata =
    let same = encode-subjob_id o r goal encoded in
    let sent = submit_order_sent o r goal b up encoded in
    let over = execute_goal-IsOver env encodes (delivered goal) e in
    let reported =
      snapshot-IsReported o r goal b now over.result (execute_goal env (delivered goal) e).1
        (subjob_id-execute_goal env (delivered goal) e ∙ same) over.published over.snapshot in
    let handled = handle_goal_free env goal e free in
    (
      ap (λ p. p.0) sent,
      over.result,
      rw (handled) (ap some over.returned),
      rw (sent, handled) reported,
      execute_goal-Says env encodes (delivered goal) e over.result over.returned
          ∙ same_verdict env e.world _ _ _ _ _ _ same parameters userdata,
    )
