-- ===== src/Executor/Cancel.antt =====
-- What a cancel request does to the goal that is running.
use ss_prep.Base.{
  ℕ, suc, ◌≡◌, refl, String, true, false, none, some, List, [], ◌∷◌, arith, Dict, Value, Result, ok,
  raise, cancelled_error,
}
use ss_prep.Engine.World.{
  World, new_token, raise_if_cancelled, in_context, enter, reset_global_path, install_token,
}
use ss_prep.Engine.Registry.{Child}
use ss_prep.Engine.Machine.{Machine, run_loop, step, execute}
use ss_prep.Engine.Machine.Outcome.{execute-starts}
use ss_prep.Engine.Behavior.{Behavior, RunArgs, or_empty, all_given, run, root, seed}
use ss_prep.Engine.Tree.{State}
use ss_prep.Engine.SubJob.{as_behavior, class_name_of, run_state}
use ss_prep.Executor.Node.{Terminal, canceled, Goal, GoalResult, Executor}
use ss_prep.Executor.Builder.{Env, safe_json_loads, dumps, build_subjob}
use ss_prep.Executor.Dispatch.{
  is_cancelled, begin, finish_cancelled, publish_spec, finish, run_args, run_subjob, dispatch,
  execute_goal,
}

run_loop_arriving :
    (m : Machine Child) (left : ℕ) (current : String) (w : World)
    → w.context.token ≡ some new_token
    → w.context.arrivals w.context.looks ≡ true
    → (run_loop m (suc left) current w).0 ≡ raise cancelled_error
unfolding run_loop step in_context raise_if_cancelled
run_loop_arriving m left current w installed arrives = ground arith

execute_arriving :
    (m : Machine Child) (i : String) (w : World)
    → m.initial ≡ some i
    → w.context.token ≡ some new_token
    → w.context.arrivals w.context.looks ≡ true
    → (execute m w).0 ≡ raise cancelled_error
execute_arriving m i w starts installed arrives =
    let e : 10000 ≡ suc 9999 = omega arith in
    rw (execute-starts m i w starts, e) (run_loop_arriving m 9999 i w installed arrives)

run_arriving :
    (b : Behavior) (args : RunArgs) (w : World) (i : String)
    → all_given b.behavior_parameters (or_empty args.behavior_parameter) ≡ true
    → b.machine.initial ≡ some i
    → args.cancel_token ≡ some new_token
    → w.context.arrivals w.context.looks ≡ true
    → (run b args w).0 ≡ raise cancelled_error
unfolding run enter reset_global_path install_token
run_arriving b args w i given starts installed arrives =
    let entered =
      (enter (root b args) (
        reset_global_path (record w {
          context = install_token args.cancel_token (record (w.context) { userdata = seed args });
        }))).1 in
    let stopped : (execute b.machine entered).0 ≡ raise cancelled_error =
      execute_arriving b.machine i entered starts (ground (arith, installed))
        (ground (arith, arrives)) in
    ground (arith, given, stopped)

run_state_arriving :
    (s : State) (b : Behavior) (args : RunArgs) (w : World) (i : String)
    → as_behavior s ≡ some b
    → all_given b.behavior_parameters (or_empty args.behavior_parameter) ≡ true
    → b.machine.initial ≡ some i
    → args.cancel_token ≡ some new_token
    → w.context.arrivals w.context.looks ≡ true
    → (run_state s args w).0 ≡ raise cancelled_error
unfolding run_state
run_state_arriving s b args w i is_subjob given starts installed arrives =
    rw (is_subjob, run_state) (run_arriving b args w i given starts installed arrives)

-- The goal was cancelled: the handle got `canceled`, and the result says so.
pub record IsCancelled (before : List Terminal) (r : Result GoalResult) (e : Executor)
    : Type 0 where
  pub result : GoalResult
  pub returned : r ≡ ok result
  pub fails : result.succeeded ≡ false
  pub named : result.outcome ≡ "canceled"
  pub ended : e.ended ≡ canceled ∷ before
  pub free : e.busy ≡ false
  pub no_token : e.cancel_token ≡ none

module _ (env : Env) (encodes : (d : Dict Value) → (s : String) × (dumps env d ≡ ok s)) where
  finish_cancelled-IsCancelled :
      (class_name : String) (e : Executor)
      → IsCancelled e.ended
          (finish_cancelled env class_name e).0
          (finish_cancelled env class_name e).1
  unfolding finish_cancelled
  finish_cancelled-IsCancelled class_name e =
      let (s, h) = encodes [] in
      rw (h, finish_cancelled)
        (record {
          result = _;
          returned = refl;
          fails = refl;
          named = refl;
          ended = refl;
          free = refl;
          no_token = refl;
        })

  dispatch-IsCancelled :
      (id : String) (bp ud : Dict Value) (e : Executor) (s : State) (b : Behavior) (i : String)
      → build_subjob env id ≡ ok s
      → as_behavior s ≡ some b
      → all_given b.behavior_parameters bp ≡ true
      → b.machine.initial ≡ some i
      → e.world.context.arrivals e.world.context.looks ≡ true
      → IsCancelled e.ended (dispatch env id bp ud e).0 (dispatch env id bp ud e).1
  unfolding dispatch run_subjob publish_spec finish run_args is_cancelled or_empty
  dispatch-IsCancelled id bp ud e s b i built is_subjob given starts arrives =
      rw (built, dispatch)
        (rw
          (
            run_state_arriving s b (run_args env id bp ud) e.world i is_subjob given starts refl
                arrives,
            finish,
          )
          (finish_cancelled-IsCancelled (class_name_of s) _))

  -- Where every userdata has a JSON text: a cancel request that arrives before the engine first looks
  -- at the token ends a goal whose SubJob is built, has an initial state and gets its parameters as
  -- `canceled`, and leaves the node free and without a token.
  pub execute_goal-IsCancelled :
      (goal : Goal) (e : Executor) (s : State) (b : Behavior) (i : String)
      → build_subjob env goal.subjob_id ≡ ok s
      → as_behavior s ≡ some b
      → all_given b.behavior_parameters (safe_json_loads env goal.behavior_parameter_json) ≡ true
      → b.machine.initial ≡ some i
      → e.world.context.arrivals e.world.context.looks ≡ true
      → IsCancelled e.ended (execute_goal env goal e).0 (execute_goal env goal e).1
  unfolding execute_goal begin
  execute_goal-IsCancelled goal e s b i built is_subjob given starts arrives =
      let ud = safe_json_loads env goal.userdata_in_json in
      let (text, h) = encodes ud in
      rw (h, begin)
        (dispatch-IsCancelled goal.subjob_id (safe_json_loads env goal.behavior_parameter_json) ud _
          s b i built is_subjob given starts arrives)
