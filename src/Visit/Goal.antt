-- ===== src/Visit/Goal.antt =====
-- A goal for `VisitThreePoints`, from the executor over the engine to the calls of the skill server.
use ss_prep.Base.{
  ◌≡◌, refl, ◌∙◌, ap, sym, subst, arith, String, true, false, Option, some, List, [], ◌∷◌, Dict,
  lookup, Value, real, ℤ, ℕ, Result, ok, raise,
}
use ss_prep.Engine.World.{
  Context, World, IsCalm, install_token, enter, exit, reset_global_path, token_is_set,
}
use ss_prep.Engine.Registry.{Class, resolve}
use ss_prep.Engine.Machine.{execute, ok_outcome}
use ss_prep.Engine.Behavior.{Behavior, RunArgs, or_empty, all_given, root, seed, run_seeded, run}
use ss_prep.Engine.Tree.{State, behave}
use ss_prep.Engine.SubJob.{as_behavior, run_state}
use ss_prep.Skill.Lifecycle.{Ros}
use ss_prep.Skill.Parameters.{Builtins}
use ss_prep.Skill.DriveToPose.{DriveResult}
use ss_prep.Executor.Node.{Goal, GoalResult, Executor, Terminal, succeed, canceled, abort}
use ss_prep.Executor.Builder.{Env, safe_json_loads, dumps, construct_with_node, build_subjob}
use ss_prep.Executor.Dispatch.{run_args, execute_goal}
use ss_prep.Executor.Stored.{run_state-as_behavior}
use ss_prep.Executor.Goals.{is_succeed, execute_goal-IsOver}
use ss_prep.Executor.Failures.{execute_goal-HasRun}
use ss_prep.Executor.Verdict.{ran_well, built_well, execute_goal-Says}
use ss_prep.Visit.{waypoints, drive, visit_three_points}
use ss_prep.Visit.Three.{three_steps, visit_built}
use ss_prep.Visit.Arrives.{IsPlain, AllWilling, after_drives, visit_arrives}

enter-context : (name : String) (w : World) → (enter name w).1.context ≡ w.context
unfolding enter
enter-context name w = ground arith

exit-context :
    (path : String) (outcome : Option String) (w : World)
    → (exit path outcome w).context ≡ w.context
unfolding exit
exit-context path outcome w = ground arith

-- The world that the machine of a run starts in.
abbrev entered : Behavior → RunArgs → World → World
entered b args w =
    (enter (root b args) (
      reset_global_path (record w {
        context = install_token args.cancel_token (record (w.context) { userdata = seed args });
      }))).1

context-entered :
    (b : Behavior) (args : RunArgs) (w : World)
    → (entered b args w).context
      ≡ install_token args.cancel_token (record (w.context) { userdata = seed args })
unfolding reset_global_path
context-entered b args w = enter-context (root b args) (
    reset_global_path (record w {
      context = install_token args.cancel_token (record (w.context) { userdata = seed args });
    }))

-- A run whose machine returns `outcome`, with what it leaves in the userdata.
run_returns :
    (b : Behavior) (args : RunArgs) (w : World) (outcome : String) (userdata : Dict Value)
    → all_given b.behavior_parameters (or_empty args.behavior_parameter) ≡ true
    → (execute b.machine (entered b args w)).0 ≡ ok outcome
    → (execute b.machine (entered b args w)).1.context.userdata ≡ userdata
    → (run b args w).0 ≡ ok (outcome, userdata)
unfolding run run_seeded reset_global_path
run_returns b args w outcome userdata given returned left =
    let ended : (run_seeded b args w).0 ≡ ok outcome = returned in
    let kept : (run_seeded b args w).1 ≡ userdata =
      ap (λ (c : Context). c.userdata)
        (exit-context
          (enter (root b args) (
            reset_global_path (record w {
              context =
                  install_token args.cancel_token (record (w.context) { userdata = seed args });
            }))).0
          (ok_outcome (execute b.machine (entered b args w)).0)
          (execute b.machine (entered b args w)).1)
      ∙ left in
    rw (given, run) (rw (ended) (ap (λ u. ok (outcome, u)) kept))

is_succeed_only : (t : Terminal) → is_succeed t ≡ true → t ≡ succeed
unfolding is_succeed
is_succeed_only succeed h = refl
is_succeed_only canceled h = cc
is_succeed_only abort h = cc

module _ (py : Builtins) (new_goal : Dict ℤ) (literal : String → ℤ)
    (ros : String → Ros (Dict ℤ) DriveResult) (classes : Dict (Class State)) where
  -- The class object `VisitThreePoints`.
  unfoldable pub visit_class : Class State
  visit_class = record {
    name = "VisitThreePoints";
    is_state = true;
    is_behavior = true;
    construct = λ node kwargs. visit_three_points py new_goal literal ros classes;
  }

  -- The object that its constructor makes, and as a `BehaviorSM`.
  abbrev visit : State
  visit =
      three_steps
        (drive py new_goal literal ros classes
          (record { name = "P1"; x = "1.0"; y = "0.0"; yaw = "0.0" }))
        (drive py new_goal literal ros classes
          (record { name = "P2"; x = "1.0"; y = "1.0"; yaw = "1.5707963" }))
        (drive py new_goal literal ros classes
          (record { name = "P3"; x = "-1.0"; y = "0.5"; yaw = "3.14159" }))

  visit_is_subjob :
      (b : Behavior) × (as_behavior visit ≡ some b)
      × (b.behavior_parameters ≡ [])
      × ((w : World) → execute b.machine w ≡ (behave visit).execute w)
  unfolding as_behavior behave
  visit_is_subjob = (_, refl, refl, λ w. refl)

  visit_unique : (s : State) → visit_three_points py new_goal literal ros classes ≡ ok s → s ≡ visit
  visit_unique s built =
      ap (elim [ ok t ↦ t | raise e ↦ s ]) (sym built ∙ visit_built py new_goal literal ros classes)

  build_subjob-visit :
      (env : Env) (id : String)
      → lookup env.classes id ≡ some visit_class
      → build_subjob env id ≡ ok visit
  unfolding build_subjob resolve construct_with_node visit_class
  build_subjob-visit env id registered =
      rw (registered, build_subjob, resolve)
        (rw (visit_built py new_goal literal ros classes, construct_with_node) refl)

  run_state-visit :
      (env : Env) (id : String) (bp ud : Dict Value) (w : World) (rs : List DriveResult)
      → ((x : ℤ) → py.float (real x) ≡ ok x)
      → AllWilling py new_goal literal ros classes waypoints rs
      → ((n : ℕ) → w.context.arrivals n ≡ false)
      → IsPlain (seed (run_args env id bp ud))
      → (run_state visit (run_args env id bp ud) w).0
        ≡ ok ("done", after_drives rs (seed (run_args env id bp ud)))
  unfolding run_args install_token token_is_set all_given or_empty
  run_state-visit env id bp ud w rs float willing quiet plain =
      let args = run_args env id bp ud in
      let (b, is_subjob, no_parameters, same) = visit_is_subjob in
      let start = context-entered b args w in
      let calm : IsCalm (entered b args w).context =
        subst IsCalm (sym start) (record { not_set = refl; no_request = λ held n. quiet n }) in
      let given : (entered b args w).context.userdata ≡ seed args =
        ap (λ (c : Context). c.userdata) start in
      let (s, built, ends, leaves) =
        visit_arrives py new_goal literal ros classes rs (entered b args w) float willing calm
          (subst IsPlain (sym given) plain) in
      let runs =
        same (entered b args w)
        ∙ ap (λ t. (behave t).execute (entered b args w)) (sym (visit_unique s built)) in
      ap (λ p. p.0) (run_state-as_behavior visit b args w is_subjob)
      ∙ run_returns b args w "done" (after_drives rs (seed args))
          (ap (λ ps. all_given ps bp) no_parameters) (ap (λ p. p.0) runs ∙ ends)
          (ap (λ (p : Result String × World). p.1.context.userdata) runs
            ∙ leaves
            ∙ ap (after_drives rs) given)

  -- A goal with an id that `VisitThreePoints` is registered under, on an executor whose userdata all have
  -- JSON texts: where nobody asks to cancel it, its parameters and userdata change nothing of a drive, a
  -- float stays as it is, and the server lets the drives to the three waypoints succeed in time, the
  -- goal returns a success, and its userdata are those it started with and then the results of the
  -- three drives. The goal handle ends with `succeed`, and the node is free again.
  pub visit_goal :
      (env : Env) (goal : Goal) (e : Executor) (rs : List DriveResult)
      → ((d : Dict Value) → (s : String) × (dumps env d ≡ ok s))
      → lookup env.classes goal.subjob_id ≡ some visit_class
      → ((n : ℕ) → e.world.context.arrivals n ≡ false)
      → IsPlain (
          seed (
            run_args env goal.subjob_id
              (safe_json_loads env goal.behavior_parameter_json)
              (safe_json_loads env goal.userdata_in_json)))
      → ((x : ℤ) → py.float (real x) ≡ ok x)
      → AllWilling py new_goal literal ros classes waypoints rs
      → let (returned, e') = execute_goal env goal e in
        (result : GoalResult) × (returned ≡ ok result)
        × (result.succeeded ≡ true)
        × (dumps env (
              after_drives rs (
                seed (
                  run_args env goal.subjob_id
                    (safe_json_loads env goal.behavior_parameter_json)
                    (safe_json_loads env goal.userdata_in_json))))
            ≡ ok result.userdata_out_json)
        × (e'.ended ≡ succeed ∷ e.ended)
        × (e'.busy ≡ false)
  visit_goal env goal e rs encodes registered quiet plain float willing =
      let bp = safe_json_loads env goal.behavior_parameter_json in
      let ud = safe_json_loads env goal.userdata_in_json in
      let built = build_subjob-visit env goal.subjob_id registered in
      let ran = run_state-visit env goal.subjob_id bp ud e.world rs float willing quiet plain in
      let over = execute_goal-IsOver env encodes goal e in
      let well : built_well env goal.subjob_id bp ud e.world (build_subjob env goal.subjob_id)
          ≡ true =
        ap (built_well env goal.subjob_id bp ud e.world) built ∙ ap ran_well ran in
      let counts = execute_goal-Says env encodes goal e over.result over.returned ∙ well in
      let (b, built', has_run) = execute_goal-HasRun env goal e over.result over.returned counts in
      let (outcome, userdata, ran', _, encoded) = has_run in
      let same_state : visit ≡ b = ap (elim [ ok t ↦ t | raise x ↦ visit ]) (sym built ∙ built') in
      let same_run =
        sym ran
        ∙ ap (λ t. (run_state t (run_args env goal.subjob_id bp ud) e.world).0) same_state
        ∙ ran' in
      (
        over.result,
        over.returned,
        counts,
        ap (dumps env) (ap (elim [ ok p ↦ p.1 | raise x ↦ userdata ]) same_run) ∙ encoded,
        over.ended_once
            ∙ ap (λ t. t ∷ e.ended) (is_succeed_only over.ending (over.succeeds ∙ counts)),
        over.free,
      )
