-- ===== src/Executor/Tests.antt =====
-- Goals for a SubJob of one step.
use ss_prep.Base.{◌≡◌, refl, true, none, some, [], ◌∷◌, ok, to_dict, lookup}
use ss_prep.Engine.World.{new_token, request, in_context, raise_if_cancelled}
use ss_prep.Engine.Machine.{execute, run_loop, step, step_child, route}
use ss_prep.Engine.Behavior.{all_given, Behavior}
use ss_prep.Engine.Tree.{State, Children, leaf, child, childless, behave_children}
use ss_prep.Engine.SubJob.{as_behavior, run_state}
use ss_prep.Executor.Node.{GoalResult, Executor, goal_callback, cancel_callback}
use ss_prep.Executor.Builder.{build_subjob, safe_json_loads}
use ss_prep.Executor.Dispatch.{begin, run_args, execute_goal, finish_outcome}
use ss_prep.Executor.Goals.{IsOver, execute_goal-IsOver}
use ss_prep.Executor.Failures.{HasRun, execute_goal-HasRun}
use ss_prep.Executor.Cancel.{IsCancelled, execute_goal-IsCancelled}
use ss_prep.Executor.Overlap.{overlap_loses_second}
use ss_prep.Executor.Samples.{demo, encoding, quiet_world, waiting, demo_goal}

execute_goal-IsOver_example :
    IsOver []
      (execute_goal encoding demo_goal waiting).0
      (execute_goal encoding demo_goal waiting).1
execute_goal-IsOver_example = execute_goal-IsOver encoding (λ d. ("{}", refl)) demo_goal waiting

abbrev demo_result : GoalResult
demo_result = record {
  succeeded = true;
  outcome = "done";
  message = "ok";
  userdata_out_json = "{}";
}

demo_goal_done : (execute_goal encoding demo_goal waiting).0 ≡ ok demo_result
unfolding execute_goal build_subjob run_state execute run_loop step in_context raise_if_cancelled
    lookup step_child route
demo_goal_done = refl

-- The goal that returned this result had a SubJob that was built and ran to `done`.
execute_goal-HasRun_example :
    (b : State) × (build_subjob encoding "Demo" ≡ ok b)
    × HasRun encoding (run_state b (run_args encoding "Demo" [] []) quiet_world).0 demo_result
unfolding safe_json_loads to_dict
execute_goal-HasRun_example =
    execute_goal-HasRun encoding demo_goal waiting demo_result demo_goal_done refl

overlap_loses_second_example :
    let both = (begin encoding "B" [] (begin encoding "A" [] waiting).1).1 in
    let first_over = (finish_outcome encoding "A" "done" [] both).1 in
    (goal_callback waiting ≡ true)
    × (cancel_callback both ≡ record both { cancel_token = some (request new_token) })
    × (goal_callback first_over ≡ true)
    × (cancel_callback first_over ≡ first_over)
overlap_loses_second_example =
    overlap_loses_second encoding "A" "B" "done" [] [] [] "{}" "{}" "{}" waiting refl refl refl refl

-- A request has arrived at the first look.
abbrev hurried : Executor
hurried = record waiting {
  world = record quiet_world {
    context = record { userdata = []; token = none; arrivals = λ n. true; looks = 0 };
  };
}

encoding_built : build_subjob encoding "Demo" ≡ ok demo
unfolding build_subjob lookup
encoding_built = refl

abbrev demo_children : Children
demo_children =
    child "A"
      (leaf (record { class_name = "SayDone"; outcomes = "done" ∷ []; code = λ c. (ok "done", c) }))
      childless

abbrev demo_behavior : Behavior
demo_behavior = record {
  class_name = "Demo";
  behavior_parameters = [];
  machine = record {
    outcomes = "done" ∷ "failed" ∷ [];
    initial = some "A";
    children = behave_children demo_children;
    transitions = ("A", ("done", "done") ∷ []) ∷ [];
  };
}

demo_is_subjob : as_behavior demo ≡ some demo_behavior
unfolding as_behavior
demo_is_subjob = refl

no_parameters : all_given demo_behavior.behavior_parameters (safe_json_loads encoding "{}") ≡ true
unfolding all_given
no_parameters = refl

execute_goal-IsCancelled_example :
    IsCancelled []
      (execute_goal encoding demo_goal hurried).0
      (execute_goal encoding demo_goal hurried).1
execute_goal-IsCancelled_example =
    execute_goal-IsCancelled encoding (λ d. ("{}", refl)) demo_goal hurried demo demo_behavior "A"
      encoding_built demo_is_subjob no_parameters refl refl
