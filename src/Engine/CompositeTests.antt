-- ===== src/Engine/CompositeTests.antt =====
-- Dispatch, decorator, parallel and registry on small inputs.
use ss_prep.Base.{
  ◌≡◌, refl, String, true, false, none, some, [], ◌∷◌, contains, lookup, values, has_key, update,
  insert, if◌then◌else◌, bool, ok, raise, hfsm_error,
}
use ss_prep.Engine.World.{World, IsTidy, finish, poll, in_context, raise_if_cancelled}
use ss_prep.Engine.Registry.{Child}
use ss_prep.Engine.Machine.{Machine, run_loop, step, step_child, route}
use ss_prep.Engine.Machine
use ss_prep.Engine.Retry.{Retry}
use ss_prep.Engine.Retry
use ss_prep.Engine.Retry.Attempts.{IsLastAttempt, execute-IsLastAttempt}
use ss_prep.Engine.Behavior.{Behavior, RunArgs, run}
use ss_prep.Engine.Parallel.{
  Check, for_winner, in_thread, Parallel, Region, Race, take_thread, runner, wait,
}
use ss_prep.Engine.Parallel as Parallel
use ss_prep.Engine.Parallel.Winner.{IsWon, wait_winner, execute_declared}
use ss_prep.Engine.Tree.{State, leaf, machine, retry, childless, child, behave}
use ss_prep.Engine.Tree.Nesting.{state-IsTidy}

abbrev idle_world : World
idle_world = record {
  context = record { userdata = []; token = none; arrivals = λ n. false; looks = 0 };
  path = "";
  global_path = "";
  observing = true;
  trace = [];
  schedules = [];
}

abbrev says : String → Child
says o = record { outcomes = o ∷ []; execute = λ w. (ok o, w) }

abbrev one_step : Machine Child
one_step = record {
  outcomes = "done" ∷ [];
  initial = some "A";
  children = ("A", says "done") ∷ [];
  transitions = ("A", ("done", "done") ∷ []) ∷ [];
}

abbrev demo : Behavior
demo = record { class_name = "Demo"; behavior_parameters = "mode" ∷ []; machine = one_step }

abbrev demo_args : RunArgs
demo_args = record {
  behavior_parameter = some (("mode", bool true) ∷ []);
  userdata_in = some (("mode", bool false) ∷ []);
  cancel_token = some (record { event = true });
  root_name = none;
}

abbrev free_args : RunArgs
free_args = record demo_args { cancel_token = none }

demo_returns : (run demo free_args idle_world).0 ≡ ok ("done", ("mode", bool true) ∷ [])
unfolding run Machine.execute run_loop step in_context raise_if_cancelled lookup step_child route
    update insert
demo_returns = refl

-- Fails on the first run, and then returns `done`.
abbrev flaky : Child
flaky = record {
  outcomes = "done" ∷ "failed" ∷ [];
  execute = λ w. (
    ok (if has_key w.userdata "tried" then "done" else "failed"),
    record w { context = record (w.context) { userdata = ("tried", bool true) ∷ [] } },
  );
}

abbrev twice : Retry Child
twice = record {
  inner = flaky;
  max_retries = 1;
  retry_outcome = "failed";
  outcomes = flaky.outcomes;
}

twice_done : (Retry.execute twice idle_world).0 ≡ ok "done"
unfolding Retry.execute Retry.retry_loop lookup
twice_done = refl

execute-IsLastAttempt_example :
    IsLastAttempt flaky "failed" 1 idle_world
      (Retry.execute twice idle_world).0
      (Retry.execute twice idle_world).1
execute-IsLastAttempt_example = execute-IsLastAttempt twice idle_world

abbrev left_region : Region Child
left_region = record { state = says "l"; outcomes = ("l", "left") ∷ [] }

abbrev unmapped_region : Region Child
unmapped_region = record { state = says "x"; outcomes = [] }

abbrev raising_region : Region Child
raising_region = record {
  state = record { outcomes = []; execute = λ w. (raise hfsm_error, w) };
  outcomes = [];
}

-- The region that ends first is not mapped, and the other one wins.
abbrev two_regions : Parallel Child
two_regions = record {
  regions = ("L", left_region) ∷ ("X", unmapped_region) ∷ [];
  policy = "first_wins";
  outcomes = "left" ∷ [];
}

abbrev raced_world : World
raced_world = record idle_world { schedules = (finish 1 ∷ poll ∷ finish 0 ∷ poll ∷ []) ∷ [] }

two_regions_built : Parallel.new two_regions.regions "first_wins" ≡ ok two_regions
unfolding Parallel.new values
two_regions_built = refl

two_regions_left : (Parallel.execute two_regions raced_world).0 ≡ ok "left"
unfolding Parallel.execute Parallel.in_thread lookup in_context raise_if_cancelled values
two_regions_left = refl

execute_declared_example : contains two_regions.outcomes "left" ≡ true
execute_declared_example =
    execute_declared two_regions.regions "first_wins" two_regions raced_world "left"
      two_regions_built two_regions_left

-- A region has won.
abbrev won : Race
won = record { winner = some "left"; errors = [] }

wait_winner_example :
    ((wait (finish 0 ∷ poll ∷ []) for_winner (unmapped_region ∷ []) won idle_world).0 ≡ ok "left")
    × ((check : Check)
        → IsWon "left" (wait (finish 0 ∷ poll ∷ []) check (unmapped_region ∷ []) won idle_world).0)
wait_winner_example =
    wait_winner (finish 0 ∷ poll ∷ []) (unmapped_region ∷ []) won "left" idle_world refl

abbrev tagged : State
tagged = leaf (record { class_name = "Tag"; outcomes = "done" ∷ []; code = λ c. (ok "done", c) })

abbrev small_tree : State
small_tree =
    machine
      (record {
        class_name = "StateMachine";
        behavior_parameters = none;
        outcomes = "done" ∷ [];
        initial = some "A";
        transitions = ("A", ("done", "done") ∷ []) ∷ [];
      })
      (child "A" (retry 2 "done" tagged) childless)

state-IsTidy_example : IsTidy idle_world ((behave small_tree).execute idle_world).1
state-IsTidy_example = state-IsTidy small_tree idle_world
