-- ===== src/Skill/Tests.antt =====
-- A skill state with a server that answers at once, or after one interval.
use ss_prep.Base.{
  ℕ, ◌≡◌, refl, ◌⊎◌, true, false, none, some, List, [], ◌∷◌, int, pos, ok, raise, cancelled_error,
}
use ss_prep.Base.{eqb, is_some, ◌+◌, ◌<◌}
use ss_prep.Skill.Future.{in_time}
use ss_prep.Engine.World.{Context, World, in_context, raise_if_cancelled, IsLater, no_token-IsCalm}
use ss_prep.Engine.Parallel.{in_thread}
use ss_prep.Skill.Future.{
  Future, wait_future, wait_loop, waited, wait_future_cases, region_ignores_cancel,
}
use ss_prep.Skill.Lifecycle.{
  LifecycleState, unconfigured, inactive, active, configure, activate, succeeded, Call, get_state,
  change_state, Ros, Skill, Node, ensure_lifecycle_active, execute,
}
use ss_prep.Skill.Lifecycle.Active.{SawActive, ensure_lifecycle_active-SawActive}
use ss_prep.Skill.Lifecycle.Outcomes.{AnswersInTurn, ensure_lifecycle_active_recovers}
use ss_prep.Skill.Lifecycle.Success.{HasSucceeded, execute-HasSucceeded}

abbrev answer_after : {A : Type 0} → ℕ → A → Future A
answer_after n a = record { ready = some n; value = some a }

abbrev late_answer : Future ℕ
late_answer = answer_after 3 8

-- The state that a server is in after the calls, the latest first.
unfoldable state_after : List (Call ℕ) → LifecycleState
state_after [] = unconfigured
state_after (change_state configure ∷ calls) = inactive
state_after (change_state activate ∷ calls) = active
state_after (_ ∷ calls) = state_after calls

abbrev motor_ros : Ros ℕ ℕ
unfolding state_after
motor_ros = record {
  service_up = λ calls. true;
  server_up = λ calls. true;
  state = λ calls. answer_after 0 (state_after calls);
  change = λ calls. answer_after 1 true;
  accept = λ calls. answer_after 0 true;
  result = λ calls. answer_after 2 (true, 7);
}

abbrev motor_skill : Skill ℕ ℕ
motor_skill = record {
  has_action_type = true;
  action_name = "/robot/motor_skill";
  server_node_name = some "move_motor_server";
  lifecycle_wait_timeout = 2;
  goal_accept_timeout = 2;
  goal_complete_timeout = 5;
  build_goal = λ ud. ok 3;
  on_result = λ r ud. ("position", int (pos 7)) ∷ ud;
}

abbrev idle_context : Context
idle_context = record { userdata = []; token = none; arrivals = λ n. false; looks = 0 }

abbrev fresh_node : Node ℕ
fresh_node = record { context = idle_context; clients_ready = false; calls = [] }

abbrev cancelled_context : Context
cancelled_context = record {
  userdata = [];
  token = some (record { event = true });
  arrivals = λ n. false;
  looks = 0;
}

abbrev region_world : World
region_world = record {
  context = cancelled_context;
  path = "";
  global_path = "";
  observing = true;
  trace = [];
  schedules = [];
}

-- A token that is not set, with a request that arrives at the third look.
abbrev interrupted : Context
interrupted = record {
  userdata = [];
  token = some (record { event = false });
  arrivals = λ n. eqb n 2;
  looks = 0;
}

wait_future_cases_example :
    (((wait_future late_answer 4 interrupted).0 ≡ raise cancelled_error)
      ⊎ ((wait_future late_answer 4 interrupted).0 ≡ ok (waited late_answer 4)))
    × ((k : ℕ)
        → is_some interrupted.token ≡ true
        → k < 4
        → in_time late_answer.ready k ≡ false
        → interrupted.arrivals (interrupted.looks + k) ≡ true
        → (wait_future late_answer 4 interrupted).0 ≡ raise cancelled_error)
wait_future_cases_example = wait_future_cases late_answer 4 interrupted

-- The token is set, and the region waits for its result.
region_ignores_cancel_example :
    (in_thread (in_context (wait_future late_answer 4)) region_world).0 ≡ ok (waited late_answer 4)
region_ignores_cancel_example = region_ignores_cancel late_answer 4 region_world

brought_up : AnswersInTurn motor_skill motor_ros []
unfolding waited state_after
brought_up = record {
  up = refl;
  first = refl;
  configures = refl;
  configured = refl;
  activates = refl;
  activated = refl;
}

ensure_lifecycle_active_recovers_example :
    (c : Context) × IsLater fresh_node.context c
    × (ensure_lifecycle_active motor_skill motor_ros fresh_node ≡ (
      ok true,
      record fresh_node {
        context = c;
        calls =
            get_state ∷ change_state activate ∷ get_state ∷ change_state configure ∷ get_state ∷ [];
      },
    ))
ensure_lifecycle_active_recovers_example =
    ensure_lifecycle_active_recovers motor_skill motor_ros fresh_node
      (no_token-IsCalm fresh_node.context refl) brought_up

fresh_node_active : (ensure_lifecycle_active motor_skill motor_ros fresh_node).0 ≡ ok true
unfolding ensure_lifecycle_active state_after wait_loop raise_if_cancelled wait_future
fresh_node_active = refl

ensure_lifecycle_active-SawActive_example :
    SawActive motor_skill motor_ros
      (ensure_lifecycle_active motor_skill motor_ros fresh_node).1.calls
ensure_lifecycle_active-SawActive_example =
    ensure_lifecycle_active-SawActive motor_skill motor_ros fresh_node fresh_node_active

fresh_node_succeeds : (execute motor_skill motor_ros fresh_node).0 ≡ ok succeeded
unfolding execute state_after wait_loop raise_if_cancelled wait_future
fresh_node_succeeds = refl

execute-HasSucceeded_example :
    HasSucceeded motor_skill motor_ros (execute motor_skill motor_ros fresh_node).1
execute-HasSucceeded_example =
    execute-HasSucceeded motor_skill motor_ros fresh_node fresh_node_succeeds
