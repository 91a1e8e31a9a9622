-- ===== src/Engine/SubJob.antt =====
-- A SubJob as a tree of states: `isinstance(s, BehaviorSM)`, and the calls of its `run`.
use ss_prep.Base.{String, none, some, Option, Dict, Value, raise, attribute_error, Action}
use ss_prep.Engine.World.{World}
use ss_prep.Engine.Behavior.{Behavior, RunArgs, run}
use ss_prep.Engine.Tree.{State, leaf, machine, retry, parallel, as_machine, behave_children}

-- The instance as the class `BehaviorSM` sees it; `none` for another class.
unfoldable pub as_behavior : State → Option Behavior
unfolding behave_children
as_behavior (machine s cs) = elim s.behavior_parameters [
  | none ↦ none
  | some ps ↦ some (record {
    class_name = s.class_name;
    behavior_parameters = ps;
    machine = as_machine s (behave_children cs);
  })
]
as_behavior _ = none

-- `type(s).__name__`.
unfoldable pub class_name_of : State → String
class_name_of (leaf l) = l.class_name
class_name_of (machine s cs) = s.class_name
class_name_of (retry n o s) = "RetryDecorator"
class_name_of (parallel policy os rs) = "Parallel"

-- `s.run(…)`, which only a `BehaviorSM` has.
unfoldable pub run_state : State → RunArgs → Action World (String × Dict Value)
unfolding run as_behavior
run_state s args w = elim (as_behavior s) [
  | none ↦ (raise attribute_error, w)
  | some b ↦ run b args w
]
