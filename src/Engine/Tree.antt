-- ===== src/Engine/Tree.antt =====
-- The tree of a SubJob: each class of state with its fields (state.py, state_machine.py,
-- behavior_sm.py, parallel.py, decorators.py), and the call of `execute` that dispatches on the
-- class.
pub mod Nesting
use ss_prep.Base.{ℕ, String, Option, List, [], ◌∷◌, Dict, Value, Action}
use ss_prep.Engine.World.{Context, World, in_context}
use ss_prep.Engine.Registry.{Child}
use ss_prep.Engine.Machine.{Machine}
use ss_prep.Engine.Machine
use ss_prep.Engine.Retry.{Retry}
use ss_prep.Engine.Retry
use ss_prep.Engine.Parallel.{Parallel, Region}
use ss_prep.Engine.Parallel

-- A subclass of `State` with an `execute` of its own, which is no more than code over the context.
pub record Leaf : Type 0 where
  pub class_name : String
  pub outcomes : List String
  pub code : Action Context String

-- The fields of a `StateMachine`, its children aside. `behavior_parameters` is `none` for a plain
-- machine, and a list for a `BehaviorSM`.
pub record Shape : Type 0 where
  pub class_name : String
  pub behavior_parameters : Option (List String)
  pub outcomes : List String
  pub initial : Option String
  pub transitions : Dict (Dict String)

mutual
  pub data State : Type 0 where
    leaf : Leaf → State
    machine : Shape → Children → State
    retry : ℕ → String → State → State
    parallel : String → List String → Regions → State

  pub data Children : Type 0 where
    childless : Children
    child : String → State → Children → Children

  pub data Regions : Type 0 where
    regionless : Regions
    region : String → State → Dict String → Regions → Regions

-- The declared outcomes of a state.
unfoldable pub outcomes_of : State → List String
outcomes_of (leaf l) = l.outcomes
outcomes_of (machine s cs) = s.outcomes
outcomes_of (retry n o s) = outcomes_of s
outcomes_of (parallel policy os rs) = os

abbrev pub as_machine : Shape → Dict Child → Machine Child
as_machine s children = record {
  outcomes = s.outcomes;
  initial = s.initial;
  children = children;
  transitions = s.transitions;
}

abbrev pub as_retry : ℕ → String → List String → Child → Retry Child
as_retry n o os inner = record { inner = inner; max_retries = n; retry_outcome = o; outcomes = os }

abbrev pub as_parallel : String → List String → Dict (Region Child) → Parallel Child
as_parallel policy os regions = record { regions = regions; policy = policy; outcomes = os }

unfoldable mutual
  unfolding in_context Machine.execute Retry.execute Parallel.execute

  pub behave : State → Child
  behave (leaf l) = record { outcomes = l.outcomes; execute = in_context l.code }
  behave (machine s cs) = record {
    outcomes = s.outcomes;
    execute = Machine.execute (as_machine s (behave_children cs));
  }
  behave (retry n o s) = record {
    outcomes = outcomes_of s;
    execute = Retry.execute (as_retry n o (outcomes_of s) (behave s));
  }
  behave (parallel policy os rs) = record {
    outcomes = os;
    execute = Parallel.execute (as_parallel policy os (behave_regions rs));
  }

  pub behave_children : Children → Dict Child
  behave_children childless = []
  behave_children (child name s cs) = (name, behave s) ∷ behave_children cs

  pub behave_regions : Regions → Dict (Region Child)
  behave_regions regionless = []
  behave_regions (region name s mapping rs) =
      (name, record { state = behave s; outcomes = mapping }) ∷ behave_regions rs
