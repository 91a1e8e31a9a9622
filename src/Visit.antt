-- ===== src/Visit.antt =====
-- mw_hfsm_examples/mw_hfsm_examples/visit_three_points.py: a SubJob of three drives.
pub mod Course
pub mod Three
pub mod Arrives
pub mod Goal
mod Tests
use Prim.Native.String
use ss_prep.Base.{
  String, false, Option, none, some, List, [], ◌∷◌, Dict, real, null, ℤ, Result, ok, then_do,
  Action,
}
use ss_prep.Engine.World.{Context}
use ss_prep.Engine.Registry.{Class}
use ss_prep.Engine.Machine.{Machine, instance_of, add}
use ss_prep.Engine.Machine
use ss_prep.Engine.Tree.{State, leaf}
use ss_prep.Engine.Spec.Build.{tree_machine}
use ss_prep.Skill.Lifecycle.{ActionOutcome, outcome_name, default_outcomes, Ros, Node, execute}
use ss_prep.Skill.Parameters.{Builtins}
use ss_prep.Skill.DriveToPose.{fixed_values, DriveResult, drive_to_pose}

-- A name, and the literals of the pose.
pub record Waypoint : Type 0 where
  pub name : String
  pub x : String
  pub y : String
  pub yaw : String

abbrev pub waypoints : List Waypoint
waypoints =
    record { name = "P1"; x = "1.0"; y = "0.0"; yaw = "0.0" }
    ∷ record { name = "P2"; x = "1.0"; y = "1.0"; yaw = "1.5707963" }
    ∷ record { name = "P3"; x = "-1.0"; y = "0.5"; yaw = "3.14159" }
    ∷ []

-- The state `DriveToPoseState(…)` as a leaf, for one call of `execute` on the new object.
unfoldable pub drive_leaf : Action Context ActionOutcome → State
unfolding outcome_name default_outcomes
drive_leaf leg = leaf (record {
  class_name = "DriveToPoseState";
  outcomes = default_outcomes;
  code = λ c. let (r, c') = leg c in (then_do r (λ o. ok (outcome_name o)), c');
})

abbrev pub go_transitions : Dict String
go_transitions =
    ("succeeded", "done")
    ∷ ("failed", "failed")
    ∷ ("lifecycle_error", "failed")
    ∷ ("timeout", "failed")
    ∷ ("rejected", "failed")
    ∷ []

-- Where a step leads when it is done: to the next waypoint, if there is one.
unfoldable pub on_done : List Waypoint → String
on_done [] = "done"
on_done (next ∷ _) = String.◌++◌ "GO_" next.name

-- `literal` is what the literals stand for, `new_goal` what a new message has in its attributes, and
-- `ros` the other nodes as each of the states meets them.
module _ (py : Builtins) (new_goal : Dict ℤ) (literal : String → ℤ)
    (ros : String → Ros (Dict ℤ) DriveResult) (classes : Dict (Class State)) where
  -- `execute` of the state for a waypoint.
  unfoldable pub drive : Waypoint → Action Context ActionOutcome
  drive p c =
      let skill = drive_to_pose py new_goal (
        fixed_values (real (literal p.x)) (real (literal p.y)) (real (literal p.yaw)) null null null
          null) in
      let (r, n) =
        execute skill (ros p.name) (record { context = c; clients_ready = false; calls = [] }) in
      (r, n.context)

  unfoldable pub build_go_step : Waypoint → Result State
  unfolding add drive drive_leaf tree_machine
  build_go_step p =
      then_do
        (add classes "drive" (instance_of (drive_leaf (drive p))) (some go_transitions)
          (Machine.new (some ("done" ∷ "failed" ∷ [])) none))
        (λ m. ok (tree_machine "StateMachine" none m))

  -- The loop of the constructor.
  unfoldable pub add_steps : List Waypoint → Machine State → Result (Machine State)
  unfolding build_go_step on_done add
  add_steps [] m = ok m
  add_steps (p ∷ ps) m = then_do (build_go_step p) (λ step.
      then_do
        (add classes (String.◌++◌ "GO_" p.name) (instance_of step)
          (some (("done", on_done ps) ∷ ("failed", "failed") ∷ [])) m)
        (add_steps ps))

  -- `VisitThreePoints(node)`.
  unfoldable pub visit_three_points : Result State
  unfolding add_steps tree_machine
  visit_three_points =
      then_do (add_steps waypoints (Machine.new (some ("done" ∷ "failed" ∷ [])) none))
        (λ m. ok (tree_machine "VisitThreePoints" (some []) m))
