-- ===== src/Skill/DriveToPose.antt =====
-- mw_skill_states/mw_skill_states/drive_to_pose.py: the state that drives to a pose.
pub mod Drives
use ss_prep.Base.{
  ℕ, String, false, true, none, List, [], ◌∷◌, Dict, insert, Value, real, ℤ, Result, then_do,
}
use ss_prep.Skill.Lifecycle.{Skill}
use ss_prep.Skill.Parameters.{Builtins, set_required, set_optional}

abbrev pub required_keys : List String
required_keys = "target_x" ∷ "target_y" ∷ "target_yaw" ∷ []

abbrev pub optional_keys : List String
optional_keys =
    "xy_tolerance" ∷ "yaw_tolerance" ∷ "max_linear_velocity" ∷ "max_angular_velocity" ∷ []

-- The keyword arguments of the constructor, in `_fixed`.
unfoldable pub fixed_values : Value → Value → Value → Value → Value → Value → Value → Dict Value
fixed_values target_x target_y target_yaw xy_tolerance yaw_tolerance max_linear max_angular =
    ("target_x", target_x)
    ∷ ("target_y", target_y)
    ∷ ("target_yaw", target_yaw)
    ∷ ("xy_tolerance", xy_tolerance)
    ∷ ("yaw_tolerance", yaw_tolerance)
    ∷ ("max_linear_velocity", max_linear)
    ∷ ("max_angular_velocity", max_angular)
    ∷ []

-- `DriveToPose.Result`, as far as it is read.
pub record DriveResult : Type 0 where
  pub final_x : ℤ
  pub final_y : ℤ
  pub final_yaw : ℤ

unfoldable pub on_drive_result : DriveResult → Dict Value → Dict Value
on_drive_result r userdata =
    insert "final_yaw" (real r.final_yaw)
      (insert "final_y" (real r.final_y) (insert "final_x" (real r.final_x) userdata))

-- `new_goal` is what `DriveToPose.Goal()` has in its attributes.
module _ (py : Builtins) (new_goal : Dict ℤ) where
  unfoldable pub drive_goal : Dict Value → Dict Value → Result (Dict ℤ)
  unfolding set_required set_optional
  drive_goal fixed userdata =
      then_do (set_required py fixed userdata required_keys new_goal)
        (set_optional py fixed userdata optional_keys)

  -- The timeouts are those of the base class: 5 and 60 seconds in polls of 0.01.
  unfoldable pub drive_to_pose : Dict Value → Skill (Dict ℤ) DriveResult
  unfolding drive_goal on_drive_result
  drive_to_pose fixed = record {
    has_action_type = true;
    action_name = "/drive_to_pose";
    server_node_name = none;
    lifecycle_wait_timeout = 500;
    goal_accept_timeout = 500;
    goal_complete_timeout = 6000;
    build_goal = drive_goal fixed;
    on_result = on_drive_result;
  }
