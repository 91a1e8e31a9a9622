-- ===== src/Skill/StateTests.antt =====
-- A drive to a pose whose angle is in the userdata, and a motor that is told where to go.
use ss_prep.Base.{
  ◌≡◌, refl, false, contains, true, none, some, [], ◌∷◌, Dict, lookup, insert, Value, null, real,
  str, ℤ, pos, ok, raise, type_error, Option,
}
use ss_prep.Skill.Future.{Future}
use ss_prep.Skill.Lifecycle.{active, Ros, Node}
use ss_prep.Skill.Parameters.{Builtins}
use ss_prep.Skill.Parameters.Chosen.{converted}
use ss_prep.Skill.DriveToPose.{fixed_values, required_keys, optional_keys, DriveResult, drive_goal}
use ss_prep.Skill.DriveToPose.Drives.{drive_goal-chosen}
use ss_prep.Skill.MoveMotor.{MotorGoal, MotorState, motor_goal}

abbrev reals_only : Builtins
reals_only = record {
  float = λ v. elim v [ real x ↦ ok x | _ ↦ raise type_error ];
  text = λ v. elim v [ str s ↦ s | _ ↦ "" ];
}

abbrev new_pose_goal : Dict ℤ
new_pose_goal = ("target_x", pos 0) ∷ ("target_yaw", pos 0) ∷ ("xy_tolerance", pos 15) ∷ []

abbrev to_the_wall : Dict Value
to_the_wall = fixed_values (real (pos 4)) (real (pos 5)) null null null null null

abbrev turning : Dict Value
turning = ("target_yaw", real (pos 3)) ∷ []

abbrev wall_goal : Dict ℤ
wall_goal =
    ("target_x", pos 4)
    ∷ ("target_yaw", pos 3)
    ∷ ("xy_tolerance", pos 15)
    ∷ ("target_y", pos 5)
    ∷ []

wall_goal_built : drive_goal reals_only new_pose_goal to_the_wall turning ≡ ok wall_goal
unfolding drive_goal lookup fixed_values insert
wall_goal_built = refl

drive_goal-chosen_example :
    ((contains required_keys "target_yaw" ≡ true)
      → (x : ℤ) × (converted reals_only to_the_wall turning "target_yaw" ≡ ok (some x))
        × (lookup wall_goal "target_yaw" ≡ some x))
    × ((contains optional_keys "target_yaw" ≡ true)
        → (found : Option ℤ) × (converted reals_only to_the_wall turning "target_yaw" ≡ ok found)
          × (lookup wall_goal "target_yaw"
              ≡ elim found [ some x ↦ some x | none ↦ lookup new_pose_goal "target_yaw" ]))
drive_goal-chosen_example =
    drive_goal-chosen reals_only new_pose_goal to_the_wall turning wall_goal "target_yaw"
      wall_goal_built

abbrev soon : {A : Type 0} → A → Future A
soon a = record { ready = some 2; value = some a }

abbrev willing : {G R : Type 0} → R → Ros G R
willing r = record {
  service_up = λ calls. true;
  server_up = λ calls. true;
  state = λ calls. soon active;
  change = λ calls. soon true;
  accept = λ calls. soon true;
  result = λ calls. soon (true, r);
}

abbrev node_with : {G : Type 0} → Dict Value → Node G
node_with ud = record {
  context = record { userdata = ud; token = none; arrivals = λ n. false; looks = 0 };
  clients_ready = false;
  calls = [];
}

abbrev at_the_wall : DriveResult
at_the_wall = record { final_x = pos 4; final_y = pos 5; final_yaw = pos 2 }

abbrev gripper : MotorState
gripper = record { motor_id = str "gripper_pitch"; target_position = null; max_velocity = null }

abbrev opening : Dict Value
opening = ("target_position", real (pos 8)) ∷ []

abbrev gripper_goal : MotorGoal
gripper_goal = record { motor_id = "gripper_pitch"; target_position = pos 8; max_velocity = pos 1 }

gripper_goal_built : motor_goal reals_only (pos 1) gripper opening ≡ ok gripper_goal
unfolding motor_goal lookup
gripper_goal_built = refl
