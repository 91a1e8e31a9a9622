-- ===== src/Skill/MoveMotor.antt =====
-- mw_skill_states: move_motor.py and capture_image.py, the states that move a motor and that take a
-- picture.
pub mod Moves
use ss_prep.Base.{
  String, true, none, some, Option, Dict, insert, Value, real, str, ℤ, Result, ok, then_do,
}
use ss_prep.Skill.Lifecycle.{Skill}
use ss_prep.Skill.Parameters.{Builtins, require_str, require_float, optional_float}

-- `MoveMotor.Goal`.
pub record MotorGoal : Type 0 where
  pub motor_id : String
  pub target_position : ℤ
  pub max_velocity : ℤ

-- The constructor's arguments; `null` stands for `None`.
pub record MotorState : Type 0 where
  pub motor_id : Value
  pub target_position : Value
  pub max_velocity : Value

unfoldable pub on_motor_result : ℤ → Dict Value → Dict Value
on_motor_result final_position userdata = insert "final_position" (real final_position) userdata

-- `CaptureImage.Goal`.
pub record ImageGoal : Type 0 where
  pub camera_id : String
  pub save_path : String

pub record CameraState : Type 0 where
  pub camera_id : Value
  pub save_path : Value

unfoldable pub on_image_result : String → Dict Value → Dict Value
on_image_result image_path userdata = insert "image_path" (str image_path) userdata

module _ (py : Builtins) where
  -- `default_velocity` is what `MoveMotor.Goal()` has for `max_velocity`.
  unfoldable pub motor_goal : ℤ → MotorState → Dict Value → Result MotorGoal
  unfolding require_str require_float optional_float
  motor_goal default_velocity m userdata =
      then_do (require_str py "motor_id" m.motor_id userdata) (λ motor_id.
        then_do (require_float py "target_position" m.target_position userdata) (λ target.
          then_do (optional_float py "max_velocity" m.max_velocity userdata) (λ mv. ok (record {
            motor_id = motor_id;
            target_position = target;
            max_velocity = elim mv [ none ↦ default_velocity | some v ↦ v ];
          }))))

  -- The result message is its `final_position`.
  unfoldable pub move_motor_state : ℤ → MotorState → Skill MotorGoal ℤ
  unfolding motor_goal on_motor_result
  move_motor_state default_velocity m = record {
    has_action_type = true;
    action_name = "/move_motor";
    server_node_name = some "move_motor_server";
    lifecycle_wait_timeout = 500;
    goal_accept_timeout = 500;
    goal_complete_timeout = 6000;
    build_goal = motor_goal default_velocity m;
    on_result = on_motor_result;
  }

  unfoldable pub image_goal : CameraState → Dict Value → Result ImageGoal
  unfolding require_str
  image_goal c userdata = then_do (require_str py "camera_id" c.camera_id userdata) (λ camera_id.
      then_do (require_str py "save_path" c.save_path userdata)
        (λ save_path. ok (record { camera_id = camera_id; save_path = save_path })))

  -- The result message is its `image_path`.
  unfoldable pub capture_image_state : CameraState → Skill ImageGoal String
  unfolding image_goal on_image_result
  capture_image_state c = record {
    has_action_type = true;
    action_name = "/capture_image";
    server_node_name = some "capture_image_server";
    lifecycle_wait_timeout = 500;
    goal_accept_timeout = 500;
    goal_complete_timeout = 6000;
    build_goal = image_goal c;
    on_result = on_image_result;
  }
