-- ===== src/Emulator/Robot.antt =====
-- virtual_robot_node.py: the robot's state. Velocities are whole multiples of a unit, and positions of
-- that unit times a nanosecond, so that a velocity times a time is exact; the rounding of floats is not
-- modelled.
use ss_prep.Base.{
  ℕ, String, Bool, true, false, none, some, List, [], ◌∷◌, Dict, lookup, insert, ℤ, pos,
}

-- `MotorStatus`.
pub data MotorStatus : Type 0 where
  status_ok status_stuck status_dead status_unreachable : MotorStatus

pub record Motor : Type 0 where
  pub motor_id : String
  pub position : ℤ
  pub velocity : ℤ
  pub target_position : ℤ
  pub max_velocity : ℕ
  pub status : MotorStatus

pub record Camera : Type 0 where
  pub camera_id : String
  pub available : Bool

-- `drain_rate` is per nanosecond.
pub record Battery : Type 0 where
  pub level : ℕ
  pub drain_rate : ℕ

-- `RobotState`, and `_last_update` of the node in nanoseconds.
pub record Robot : Type 0 where
  pub motors : Dict Motor
  pub cameras : Dict Camera
  pub battery : Battery
  pub last_update : ℕ

-- How many units the constants of the code are: the velocities 1e-3 and 1.0, and a full battery.
pub record Units : Type 0 where
  pub min_velocity : ℕ
  pub default_velocity : ℕ
  pub full : ℕ

unfoldable pub is_ok : MotorStatus → Bool
is_ok status_ok = true
is_ok _ = false

unfoldable pub is_dead : MotorStatus → Bool
is_dead status_dead = true
is_dead _ = false

unfoldable pub new_motor : Units → String → Motor
new_motor u id = record {
  motor_id = id;
  position = pos 0;
  velocity = pos 0;
  target_position = pos 0;
  max_velocity = u.default_velocity;
  status = status_ok;
}

-- The motor that `ensure_motor` returns; it also puts a new one into the dictionary, which
-- `with_motor` does together with what the caller changes.
unfoldable pub ensure_motor : Units → Robot → String → Motor
unfolding new_motor
ensure_motor u s id = elim (lookup s.motors id) [ none ↦ new_motor u id | some m ↦ m ]

unfoldable pub with_motor : String → Motor → Robot → Robot
with_motor id m s = record s { motors = insert id m s.motors }

unfoldable pub ensure_camera : Robot → String → Camera
ensure_camera s id = elim (lookup s.cameras id) [
  | none ↦ record { camera_id = id; available = true }
  | some c ↦ c
]

unfoldable pub with_camera : String → Camera → Robot → Robot
with_camera id c s = record s { cameras = insert id c s.cameras }

-- A change of every value of a dictionary, in place.
unfoldable pub each : {A : Type 0} → (A → A) → Dict A → Dict A
each f [] = []
each f ((k, v) ∷ d) = (k, f v) ∷ each f d

unfoldable pub seed_motors : Units → List String → Robot → Robot
unfolding ensure_motor with_motor
seed_motors u [] s = s
seed_motors u (id ∷ ids) s = seed_motors u ids (with_motor id (ensure_motor u s id) s)

-- The robot that `__init__` makes, at the clock reading `now`.
unfoldable pub new_robot : Units → ℕ → Robot
unfolding seed_motors ensure_camera with_camera
new_robot u now =
    let empty : Robot = record {
      motors = [];
      cameras = [];
      battery = record { level = u.full; drain_rate = 0 };
      last_update = now;
    } in
    let s = seed_motors u ("base_x" ∷ "base_yaw" ∷ "arm_shoulder" ∷ "arm_gripper" ∷ []) empty in
    with_camera "head_rgb" (ensure_camera s "head_rgb") s
