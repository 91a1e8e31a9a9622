-- ===== src/Emulator/Services.antt =====
-- virtual_robot_node.py: the services. The messages of the responses are left out.
use Prim.Native.String
use text.Mathlib.Text.{starts_with}
use ss_prep.Base.{
  ℕ, String, Bool, true, false, Option, none, some, ◌==◌, if◌then◌else◌, leb, ℤ, pos, negsuc,
}
use ss_prep.Emulator.Robot.{
  MotorStatus, Motor, Robot, Units, is_dead, ensure_motor, with_motor, ensure_camera, with_camera,
  each, status_ok, status_stuck, status_dead, status_unreachable,
}

-- `max(1e-3, v)`.
unfoldable pub at_least : ℕ → ℤ → ℕ
at_least least (pos n) = if leb least n then n else least
at_least least (negsuc n) = least

pub record TargetRequest : Type 0 where
  pub motor_id : String
  pub target_position : ℤ
  pub max_velocity : ℤ

-- `_set_target_cb`, with whether the request is accepted.
unfoldable pub set_target : Units → TargetRequest → Robot → Bool × Robot
unfolding ensure_motor with_motor at_least is_dead
set_target u r s =
    if r.motor_id == ""
    then (false, s)
    else (let m = ensure_motor u s r.motor_id in
        if is_dead m.status then (false, with_motor r.motor_id m s) else (
          true,
          with_motor r.motor_id
              (record m {
                target_position = r.target_position;
                max_velocity = at_least u.min_velocity r.max_velocity;
              })
              s,
        ))

-- `_capture_cb`: the path of the image, if there is one.
unfoldable pub capture : String → String → Robot → Option String × Robot
unfolding ensure_camera with_camera
capture camera_id save_path s =
    let c = ensure_camera s camera_id in
    let s' = with_camera camera_id c s in
    if c.available
    then (
      some (
          if save_path == ""
          then String.◌++◌ "/tmp/mw_capture_" (String.◌++◌ camera_id ".jpg")
          else save_path),
      s',
    )
    else (none, s')

pub data FaultTarget : Type 0 where
  motor_target camera_target : String → FaultTarget
  battery_target unknown_target : FaultTarget

-- What stands behind the first colon.
unfoldable pub fault_target : String → FaultTarget
fault_target t =
    if starts_with t "motor:"
    then motor_target (String.slice t 6 (String.len t))
    else if starts_with t "camera:"
    then camera_target (String.slice t 7 (String.len t))
    else if t == "battery"
    then battery_target
    else unknown_target

-- `none` is the `ValueError`.
unfoldable pub motor_kind_to_status : String → Option MotorStatus
motor_kind_to_status kind =
    if kind == "clear"
    then some status_ok
    else if kind == "stuck"
    then some status_stuck
    else if kind == "dead"
    then some status_dead
    else if kind == "unreachable"
    then some status_unreachable
    else none

-- `max(0.0, min(1.0, parameter))`.
unfoldable pub clamp_level : ℕ → ℤ → ℕ
clamp_level full (pos n) = if leb n full then n else full
clamp_level full (negsuc n) = 0

-- `_inject_fault_cb`, with whether it was applied. A motor of an unknown fault is created all the same.
unfoldable pub inject : Units → FaultTarget → String → ℤ → Robot → Bool × Robot
unfolding ensure_motor with_motor ensure_camera with_camera motor_kind_to_status clamp_level
inject u (motor_target id) kind parameter s =
    let m = ensure_motor u s id in
    elim (motor_kind_to_status kind) [
      | none ↦ (false, with_motor id m s)
      | some st ↦ (true, with_motor id (record m { status = st }) s)
    ]
inject u (camera_target id) kind parameter s =
    (true, with_camera id (record (ensure_camera s id) { available = kind == "clear" }) s)
inject u battery_target kind parameter s =
    (true, record s { battery = record (s.battery) { level = clamp_level u.full parameter } })
inject u unknown_target kind parameter s = (false, s)

unfoldable pub inject_fault : Units → String → String → ℤ → Robot → Bool × Robot
unfolding inject fault_target
inject_fault u target kind parameter s = inject u (fault_target target) kind parameter s

unfoldable pub reset_motor : Motor → Motor
reset_motor m = record m {
  position = pos 0;
  velocity = pos 0;
  target_position = pos 0;
  status = status_ok;
}

-- `_reset_cb`.
unfoldable pub reset : Units → Robot → Robot
unfolding each reset_motor
reset u s = record s {
  motors = each reset_motor s.motors;
  cameras = each (λ c. record c { available = true }) s.cameras;
  battery = record { level = u.full; drain_rate = 0 };
}
