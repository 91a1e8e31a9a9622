-- ===== src/Emulator/Physics.antt =====
-- virtual_robot_node.py: `_update_physics`, and what is published.
use ss_prep.Base.{
  ℕ, zero, ◌-◌, ◌*◌, String, Bool, true, List, if◌then◌else◌, ltb, leb, ℤ, pos, ◌-ℤ◌, abs,
  is_negative, approach, keys, values, map,
}
use ss_prep.Emulator.Robot.{MotorStatus, Motor, Battery, Robot, is_ok, each}

-- One motor in one round of `_update_physics`, without the rounding of floats.
unfoldable pub move_motor : ℕ → Motor → Motor
unfolding approach is_ok
move_motor dt m =
    if is_ok m.status
    then (let delta = m.target_position -ℤ m.position in
        record m {
          position = approach (m.max_velocity * dt) m.target_position m.position;
          velocity =
              if leb (abs delta) (m.max_velocity * dt)
              then pos 0
              else if is_negative delta
              then pos 0 -ℤ pos m.max_velocity
              else pos m.max_velocity;
        })
    else record m { velocity = pos 0 }

unfoldable pub drain : ℕ → Battery → Battery
drain dt b = if ltb zero b.drain_rate then record b { level = b.level - b.drain_rate * dt } else b

-- `_update_physics` at the clock reading `now`.
unfoldable pub update_physics : ℕ → Robot → Robot
unfolding each move_motor drain
update_physics now s = if leb now s.last_update then record s { last_update = now } else record s {
  last_update = now;
  motors = each (move_motor (now - s.last_update)) s.motors;
  battery = drain (now - s.last_update) s.battery;
}

-- The lists of `_publish_status`.
pub record JointState : Type 0 where
  pub name : List String
  pub position : List ℤ
  pub velocity : List ℤ

unfoldable pub joint_state : Robot → JointState
joint_state s = record {
  name = keys s.motors;
  position = map (λ (m : Motor). m.position) (values s.motors);
  velocity = map (λ (m : Motor). m.velocity) (values s.motors);
}

-- The message for one motor, and the list of them.
pub record MotorReport : Type 0 where
  pub motor_id : String
  pub position : ℤ
  pub velocity : ℤ
  pub target_position : ℤ
  pub status : MotorStatus

unfoldable pub motor_reports : Robot → List MotorReport
motor_reports s =
    map
      (λ (m : Motor). record {
        motor_id = m.motor_id;
        position = m.position;
        velocity = m.velocity;
        target_position = m.target_position;
        status = m.status;
      })
      (values s.motors)

-- The percentage and `present` of `_publish_battery`.
unfoldable pub battery_report : Robot → ℕ × Bool
battery_report s = (s.battery.level, true)
