-- ===== src/Emulator/Tests.antt =====
-- The emulator with the motor of the base.
use ss_prep.Base.{◌≡◌, ◌≤◌, refl, true, some, [], ◌∷◌, arith, lookup, pos, negsuc}
use ss_prep.Emulator.Robot.{is_ok, status_ok, status_dead, Motor, Robot, Units, ensure_motor}
use ss_prep.Emulator.Services.{motor_kind_to_status, motor_target, fault_target, inject_fault}
use ss_prep.Emulator.Motion.{elapse}
use ss_prep.Emulator.Faults.{fault_stops}
use ss_prep.Emulator.Sound.{IsSound, Reach, here, next, inject_fault_call, physics_tick}
use ss_prep.Emulator.Sound.Kept.{Reach-IsSound}
use ss_prep.Emulator.Physics.{update_physics, MotorReport, motor_reports, joint_state}
use ss_prep.Emulator.Robot.{new_robot}
use ss_prep.Base.{map}

abbrev thousandths : Units
thousandths = record { min_velocity = 1; default_velocity = 1000; full = 100 }

abbrev base_x : Motor
base_x = record {
  motor_id = "base_x";
  position = negsuc 99;
  velocity = pos 0;
  target_position = pos 0;
  max_velocity = 1000;
  status = status_ok;
}

abbrev robot : Robot
robot = record {
  motors = ("base_x", base_x) ∷ [];
  cameras = [];
  battery = record { level = 100; drain_rate = 0 };
  last_update = 5;
}

parsed_base : fault_target "motor:base_x" ≡ motor_target "base_x"
unfolding fault_target
parsed_base = refl

dead_kind : motor_kind_to_status "dead" ≡ some status_dead
unfolding motor_kind_to_status
dead_kind = refl

-- The base fails on its way from -100 to 0, and stays there.
fault_stops_example :
    let (applied, s') = inject_fault thousandths "motor:base_x" "dead" (pos 0) robot in
    (applied ≡ true)
    × (m' : Motor) × (lookup (elapse (10 ∷ 25 ∷ []) s').motors "base_x" ≡ some m')
    × (m'.status ≡ status_dead)
    × (m'.position ≡ (ensure_motor thousandths robot "base_x").position)
unfolding is_ok
fault_stops_example =
    fault_stops thousandths "motor:base_x" "dead" (pos 0) robot "base_x" status_dead parsed_base
      dead_kind refl (10 ∷ 25 ∷ [])

-- A new robot, a motor fault of an unknown kind on a new motor, an overfull battery, and a tick.
abbrev faulted : Robot
faulted = (inject_fault thousandths "motor:lift" "lost" (pos 0) (new_robot thousandths 5)).1

abbrev charged : Robot
charged = (inject_fault thousandths "battery" "set" (pos 400) faulted).1

abbrev ticked : Robot
ticked = update_physics 30 charged

ticked_reached : Reach thousandths (new_robot thousandths 5) ticked
ticked_reached =
    next
      (next (next here (inject_fault_call "motor:lift" "lost" (pos 0) refl))
        (inject_fault_call "battery" "set" (pos 400) refl))
      (physics_tick 30 refl)

slowest_allowed : thousandths.min_velocity ≤ thousandths.default_velocity
slowest_allowed = omega arith

Reach-IsSound_example :
    IsSound thousandths ticked
    × (map (λ (r : MotorReport). r.motor_id) (motor_reports ticked) ≡ (joint_state ticked).name)
Reach-IsSound_example = Reach-IsSound thousandths 5 ticked slowest_allowed ticked_reached
