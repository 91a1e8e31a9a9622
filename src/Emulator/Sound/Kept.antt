-- ===== src/Emulator/Sound/Kept.antt =====
-- What every service and the physics keep.
use ss_prep.Base.{
  ℕ, ◌≤◌, ◌-◌, ◌≡◌, refl, ◌∙◌, String, inl, inr, Bool-cases, Option-cases, [], ◌∷◌, arith, ◌==◌,
  leb, Dict, lookup, insert, ℤ, map, keys, values,
}
use ss_prep.Emulator.Robot.{
  Motor, Robot, Units, new_motor, ensure_motor, with_motor, ensure_camera, with_camera, is_dead,
  seed_motors, new_robot,
}
use ss_prep.Emulator.Services.{
  at_least, TargetRequest, set_target, capture, FaultTarget, motor_target, camera_target,
  battery_target, unknown_target, fault_target, motor_kind_to_status, inject, inject_fault, reset,
  reset_motor,
}
use ss_prep.Emulator.Physics.{move_motor, update_physics, MotorReport, motor_reports, joint_state}
use ss_prep.Emulator.Sound.{
  Every, Every-each, IsMotor, new_motor-IsMotor, ensure_motor-IsMotor, seeds, all_in, IsSound, Step,
  Reach, here, next, set_target_call, capture_call, inject_fault_call, reset_call, physics_tick,
}
use ss_prep.Emulator.Sound.Parts.{
  all_in-each, with_motor-IsSound, own_camera, with_camera-IsSound, at_least_lem, clamp_level_lem,
  drain_level, drain_rate-drain, move_motor-IsMotor,
}

module _ (u : Units) (fast : u.min_velocity ≤ u.default_velocity) where
  set_target-IsSound :
      (r : TargetRequest) (s : Robot) → IsSound u s → IsSound u (set_target u r s).1
  unfolding set_target at_least
  set_target-IsSound r s h =
      let p = ensure_motor-IsMotor u s r.motor_id fast h.motors in
      elim (Bool-cases (r.motor_id == "")) [
        | inl unnamed ↦ rw (unnamed, set_target) h
        | inr named ↦ elim (Bool-cases (is_dead (ensure_motor u s r.motor_id).status)) [
          | inl dead ↦ rw (named, dead, set_target) (with_motor-IsSound u s r.motor_id _ p h)
          | inr alive ↦
              rw (named, alive, set_target)
                (with_motor-IsSound u s r.motor_id _
                  (record {
                    own_id = p.own_id;
                    fast_enough = at_least_lem u.min_velocity r.max_velocity;
                  })
                  h)
        ]
      ]

  inject-IsSound :
      (target : FaultTarget) (kind : String) (parameter : ℤ) (s : Robot)
      → IsSound u s
      → IsSound u (inject u target kind parameter s).1
  unfolding inject
  inject-IsSound (motor_target id) kind parameter s h =
      let p = ensure_motor-IsMotor u s id fast h.motors in
      elim (Option-cases (motor_kind_to_status kind)) [
        | inl unknown ↦ rw (unknown, inject) (with_motor-IsSound u s id _ p h)
        | inr (st, known) ↦
            rw (known, inject)
              (with_motor-IsSound u s id _
                (record { own_id = p.own_id; fast_enough = p.fast_enough }) h)
      ]
  inject-IsSound (camera_target id) kind parameter s h =
      with_camera-IsSound u s id _ (own_camera s id h.cameras) h
  inject-IsSound battery_target kind parameter s h = record {
    motors = h.motors;
    seeded = h.seeded;
    cameras = h.cameras;
    level = clamp_level_lem u.full parameter;
    undrained = h.undrained;
  }
  inject-IsSound unknown_target kind parameter s h = h

  capture-IsSound :
      (camera_id save_path : String) (s : Robot)
      → IsSound u s
      → IsSound u (capture camera_id save_path s).1
  unfolding capture
  capture-IsSound id save_path s h =
      let sound = with_camera-IsSound u s id (ensure_camera s id) (own_camera s id h.cameras) h in
      elim (Bool-cases (ensure_camera s id).available) [
        | inl available ↦ rw (available, capture) sound
        | inr broken ↦ rw (broken, capture) sound
      ]

  reset-IsSound : (s : Robot) → IsSound u s → IsSound u (reset u s)
  unfolding reset reset_motor
  reset-IsSound s h = record {
    motors =
        Every-each (IsMotor u) reset_motor s.motors
          (λ id m p. record { own_id = p.own_id; fast_enough = p.fast_enough }) h.motors;
    seeded = all_in-each reset_motor s.motors seeds ∙ h.seeded;
    cameras = Every-each _ _ s.cameras (λ id c p. p) h.cameras;
    level = omega arith;
    undrained = refl;
  }

  update_physics-IsSound : (now : ℕ) (s : Robot) → IsSound u s → IsSound u (update_physics now s)
  unfolding update_physics
  update_physics-IsSound now s h = elim (Bool-cases (leb now s.last_update)) [
    | inl earlier ↦
        rw (earlier, update_physics)
          (record {
            motors = h.motors;
            seeded = h.seeded;
            cameras = h.cameras;
            level = h.level;
            undrained = h.undrained;
          })
    | inr later ↦
        rw (later, update_physics)
          (record {
            motors =
                Every-each (IsMotor u) (move_motor (now - s.last_update)) s.motors
                  (move_motor-IsMotor (now - s.last_update)) h.motors;
            seeded = all_in-each (move_motor (now - s.last_update)) s.motors seeds ∙ h.seeded;
            cameras = h.cameras;
            level = drain_level (now - s.last_update) s.battery u.full h.level;
            undrained = drain_rate-drain (now - s.last_update) s.battery ∙ h.undrained;
          })
  ]

  new_robot-IsSound : (now : ℕ) → IsSound u (new_robot u now)
  unfolding new_robot seed_motors ensure_motor with_motor new_motor ensure_camera with_camera insert
      lookup all_in
  new_robot-IsSound now = record {
    motors = (
      new_motor-IsMotor u "base_x" fast,
      (
        new_motor-IsMotor u "base_yaw" fast,
        (new_motor-IsMotor u "arm_shoulder" fast, (new_motor-IsMotor u "arm_gripper" fast, tt)),
      ),
    );
    seeded = refl;
    cameras = (refl, tt);
    level = omega arith;
    undrained = refl;
  }

  Step-IsSound : (s s' : Robot) → Step u s s' → IsSound u s → IsSound u s'
  unfolding inject_fault
  Step-IsSound s s' (set_target_call r e) h = rw (e) (set_target-IsSound r s h)
  Step-IsSound s s' (capture_call id path e) h = rw (e) (capture-IsSound id path s h)
  Step-IsSound s s' (inject_fault_call target kind parameter e) h =
      rw (e) (inject-IsSound (fault_target target) kind parameter s h)
  Step-IsSound s s' (reset_call e) h = rw (e) (reset-IsSound s h)
  Step-IsSound s s' (physics_tick now e) h = rw (e) (update_physics-IsSound now s h)

  reaches : (s0 s : Robot) → IsSound u s0 → Reach u s0 s → IsSound u s
  reaches s0 s h here = h
  reaches s0 s'' h (next {s' = s'} path step) = Step-IsSound s' s'' step (reaches s0 s' h path)

report_ids :
    (u : Units) (d : Dict Motor)
    → Every (IsMotor u) d
    → map
        (λ (r : MotorReport). r.motor_id)
        (map
          (λ (m : Motor). record {
            motor_id = m.motor_id;
            position = m.position;
            velocity = m.velocity;
            target_position = m.target_position;
            status = m.status;
          })
          (values d))
      ≡ keys d
unfolding values keys
report_ids u [] h = refl
report_ids u ((id, m) ∷ d) h = ground (arith, h.0.own_id, report_ids u d h.1)

-- In every state that calls of the services and ticks of the physics reach from a new robot, every
-- motor and camera stands under its own id, the motors of the start are there, no motor is slower
-- than the least speed, and the battery has no more than it holds and is not drained. The two topics
-- list the same motors in the same order. The speed of a new motor must not be below the least speed.
pub Reach-IsSound :
    (u : Units) (now : ℕ) (s : Robot)
    → u.min_velocity ≤ u.default_velocity
    → Reach u (new_robot u now) s
    → IsSound u s × (map (λ (r : MotorReport). r.motor_id) (motor_reports s) ≡ (joint_state s).name)
unfolding motor_reports joint_state
Reach-IsSound u now s fast path =
    let h = reaches u fast (new_robot u now) s (new_robot-IsSound u fast now) path in
    (h, report_ids u s.motors h.motors)
