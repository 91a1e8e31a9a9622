-- ===== src/Emulator/Sound.antt =====
-- virtual_robot_node.py: the states that the services and the physics can reach.
pub mod Parts
pub mod Kept
use ss_prep.Base.{
  ℕ, ◌≤◌, ◌-◌, ◌*◌, ◌≡◌, refl, ap, ◌∙◌, String, Bool, true, false, ◌&&◌, inl, inr, Bool-cases,
  Option, none, some, Option-cases, List, [], ◌∷◌, arith, ◌==◌, eq_iff, leb, ltb, Dict, lookup,
  insert, ℤ, pos, negsuc, map, keys, values, has_key, lookup-insert, subst, is_some,
}
use ss_prep.Emulator.Robot.{
  Motor, Camera, Battery, Robot, Units, new_motor, ensure_motor, with_motor, ensure_camera,
  with_camera, each, is_dead, is_ok, seed_motors, new_robot,
}
use ss_prep.Emulator.Services.{
  at_least, TargetRequest, set_target, capture, FaultTarget, motor_target, camera_target,
  battery_target, unknown_target, fault_target, motor_kind_to_status, clamp_level, inject,
  inject_fault, reset, reset_motor,
}
use ss_prep.Emulator.Physics.{
  move_motor, drain, update_physics, MotorReport, JointState, motor_reports, joint_state,
}

-- Every entry of a dictionary.
abbrev pub Every : {A : Type 0} → (String → A → Type 0) → Dict A → Type 0
Every P [] = Unit
Every P ((k, v) ∷ d) = P k v × Every P d

pub Every-insert :
    {A : Type 0} (P : String → A → Type 0) (k : String) (v : A) (d : Dict A)
    → P k v
    → Every P d
    → Every P (insert k v d)
unfolding insert
Every-insert P k v [] p h = (p, tt)
Every-insert P k v ((j, w) ∷ d) p h = elim (Bool-cases (j == k)) [
  | inl same ↦ rw (same, insert) (subst (λ (i : String). P i v) (ground (arith, eq_iff j k)) p, h.1)
  | inr other ↦ rw (other, insert) (h.0, Every-insert P k v d p h.1)
]

pub Every-each :
    {A : Type 0} (P : String → A → Type 0) (f : A → A) (d : Dict A)
    → ((k : String) (v : A) → P k v → P k (f v))
    → Every P d
    → Every P (each f d)
unfolding each
Every-each P f [] keeps h = tt
Every-each P f ((k, v) ∷ d) keeps h = (keeps k v h.0, Every-each P f d keeps h.1)

pub Every-lookup :
    {A : Type 0} (P : String → A → Type 0) (d : Dict A) (k : String) (v : A)
    → lookup d k ≡ some v
    → Every P d
    → P k v
unfolding lookup
Every-lookup P [] k v found h = absurd (ground (arith, found))
Every-lookup P ((j, w) ∷ d) k v found h = elim (Bool-cases (j == k)) [
  | inl same ↦
      subst (λ (i : String). P i v) (ground (arith, eq_iff j k))
        (subst (λ x. P j x) (ground (arith, found, same)) h.0)
  | inr other ↦ Every-lookup P d k v (ground (arith, found, other)) h.1
]

-- A motor under its own id, with a speed that the services allow.
pub record IsMotor (u : Units) (id : String) (m : Motor) : Type 0 where
  pub own_id : m.motor_id ≡ id
  pub fast_enough : u.min_velocity ≤ m.max_velocity

pub new_motor-IsMotor :
    (u : Units) (id : String) → u.min_velocity ≤ u.default_velocity → IsMotor u id (new_motor u id)
unfolding new_motor
new_motor-IsMotor u id fast = record { own_id = refl; fast_enough = fast }

pub ensure_motor-IsMotor :
    (u : Units) (s : Robot) (id : String)
    → u.min_velocity ≤ u.default_velocity
    → Every (IsMotor u) s.motors
    → IsMotor u id (ensure_motor u s id)
unfolding ensure_motor
ensure_motor-IsMotor u s id fast h = elim (Option-cases (lookup s.motors id)) [
  | inl missing ↦ rw (missing, ensure_motor) (new_motor-IsMotor u id fast)
  | inr (m, found) ↦ rw (found, ensure_motor) (Every-lookup (IsMotor u) s.motors id m found h)
]

-- The motors that are there from the start.
abbrev pub seeds : List String
seeds = "base_x" ∷ "base_yaw" ∷ "arm_shoulder" ∷ "arm_gripper" ∷ []

unfoldable pub all_in : Dict Motor → List String → Bool
all_in d [] = true
all_in d (id ∷ ids) = has_key d id && all_in d ids

-- Every motor and camera stands under its own id, the motors of the start are there, no speed is below
-- the least one, and the battery has no more than it holds and is not drained.
pub record IsSound (u : Units) (s : Robot) : Type 0 where
  pub motors : Every (IsMotor u) s.motors
  pub seeded : all_in s.motors seeds ≡ true
  pub cameras : Every (λ id (c : Camera). c.camera_id ≡ id) s.cameras
  pub level : s.battery.level ≤ u.full
  pub undrained : s.battery.drain_rate ≡ 0

-- A call of a service, or a tick of the timer of the physics.
pub data Step (u : Units) (s s' : Robot) : Type 0 where
  set_target_call : (r : TargetRequest) → s' ≡ (set_target u r s).1 → Step u s s'
  capture_call :
      (camera_id save_path : String) → s' ≡ (capture camera_id save_path s).1 → Step u s s'
  inject_fault_call :
      (target kind : String) (parameter : ℤ)
      → s' ≡ (inject_fault u target kind parameter s).1
      → Step u s s'
  reset_call : s' ≡ reset u s → Step u s s'
  physics_tick : (now : ℕ) → s' ≡ update_physics now s → Step u s s'

pub data Reach (u : Units) (s : Robot) : Robot → Type 0 where
  here : Reach u s s
  next : {s' s'' : Robot} → Reach u s s' → Step u s' s'' → Reach u s s''
