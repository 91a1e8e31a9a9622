-- ===== src/Emulator/Sound/Parts.antt =====
-- What the parts of the services and of the physics keep.
use ss_prep.Base.{
  ℕ, ◌≤◌, ◌≡◌, refl, String, true, inl, inr, Bool-cases, Option-cases, List, [], ◌∷◌, arith, Dict,
  lookup, insert, ℤ, pos, negsuc, has_key, lookup-insert,
}
use ss_prep.Emulator.Robot.{
  Motor, Camera, Battery, Robot, Units, with_motor, ensure_camera, with_camera, each, is_ok,
}
use ss_prep.Emulator.Services.{at_least, clamp_level}
use ss_prep.Emulator.Physics.{move_motor, drain}
use ss_prep.Emulator.Sound.{Every, Every-insert, Every-lookup, IsMotor, seeds, all_in, IsSound}

pub all_in-insert :
    (id : String) (m : Motor) (d : Dict Motor) (ids : List String)
    → all_in d ids ≡ true
    → all_in (insert id m d) ids ≡ true
unfolding all_in
all_in-insert id m d [] h = refl
all_in-insert id m d (i ∷ ids) h =
    ground (arith, lookup-insert id i m d, all_in-insert id m d ids (ground (arith, h)))

pub has_key-each :
    (f : Motor → Motor) (d : Dict Motor) (id : String) → has_key (each f d) id ≡ has_key d id
unfolding each lookup
has_key-each f [] id = refl
has_key-each f ((j, m) ∷ d) id = ground (arith, has_key-each f d id)

pub all_in-each :
    (f : Motor → Motor) (d : Dict Motor) (ids : List String) → all_in (each f d) ids ≡ all_in d ids
unfolding all_in
all_in-each f d [] = refl
all_in-each f d (i ∷ ids) = ground (arith, has_key-each f d i, all_in-each f d ids)

pub with_motor-IsSound :
    (u : Units) (s : Robot) (id : String) (m : Motor)
    → IsMotor u id m
    → IsSound u s
    → IsSound u (with_motor id m s)
unfolding with_motor
with_motor-IsSound u s id m p h = record {
  motors = Every-insert (IsMotor u) id m s.motors p h.motors;
  seeded = all_in-insert id m s.motors seeds h.seeded;
  cameras = h.cameras;
  level = h.level;
  undrained = h.undrained;
}

pub own_camera :
    (s : Robot) (id : String)
    → Every (λ id (c : Camera). c.camera_id ≡ id) s.cameras
    → (ensure_camera s id).camera_id ≡ id
unfolding ensure_camera
own_camera s id h = elim (Option-cases (lookup s.cameras id)) [
  | inl missing ↦ rw (missing, ensure_camera) refl
  | inr (c, found) ↦
      rw (found, ensure_camera)
        (Every-lookup (λ id (c : Camera). c.camera_id ≡ id) s.cameras id c found h)
]

pub with_camera-IsSound :
    (u : Units) (s : Robot) (id : String) (c : Camera)
    → c.camera_id ≡ id
    → IsSound u s
    → IsSound u (with_camera id c s)
unfolding with_camera
with_camera-IsSound u s id c p h = record {
  motors = h.motors;
  seeded = h.seeded;
  cameras = Every-insert (λ id (c : Camera). c.camera_id ≡ id) id c s.cameras p h.cameras;
  level = h.level;
  undrained = h.undrained;
}

pub at_least_lem : (least : ℕ) (v : ℤ) → least ≤ at_least least v
unfolding at_least
at_least_lem least (pos n) = ground arith
at_least_lem least (negsuc n) = omega arith

pub clamp_level_lem : (full : ℕ) (v : ℤ) → clamp_level full v ≤ full
unfolding clamp_level
clamp_level_lem full (pos n) = ground arith
clamp_level_lem full (negsuc n) = omega arith

pub drain_level : (dt : ℕ) (b : Battery) (full : ℕ) → b.level ≤ full → (drain dt b).level ≤ full
unfolding drain
drain_level dt b full h = ground arith

pub drain_rate-drain : (dt : ℕ) (b : Battery) → (drain dt b).drain_rate ≡ b.drain_rate
unfolding drain
drain_rate-drain dt b = ground arith

pub move_motor-IsMotor :
    {u : Units} (dt : ℕ) (id : String) (m : Motor) → IsMotor u id m → IsMotor u id (move_motor dt m)
unfolding move_motor
move_motor-IsMotor dt id m p = elim (Bool-cases (is_ok m.status)) [
  | inl works ↦ rw (works, move_motor) (record { own_id = p.own_id; fast_enough = p.fast_enough })
  | inr faulty ↦ rw (faulty, move_motor) (record { own_id = p.own_id; fast_enough = p.fast_enough })
]
