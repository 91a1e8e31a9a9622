-- ===== src/Emulator/Faults.antt =====
-- Faults that are injected, and the reset.
use ss_prep.Base.{
  ℕ, ◌-◌, ◌≡◌, refl, ◌∙◌, ap, inl, inr, true, false, Bool-cases, some, List, [], ◌∷◌, arith, leb,
  lookup, String, ℤ, pos, abs, ◌-ℤ◌, diff,
}
use ss_prep.Emulator.Robot.{
  MotorStatus, status_ok, status_dead, Motor, Robot, Units, is_ok, is_dead, ensure_motor,
  with_motor,
}
use ss_prep.Emulator.Services.{
  motor_kind_to_status, TargetRequest, set_target, motor_target, fault_target, inject, inject_fault,
  reset, reset_motor,
}
use ss_prep.Emulator.Physics.{move_motor, update_physics}
use ss_prep.Emulator.Motion.{
  lookup-each, lookup-with_motor, elapse, distance, elapse_moves, arrived,
}

-- A motor with a fault that stands where it stood.
pub record IsStopped (m m' : Motor) : Type 0 where
  pub same_status : m'.status ≡ m.status
  pub same_position : m'.position ≡ m.position

update_stops :
    (now : ℕ) (s : Robot) (id : String) (m : Motor)
    → lookup s.motors id ≡ some m
    → is_ok m.status ≡ false
    → (m' : Motor) × (lookup (update_physics now s).motors id ≡ some m') × IsStopped m m'
unfolding update_physics move_motor
update_stops now s id m found faulty = elim (Bool-cases (leb now s.last_update)) [
  | inl earlier ↦
      rw (earlier, update_physics) (m, found, record { same_status = refl; same_position = refl })
  | inr later ↦
      rw (later, update_physics)
        (
          move_motor (now - s.last_update) m,
          lookup-each (move_motor (now - s.last_update)) s.motors id m found,
          record { same_status = ground (arith, faulty); same_position = ground (arith, faulty) },
        )
]

elapse_stops :
    (nows : List ℕ) (s : Robot) (id : String) (m : Motor)
    → lookup s.motors id ≡ some m
    → is_ok m.status ≡ false
    → (m' : Motor) × (lookup (elapse nows s).motors id ≡ some m') × IsStopped m m'
unfolding elapse
elapse_stops [] s id m found faulty =
    (m, found, record { same_status = refl; same_position = refl })
elapse_stops (now ∷ nows) s id m found faulty =
    let (m1, found1, stopped1) = update_stops now s id m found faulty in
    let (m2, found2, stopped2) =
      elapse_stops nows (update_physics now s) id m1 found1
        (ap is_ok stopped1.same_status ∙ faulty) in
    (
      m2,
      found2,
      record {
        same_status = stopped2.same_status ∙ stopped1.same_status;
        same_position = stopped2.same_position ∙ stopped1.same_position;
      },
    )

-- An injected motor fault is applied, and from then on the motor keeps the fault and its position,
-- however long the physics runs.
pub fault_stops :
    (u : Units) (target kind : String) (parameter : ℤ) (s : Robot) (id : String) (st : MotorStatus)
    → fault_target target ≡ motor_target id
    → motor_kind_to_status kind ≡ some st
    → is_ok st ≡ false
    → (nows : List ℕ)
    → let (applied, s') = inject_fault u target kind parameter s in
      (applied ≡ true)
      × (m' : Motor) × (lookup (elapse nows s').motors id ≡ some m')
      × (m'.status ≡ st)
      × (m'.position ≡ (ensure_motor u s id).position)
unfolding inject_fault inject
fault_stops u target kind parameter s id st parsed known faulty nows =
    let m = record (ensure_motor u s id) { status = st } in
    let (m', found, stopped) =
      elapse_stops nows (with_motor id m s) id m (lookup-with_motor id m s) faulty in
    rw (parsed, known, inject) (refl, m', found, stopped.same_status, stopped.same_position)

-- A motor that was set to `dead` refuses every target, however long the physics has run.
dead_refuses :
    (u : Units) (target kind : String) (parameter : ℤ) (s : Robot) (r : TargetRequest)
    → fault_target target ≡ motor_target r.motor_id
    → motor_kind_to_status kind ≡ some status_dead
    → (nows : List ℕ)
    → (set_target u r (elapse nows (inject_fault u target kind parameter s).1)).0 ≡ false
unfolding set_target ensure_motor is_dead is_ok
dead_refuses u target kind parameter s r parsed known nows =
    let (applied, m', found, dead, _) =
      fault_stops u target kind parameter s r.motor_id status_dead parsed known refl nows in
    ground (arith, found, dead)

distance-reset_motor : (m : Motor) → distance (reset_motor m) ≡ 0
unfolding distance reset_motor ◌-ℤ◌ abs diff
distance-reset_motor m = refl

-- After a reset every motor works, whatever its fault was, and stands at 0 with the target 0; the
-- physics does not move it from there, however long it runs.
reset_rests :
    (u : Units) (s : Robot) (id : String) (m : Motor)
    → lookup s.motors id ≡ some m
    → (nows : List ℕ)
    → (m' : Motor) × (lookup (elapse nows (reset u s)).motors id ≡ some m')
      × (m'.status ≡ status_ok)
      × (m'.position ≡ pos 0)
      × (m'.target_position ≡ pos 0)
unfolding reset reset_motor distance
reset_rests u s id m found nows =
    let (m', found', moved) =
      elapse_moves nows (reset u s) id (reset_motor m) (lookup-each reset_motor s.motors id m found)
        refl in
    (
      m',
      found',
      moved.works,
      arrived m'.target_position m'.position (ground (arith, moved.nearer, distance-reset_motor m))
          ∙ moved.same_target,
      moved.same_target,
    )
