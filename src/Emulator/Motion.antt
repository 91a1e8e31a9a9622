-- ===== src/Emulator/Motion.antt =====
-- How far a motor of the model comes: its numbers are exact, and the floats of the code come as near as
-- their rounding lets them.
use native.Mathlib.Nat.{mul-zero, mul-add}
use ss_prep.Base.{
  ℕ, ◌+◌, ◌-◌, ◌*◌, ◌≡◌, refl, ◌∙◌, ap, subst, inl, inr, Bool-cases, some, List, [], ◌∷◌, arith,
  leb, Dict, lookup, lookup-insert, eq_refl, String, ℤ, pos, negsuc, ◌-ℤ◌, abs, diff,
  distance-approach,
}
use ss_prep.Emulator.Robot.{status_ok, Motor, Robot, is_ok, with_motor, each}
use ss_prep.Emulator.Physics.{move_motor, update_physics}

pub lookup-each :
    {A : Type 0} (f : A → A) (d : Dict A) (k : String) (a : A)
    → lookup d k ≡ some a
    → lookup (each f d) k ≡ some (f a)
unfolding lookup each
lookup-each f [] k a h = cc
lookup-each f ((j, v) ∷ d) k a h = ground (arith, lookup-each f d k a)

unfoldable pub distance : Motor → ℕ
distance m = abs (m.target_position -ℤ m.position)

-- The nanoseconds that the physics counts over some clock readings.
unfoldable pub counted : ℕ → List ℕ → ℕ
counted last [] = 0
counted last (now ∷ nows) = (now - last) + counted now nows

unfoldable pub elapse : List ℕ → Robot → Robot
elapse [] s = s
elapse (now ∷ nows) s = elapse nows (update_physics now s)

-- A motor that works and has moved by `way` towards its target.
pub record HasMoved (way : ℕ) (m m' : Motor) : Type 0 where
  pub works : m'.status ≡ status_ok
  pub same_target : m'.target_position ≡ m.target_position
  pub same_speed : m'.max_velocity ≡ m.max_velocity
  pub nearer : distance m' ≡ distance m - way

move_motor-HasMoved :
    (dt : ℕ) (m : Motor) → m.status ≡ status_ok → HasMoved (m.max_velocity * dt) m (move_motor dt m)
unfolding move_motor distance is_ok
move_motor-HasMoved dt m h = rw (h) (record {
  works = refl;
  same_target = refl;
  same_speed = refl;
  nearer = distance-approach (m.max_velocity * dt) m.target_position m.position;
})

HasMoved-trans :
    (a b : ℕ) (m m' m'' : Motor) → HasMoved a m m' → HasMoved b m' m'' → HasMoved (a + b) m m''
HasMoved-trans a b m m' m'' h h' = record {
  works = h'.works;
  same_target = h'.same_target ∙ h.same_target;
  same_speed = h'.same_speed ∙ h.same_speed;
  nearer = ground (arith, h.nearer, h'.nearer);
}

unmoved : (m : Motor) → m.status ≡ status_ok → HasMoved 0 m m
unmoved m h = record { works = h; same_target = refl; same_speed = refl; nearer = omega arith }

standing : (v t : ℕ) (m : Motor) → m.status ≡ status_ok → t ≡ 0 → HasMoved (v * t) m m
standing v t m h z = rw (z, mul-zero v) (unmoved m h)

-- One motor of a robot, some rounds of the physics later.
abbrev pub MovesIn : ℕ → String → Motor → Robot → Type 0
MovesIn way id m s = (m' : Motor) × (lookup s.motors id ≡ some m') × HasMoved way m m'

update_moves :
    (now : ℕ) (s : Robot) (id : String) (m : Motor)
    → lookup s.motors id ≡ some m
    → m.status ≡ status_ok
    → MovesIn (m.max_velocity * (now - s.last_update)) id m (update_physics now s)
unfolding update_physics
update_moves now s id m found works = elim (Bool-cases (leb now s.last_update)) [
  | inl earlier ↦
      rw (earlier, update_physics)
        (
          m,
          found,
          standing (m.max_velocity) (now - s.last_update) m works (ground (arith, earlier)),
        )
  | inr later ↦
      rw (later, update_physics)
        (
          move_motor (now - s.last_update) m,
          lookup-each (move_motor (now - s.last_update)) s.motors id m found,
          move_motor-HasMoved (now - s.last_update) m works,
        )
]

update-last_update : (now : ℕ) (s : Robot) → (update_physics now s).last_update ≡ now
unfolding update_physics
update-last_update now s = ground arith

ways :
    (v v' time now last : ℕ) (nows : List ℕ)
    → v' ≡ v
    → last ≡ now
    → v * time + v' * counted last nows ≡ v * (time + counted now nows)
ways v v' time now last nows h h' = rw (h, h', mul-add v time (counted now nows)) refl

-- A motor that works comes nearer to its target by exactly its speed times the time that the physics
-- counts, and reaches it when this is enough, however the clock readings cut the time; readings that
-- do not go forward count for nothing.
pub elapse_moves :
    (nows : List ℕ) (s : Robot) (id : String) (m : Motor)
    → lookup s.motors id ≡ some m
    → m.status ≡ status_ok
    → MovesIn (m.max_velocity * counted s.last_update nows) id m (elapse nows s)
unfolding elapse counted
elapse_moves [] s id m found works = (m, found, standing m.max_velocity 0 m works refl)
elapse_moves (now ∷ nows) s id m found works =
    let (m1, found1, moved1) = update_moves now s id m found works in
    let (m2, found2, moved2) = elapse_moves nows (update_physics now s) id m1 found1 moved1.works in
    (
      m2,
      found2,
      subst (λ (way : ℕ). HasMoved way m m2)
          (ways m.max_velocity m1.max_velocity (now - s.last_update) now
            (update_physics now s).last_update nows moved1.same_speed (update-last_update now s))
          (HasMoved-trans _ _ m m1 m2 moved1 moved2),
    )

pub arrived : (a b : ℤ) → abs (a -ℤ b) ≡ 0 → b ≡ a
unfolding ◌-ℤ◌ abs diff
arrived (pos a) (pos b) h = ap pos (ground arith)
arrived (pos a) (negsuc b) h = ground arith
arrived (negsuc a) (pos b) h = ground arith
arrived (negsuc a) (negsuc b) h = ap negsuc (ground arith)

pub lookup-with_motor :
    (id : String) (m : Motor) (s : Robot) → lookup (with_motor id m s).motors id ≡ some m
unfolding with_motor
lookup-with_motor id m s = ground (arith, lookup-insert id id m s.motors, eq_refl id)
