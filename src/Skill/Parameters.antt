-- ===== src/Skill/Parameters.antt =====
-- mw_skill_states: how a skill state finds the values of its goal (drive_to_pose.py, move_motor.py).
pub mod Chosen
use ss_prep.Base.{
  String, Option, none, some, List, [], ◌∷◌, Dict, lookup, insert, Value, null, ℤ, Result, ok,
  raise, then_do, key_error,
}

-- The builtins `float(…)` and `str(…)`.
pub record Builtins : Type 0 where
  pub float : Value → Result ℤ
  pub text : Value → String

-- `fixed is not None`.
unfoldable pub is_given : Value → Option Value
is_given null = none
is_given v = some v

-- `self._fixed.get(key)`, where `None` is as good as a missing key.
unfoldable pub constant : Dict Value → String → Option Value
unfolding is_given
constant fixed key = elim (lookup fixed key) [ none ↦ none | some v ↦ is_given v ]

-- The message after one optional key.
unfoldable pub set_found : String → Option ℤ → Dict ℤ → Dict ℤ
set_found key none goal = goal
set_found key (some x) goal = insert key x goal

module _ (py : Builtins) where
  -- `DriveToPoseState._resolve_required`.
  unfoldable pub resolve_required : Dict Value → Dict Value → String → Result ℤ
  unfolding constant
  resolve_required fixed userdata key = elim (constant fixed key) [
    | some v ↦ py.float v
    | none ↦ elim (lookup userdata key) [ some v ↦ py.float v | none ↦ raise key_error ]
  ]

  -- `DriveToPoseState._resolve_optional`.
  unfoldable pub resolve_optional : Dict Value → Dict Value → String → Result (Option ℤ)
  unfolding constant
  resolve_optional fixed userdata key = elim (constant fixed key) [
    | some v ↦ then_do (py.float v) (λ x. ok (some x))
    | none ↦ elim (lookup userdata key) [
      | some v ↦ then_do (py.float v) (λ x. ok (some x))
      | none ↦ ok none
    ]
  ]

  -- The functions of move_motor.py, which capture_image.py imports.
  unfoldable pub require_str : String → Value → Dict Value → Result String
  unfolding is_given
  require_str key fixed userdata = elim (is_given fixed) [
    | some v ↦ ok (py.text v)
    | none ↦ elim (lookup userdata key) [ some v ↦ ok (py.text v) | none ↦ raise key_error ]
  ]

  unfoldable pub require_float : String → Value → Dict Value → Result ℤ
  unfolding is_given
  require_float key fixed userdata = elim (is_given fixed) [
    | some v ↦ py.float v
    | none ↦ elim (lookup userdata key) [ some v ↦ py.float v | none ↦ raise key_error ]
  ]

  unfoldable pub optional_float : String → Value → Dict Value → Result (Option ℤ)
  unfolding is_given
  optional_float key fixed userdata = elim (is_given fixed) [
    | some v ↦ then_do (py.float v) (λ x. ok (some x))
    | none ↦ elim (lookup userdata key) [
      | some v ↦ then_do (py.float v) (λ x. ok (some x))
      | none ↦ ok none
    ]
  ]

  -- The two loops of `DriveToPoseState.build_goal`, on the attributes of the message.
  unfoldable pub set_required : Dict Value → Dict Value → List String → Dict ℤ → Result (Dict ℤ)
  unfolding resolve_required
  set_required fixed userdata [] goal = ok goal
  set_required fixed userdata (key ∷ keys) goal =
      then_do (resolve_required fixed userdata key)
        (λ x. set_required fixed userdata keys (insert key x goal))

  unfoldable pub set_optional : Dict Value → Dict Value → List String → Dict ℤ → Result (Dict ℤ)
  unfolding resolve_optional set_found
  set_optional fixed userdata [] goal = ok goal
  set_optional fixed userdata (key ∷ keys) goal =
      then_do (resolve_optional fixed userdata key)
        (λ found. set_optional fixed userdata keys (set_found key found goal))
