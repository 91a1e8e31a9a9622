-- ===== src/Engine/Registry.antt =====
-- state.py: the classes of the engine, and the registry that finds them by id.
pub mod Ids
use ss_prep.Base.{
  String, ◌≡◌, Bool, true, false, not, ◌&&◌, none, some, List, [], ◌∷◌, arith, Bool-cases, inl, inr,
  ◌==◌, if◌then◌else◌, Dict, lookup, insert, has_key, lookup-insert, Value, Result, ok, raise,
  registry_error, not_implemented_error, Action,
}
use ss_prep.Engine.World.{World}

-- What a container sees of a child: the declared outcomes and `execute`.
pub record Child : Type 0 where
  pub outcomes : List String
  pub execute : Action World String

-- `State` itself: its one outcome, and an `execute` that a subclass must override.
pub base_state : Child
base_state = record { outcomes = "done" ∷ []; execute = λ w. (raise not_implemented_error, w) }

-- A class object. `construct` gets whether `node=` is passed, and the other keywords.
pub record Class (A : Type 0) : Type 0 where
  pub name : String
  pub is_state : Bool
  pub is_behavior : Bool
  pub construct : Bool → Dict Value → Result A

-- What `register_state` is called with.
pub data Decorated : Type 0 where
  bare : Decorated
  with_id : String → Decorated
  without_id : Decorated

module _ {A : Type 0} where
  -- `StateRegistry.register`.
  unfoldable pub register : String → Class A → Bool → Dict (Class A) → Result (Dict (Class A))
  register id klass override classes =
      if has_key classes id && not override
      then raise registry_error
      else ok (insert id klass classes)

  unfoldable pub resolve : Dict (Class A) → String → Result (Class A)
  resolve classes id = elim (lookup classes id) [ none ↦ raise registry_error | some k ↦ ok k ]

  unfoldable pub registered_id : Decorated → Class A → String
  registered_id bare klass = klass.name
  registered_id (with_id id) klass = id
  registered_id without_id klass = klass.name

  unfoldable pub register_state :
      Decorated → Bool → Class A → Dict (Class A) → Result (Dict (Class A))
  unfolding register registered_id
  register_state arg override klass classes =
      register (registered_id arg klass) klass override classes

  -- What `@register_state` leaves behind: the id of the decorator finds the class and every other id
  -- finds what it found before; or `RegistryError`, for an id that was taken, with no `override`.
  abbrev pub IsRegistered :
      Decorated → Bool → Class A → Dict (Class A) → Result (Dict (Class A)) → Type 0
  IsRegistered arg override klass classes (ok classes') =
      (id : String)
      → resolve classes' id
        ≡ (if registered_id arg klass == id then ok klass else resolve classes id)
  IsRegistered arg override klass classes (raise e) =
      (e ≡ registry_error) × (override ≡ false) × (has_key classes (registered_id arg klass) ≡ true)

  -- `register_state` in every form of its argument, with and without `override`.
  pub register_state-IsRegistered :
      (arg : Decorated) (override : Bool) (klass : Class A) (classes : Dict (Class A))
      → IsRegistered arg override klass classes (register_state arg override klass classes)
  unfolding register_state resolve
  register_state-IsRegistered arg override klass classes =
      elim (Bool-cases (has_key classes (registered_id arg klass) && not override)) [
        | inl taken ↦ rw (taken) (ground arith)
        | inr free ↦
            rw (free)
              (λ id. ground (arith, lookup-insert (registered_id arg klass) id klass classes))
      ]
