-- ===== src/Executor/Imports.antt =====
-- hfsm_executor_node.py: `__init__` with the modules that it imports. What the code of a module does when
-- it is imported is a parameter; where that is a row of decorators, it is `register_state`.
use ss_prep.Base.{
  ℕ, ◌≡◌, refl, arith, String, Bool, false, none, List, [], ◌∷◌, ◌++◌, ◌==◌, if◌then◌else◌, Dict,
  ok, raise, Action, Result-cases, Bool-cases, inl, inr, lookup-insert, eq_iff,
}
use ss_prep.Engine.World.{World}
use ss_prep.Engine.Registry.{Class, Decorated, registered_id, register, register_state, resolve}
use ss_prep.Executor.Node.{idle, Executor}

-- `_import_subjob_modules`, with the modules whose import is logged as failed.
module _ {S : Type 0} (import_module : String → Action S (Unit {0})) where
  unfoldable pub import_one : String → S → List String × S
  import_one m s = let (r, s') = import_module m s in (elim r [ ok u ↦ [] | raise e ↦ m ∷ [] ], s')

  unfoldable pub import_subjob_modules : List String → S → List String × S
  unfolding import_one
  import_subjob_modules [] s = ([], s)
  import_subjob_modules (m ∷ ms) s =
      let (failed, s1) = if m == "" then ([], s) else import_one m s in
      let (rest, s2) = import_subjob_modules ms s1 in (failed ++ rest, s2)

-- The state of a new node, at the clock reading `now`.
unfoldable pub new_executor : ℕ → World → Executor
new_executor now w = record {
  subjob_id = "";
  active_state = "";
  status = idle;
  start_time = now;
  spec_json = "";
  userdata_snapshot_json = "{}";
  busy = false;
  cancel_token = none;
  world = w;
  ended = [];
}

-- A class with its decorator.
pub record Registration (A : Type 0) : Type 0 where
  pub decorator : Decorated
  pub override : Bool
  pub klass : Class A

module _ {A : Type 0} where
  -- The decorators of a module, up to the first that raises.
  unfoldable pub run_decorators : List (Registration A) → Action (Dict (Class A)) (Unit {0})
  unfolding register_state
  run_decorators [] classes = (ok tt, classes)
  run_decorators (d ∷ ds) classes = elim (register_state d.decorator d.override d.klass classes) [
    | ok classes' ↦ run_decorators ds classes'
    | raise e ↦ (raise e, classes)
  ]

  abbrev pub NoOverride : List (Registration A) → Type 0
  NoOverride [] = Unit
  NoOverride (d ∷ ds) = (d.override ≡ false) × NoOverride ds

  register_state_keeps :
      (d : Registration A) (classes classes' : Dict (Class A)) (id : String) (klass : Class A)
      → d.override ≡ false
      → register_state d.decorator d.override d.klass classes ≡ ok classes'
      → resolve classes id ≡ ok klass
      → resolve classes' id ≡ ok klass
  unfolding register_state resolve register
  register_state_keeps d classes classes' id klass fixed registered found = ground (
    arith,
    fixed,
    registered,
    lookup-insert (registered_id d.decorator d.klass) id d.klass classes,
    eq_iff (registered_id d.decorator d.klass) id,
  )

  run_decorators_keeps :
      (ds : List (Registration A)) (classes : Dict (Class A)) (id : String) (klass : Class A)
      → NoOverride ds
      → resolve classes id ≡ ok klass
      → resolve (run_decorators ds classes).1 id ≡ ok klass
  unfolding run_decorators
  run_decorators_keeps [] classes id klass fixed found = found
  run_decorators_keeps (d ∷ ds) classes id klass fixed found =
      elim (Result-cases (register_state d.decorator d.override d.klass classes)) [
        | inr (e, error) ↦ rw (error, run_decorators) found
        | inl (classes', registered) ↦
            rw (registered, run_decorators)
              (run_decorators_keeps ds classes' id klass fixed.1
                (register_state_keeps d classes classes' id klass fixed.0 registered found))
      ]

module _ {A : Type 0} (body : String → List (Registration A)) where
  -- The registry after the imports.
  abbrev pub imported : List String → Dict (Class A) → Dict (Class A)
  imported ms classes = (import_subjob_modules (λ m. run_decorators (body m)) ms classes).1

  imported_keeps :
      ((m : String) → NoOverride (body m))
      → (ms : List String) (classes : Dict (Class A)) (id : String) (klass : Class A)
      → resolve classes id ≡ ok klass
      → resolve (imported ms classes) id ≡ ok klass
  unfolding import_subjob_modules import_one
  imported_keeps fixed [] classes id klass found = found
  imported_keeps fixed (m ∷ ms) classes id klass found = elim (Bool-cases (m == "")) [
    | inl empty ↦ rw (empty, import_subjob_modules) (imported_keeps fixed ms classes id klass found)
    | inr named ↦
        rw (named, import_subjob_modules)
          (imported_keeps fixed ms _ id klass
            (run_decorators_keeps (body m) classes id klass (fixed m) found))
  ]

  imported-append :
      (before after : List String) (classes : Dict (Class A))
      → imported (before ++ after) classes ≡ imported after (imported before classes)
  unfolding import_subjob_modules import_one
  imported-append [] after classes = refl
  imported-append (m ∷ ms) after classes = imported-append ms after _

  -- Where no decorator overrides: every class that a module has registered by the time its import ends,
  -- at its end or at a decorator that raises, is still found under its id once all the modules are
  -- imported, whichever of them fail before it or after it.
  pub import_subjob_modules_keeps :
      ((m : String) → NoOverride (body m))
      → (before after : List String) (m : String) (classes : Dict (Class A)) (id : String)
        (klass : Class A)
      → (m == "") ≡ false
      → resolve (run_decorators (body m) (imported before classes)).1 id ≡ ok klass
      → resolve (imported (before ++ m ∷ after) classes) id ≡ ok klass
  unfolding import_subjob_modules import_one
  import_subjob_modules_keeps fixed before after m classes id klass named found =
      rw (imported-append before (m ∷ after) classes)
        (rw (named, import_subjob_modules) (imported_keeps fixed after _ id klass found))
