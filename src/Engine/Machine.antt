-- ===== src/Engine/Machine.antt =====
-- state_machine.py: the container of states with transitions.
pub mod Outcome
pub mod Round
pub mod Trail
pub mod Total
pub mod Cancelled
pub mod Nesting
use ss_prep.Base.{
  ℕ, zero, suc, String, false, Option, none, some, List, [], ◌∷◌, contains, if◌then◌else◌, Dict,
  lookup, insert, has_key, Result, ok, raise, then_do, continue, hfsm_error, transition_error,
  self_iteration_error, key_error, Action, ◌>>=◌, ◌>>◌,
}
use ss_prep.Engine.World.{World, in_context, raise_if_cancelled, enter, exit}
use ss_prep.Engine.Registry.{Child, Class, resolve}

-- `children` and `transitions` are the dictionaries of the object.
pub record Machine (C : Type 0) : Type 0 where
  pub outcomes : List String
  pub initial : Option String
  pub children : Dict C
  pub transitions : Dict (Dict String)

-- What `add` takes for a child. `this` is the machine itself, and `other_ref` is no state, class
-- or text.
pub data StateRef (C : Type 0) : Type 0 where
  instance_of : C → StateRef C
  this : StateRef C
  klass : Class C → StateRef C
  id : String → StateRef C
  other_ref : StateRef C

module _ {C : Type 0} where
  unfoldable pub new : Option (List String) → Option String → Machine C
  new outcomes initial = record {
    outcomes = elim outcomes [ none ↦ "done" ∷ "failed" ∷ [] | some os ↦ os ];
    initial = initial;
    children = [];
    transitions = [];
  }

  unfoldable pub materialize : Dict (Class C) → StateRef C → Result (Option C)
  unfolding resolve
  materialize classes (instance_of c) = ok (some c)
  materialize classes this = ok none
  materialize classes (klass k) =
      if k.is_state then then_do (k.construct false []) (λ c. ok (some c)) else raise hfsm_error
  materialize classes (id i) =
      then_do (resolve classes i) (λ k. then_do (k.construct false []) (λ c. ok (some c)))
  materialize classes other_ref = raise hfsm_error

  -- The end of `add`, once the child is at hand.
  unfoldable pub attach : String → C → Option (Dict String) → Machine C → Machine C
  attach name c transitions m = record m {
    children = insert name c m.children;
    transitions = insert name (elim transitions [ none ↦ [] | some t ↦ t ]) m.transitions;
    initial = elim m.initial [ none ↦ some name | some i ↦ some i ];
  }

  -- `materialize` gives `none` for the machine itself, which `add` refuses.
  unfoldable pub add :
      Dict (Class C) → String → StateRef C → Option (Dict String) → Machine C → Result (Machine C)
  unfolding attach materialize
  add classes name ref transitions m =
      if has_key m.children name
      then raise hfsm_error
      else then_do (materialize classes ref)
          (elim [ none ↦ raise self_iteration_error | some c ↦ ok (attach name c transitions m) ])

-- Where a transition leads.
pub data Target : Type 0 where
  done : String → Target
  goto : String → Target

unfoldable pub ok_outcome : Result String → Option String
ok_outcome (ok o) = some o
ok_outcome (raise e) = none

-- `try: child.execute finally: _observer.exit`.
unfoldable pub visit : String → Child → Action World String
unfolding enter exit ok_outcome
visit name child w =
    let (parent_path, w1) = enter name w in
    let (r, w2) = child.execute w1 in (r, exit parent_path (ok_outcome r) w2)

unfoldable pub find_child : {C : Type 0} → Machine C → String → Result C
find_child m name = elim (lookup m.children name) [ none ↦ raise key_error | some c ↦ ok c ]

-- The tests that follow a child's outcome.
unfoldable pub route : Machine Child → String → Child → String → Result Target
route m current child outcome =
    if contains child.outcomes outcome
    then elim (lookup m.transitions current) [
      | none ↦ raise key_error
      | some trans ↦ elim (lookup trans outcome) [
        | none ↦ raise transition_error
        | some target ↦
            if contains m.outcomes target
            then ok (done target)
            else if has_key m.children target
            then ok (goto target)
            else raise transition_error
      ]
    ]
    else raise transition_error

-- One round of the loop, without the count of visits, once the child is found.
unfoldable pub step_child : Machine Child → String → Child → Action World Target
unfolding visit
step_child m current child w =
    let (r, w') = visit current child w in (then_do r (route m current child), w')

unfoldable pub step : Machine Child → String → Action World Target
unfolding find_child
step m current = do
  in_context raise_if_cancelled
  λ w. continue (find_child m current) (step_child m current) w

-- The `while True`, on the number of visits that the cap still allows.
unfoldable pub run_loop : Machine Child → ℕ → String → Action World String
run_loop m zero current w = (raise hfsm_error, w)
run_loop m (suc left) current w =
    let (r, w') = step m current w in
    elim r [
      | raise e ↦ (raise e, w')
      | ok t ↦ elim t [ done target ↦ (ok target, w') | goto target ↦ run_loop m left target w' ]
    ]

pub visit_cap : ℕ
visit_cap = 10000

unfoldable pub run_from : Machine Child → Option String → Action World String
unfolding visit_cap
run_from m none w = (raise hfsm_error, w)
run_from m (some initial) w = run_loop m visit_cap initial w

unfoldable pub execute : Machine Child → Action World String
unfolding run_from
execute m w = run_from m m.initial w
