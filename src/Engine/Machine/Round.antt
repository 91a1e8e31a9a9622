-- ===== src/Engine/Machine/Round.antt =====
-- One round of the loop of `StateMachine.execute`, as a relation: which way it goes when.
use ss_prep.Base.{
  some, none, ap, sym, true, false, String, ◌≡◌, refl, inl, inr, arith, Exc, Result, ok, raise,
  Dict, lookup, has_key, contains, key_error, transition_error, then_do, Result-cases, Option-cases,
  Bool-cases, continue,
}
use ss_prep.Engine.World.{World, in_context, raise_if_cancelled, enter, exit}
use ss_prep.Engine.Registry.{Child}
use ss_prep.Engine.Machine.{
  Machine, Target, done, goto, ok_outcome, visit, find_child, route, step_child, step,
}

-- The world after the look at the token, and after the child is entered.
abbrev looked_at : World → World
looked_at w = record w { context = (raise_if_cancelled w.context).1 }

abbrev entered : String → World → World
entered current w = (enter current (looked_at w)).1

-- No request to cancel is seen, `current` is a child, and it is entered, run with the result
-- `result`, and left, which leaves the world `w'`.
pub record Ran (m : Machine Child) (current : String) (w : World) (child : Child)
    (result : Result String) (w' : World) : Type 0 where
  pub looked : (raise_if_cancelled w.context).0 ≡ ok tt
  pub is_child : lookup m.children current ≡ some child
  pub gave : (child.execute (entered current w)).0 ≡ result
  pub left :
      w'
      ≡ exit w.path
          (elim result [ ok o ↦ some o | raise e ↦ none ])
          (child.execute (entered current w)).1

-- The child returned an outcome that it declares, and that its transitions lead to `target`.
pub record Mapped (m : Machine Child) (current : String) (w : World) (target : String) (w' : World)
    : Type 0 where
  pub child : Child
  pub outcome : String
  pub trans : Dict String
  pub ran : Ran m current w child (ok outcome) w'
  pub declared : contains child.outcomes outcome ≡ true
  pub known : lookup m.transitions current ≡ some trans
  pub maps : lookup trans outcome ≡ some target

-- The ways a round at `current` in the world `w` can go: what it gives, and the world that it leaves.
pub data Round (m : Machine Child) (current : String) (w : World) (r : Result Target) (w' : World)
    : Type 0 where
  stopped :
      (e : Exc)
      → (raise_if_cancelled w.context).0 ≡ raise e
      → r ≡ raise e
      → w' ≡ looked_at w
      → Round m current w r w'
  missing_child :
      (raise_if_cancelled w.context).0 ≡ ok tt
      → lookup m.children current ≡ none
      → r ≡ raise key_error
      → w' ≡ looked_at w
      → Round m current w r w'
  child_raised :
      (child : Child) (e : Exc)
      → Ran m current w child (raise e) w'
      → r ≡ raise e
      → Round m current w r w'
  undeclared :
      (child : Child) (o : String)
      → Ran m current w child (ok o) w'
      → contains child.outcomes o ≡ false
      → r ≡ raise transition_error
      → Round m current w r w'
  no_transitions :
      (child : Child) (o : String)
      → Ran m current w child (ok o) w'
      → contains child.outcomes o ≡ true
      → lookup m.transitions current ≡ none
      → r ≡ raise key_error
      → Round m current w r w'
  unmapped :
      (child : Child) (o : String) (trans : Dict String)
      → Ran m current w child (ok o) w'
      → contains child.outcomes o ≡ true
      → lookup m.transitions current ≡ some trans
      → lookup trans o ≡ none
      → r ≡ raise transition_error
      → Round m current w r w'
  terminal :
      (target : String)
      → Mapped m current w target w'
      → contains m.outcomes target ≡ true
      → r ≡ ok (done target)
      → Round m current w r w'
  onward :
      (target : String)
      → Mapped m current w target w'
      → contains m.outcomes target ≡ false
      → has_key m.children target ≡ true
      → r ≡ ok (goto target)
      → Round m current w r w'
  dangling :
      (target : String)
      → Mapped m current w target w'
      → contains m.outcomes target ≡ false
      → has_key m.children target ≡ false
      → r ≡ raise transition_error
      → Round m current w r w'

-- A child that has run makes the round that its result makes.
step-Ran :
    (m : Machine Child) (current : String) (w : World) (child : Child) (result : Result String)
    (w' : World)
    → Ran m current w child result w'
    → step m current w ≡ (then_do result (route m current child), w')
unfolding step step_child visit in_context find_child enter ok_outcome
step-Ran m current w child (ok o) w' ran =
    rw (ran.looked, step, continue, ran.is_child, ran.gave)
      (ap (λ v. (route m current child o, v)) (sym ran.left))
step-Ran m current w child (raise e) w' ran =
    rw (ran.looked, step, continue, ran.is_child, ran.gave) (ap (λ v. (raise e, v)) (sym ran.left))

-- The tests after the child, on what its transitions hold.
Round-Mapped :
    (m : Machine Child) (current : String) (w : World) (target : String) (w' : World)
    → (mapped : Mapped m current w target w')
    → Round m current w (route m current mapped.child mapped.outcome) w'
unfolding route
Round-Mapped m current w target w' mapped = elim (Bool-cases (contains m.outcomes target)) [
  | inl ends ↦
      terminal target mapped ends (ground (arith, mapped.declared, mapped.known, mapped.maps))
  | inr on ↦ elim (Bool-cases (has_key m.children target)) [
    | inl is_child ↦
        onward target mapped on is_child
          (ground (arith, mapped.declared, mapped.known, mapped.maps))
    | inr no_child ↦
        dangling target mapped on no_child
          (ground (arith, mapped.declared, mapped.known, mapped.maps))
  ]
]

Round-route :
    (m : Machine Child) (current : String) (w : World) (child : Child) (o : String) (w' : World)
    → Ran m current w child (ok o) w'
    → Round m current w (route m current child o) w'
unfolding route
Round-route m current w child o w' ran = elim (Bool-cases (contains child.outcomes o)) [
  | inr not_declared ↦ undeclared child o ran not_declared (ground arith)
  | inl declared ↦ elim (Option-cases (lookup m.transitions current)) [
    | inl none_known ↦ no_transitions child o ran declared none_known (ground arith)
    | inr (trans, known) ↦ elim (Option-cases (lookup trans o)) [
      | inl not_mapped ↦ unmapped child o trans ran declared known not_mapped (ground arith)
      | inr (target, maps) ↦ Round-Mapped m current w target w' (record {
        child = child;
        outcome = o;
        trans = trans;
        ran = ran;
        declared = declared;
        known = known;
        maps = maps;
      })
    ]
  ]
]

Round-Ran :
    (m : Machine Child) (current : String) (w : World) (child : Child) (result : Result String)
    (w' : World)
    → Ran m current w child result w'
    → Round m current w (then_do result (route m current child)) w'
Round-Ran m current w child (ok o) w' ran = Round-route m current w child o w' ran
Round-Ran m current w child (raise e) w' ran = child_raised child e ran refl

-- The round that the loop's body makes is one of the relation.
pub step-Round :
    (m : Machine Child) (current : String) (w : World)
    → Round m current w (step m current w).0 (step m current w).1
unfolding step in_context find_child
step-Round m current w = elim (Result-cases (raise_if_cancelled w.context).0) [
  | inr (e, seen) ↦ stopped e seen (ground arith) (ground arith)
  | inl (_, looked) ↦ elim (Option-cases (lookup m.children current)) [
    | inl gone ↦ missing_child looked gone (ground arith) (ground arith)
    | inr (child, is_child) ↦
        let result = (child.execute (entered current w)).0 in
        let w1 : World =
          exit w.path (elim result [ ok o ↦ some o | raise e ↦ none ])
            (child.execute (entered current w)).1 in
        let ran : Ran m current w child result w1 = record {
          looked = looked;
          is_child = is_child;
          gave = refl;
          left = refl;
        } in
        let e = step-Ran m current w child result w1 ran in
        rw (e) (Round-Ran m current w child result w1 ran)
  ]
]

-- Conversely, what the relation allows is what the loop's body does.
pub Round-step :
    (m : Machine Child) (current : String) (w : World) (r : Result Target) (w' : World)
    → Round m current w r w'
    → ((step m current w).0 ≡ r) × ((step m current w).1 ≡ w')
unfolding step in_context find_child route
Round-step m current w r w' (stopped e seen p q) = ground arith
Round-step m current w r w' (missing_child looked gone p q) = ground arith
Round-step m current w r w' (child_raised child e ran p) =
    rw (step-Ran m current w child (raise e) w' ran) (ground arith)
Round-step m current w r w' (undeclared child o ran n p) =
    rw (step-Ran m current w child (ok o) w' ran) (ground arith)
Round-step m current w r w' (no_transitions child o ran d n p) =
    rw (step-Ran m current w child (ok o) w' ran) (ground arith)
Round-step m current w r w' (unmapped child o trans ran d k n p) =
    rw (step-Ran m current w child (ok o) w' ran) (ground arith)
Round-step m current w r w' (terminal target a e p) =
    rw (step-Ran m current w a.child (ok a.outcome) w' a.ran)
      (ground (arith, a.declared, a.known, a.maps))
Round-step m current w r w' (onward target a e c p) =
    rw (step-Ran m current w a.child (ok a.outcome) w' a.ran)
      (ground (arith, a.declared, a.known, a.maps))
Round-step m current w r w' (dangling target a e c p) =
    rw (step-Ran m current w a.child (ok a.outcome) w' a.ran)
      (ground (arith, a.declared, a.known, a.maps))
