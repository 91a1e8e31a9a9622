-- ===== src/Engine/Machine/Outcome.antt =====
-- What `StateMachine.execute` returns.
use ss_prep.Base.{
  ap, some, ℕ, zero, suc, String, ◌≡◌, true, Option, none, some, arith, contains, ok, has_key,
  Result-cases, inl, inr,
}
use ss_prep.Engine.World.{World}
use ss_prep.Engine.Registry.{Child}
use ss_prep.Engine.Machine.{
  Machine, Target, done, goto, visit, route, step_child, step, run_loop, run_from, execute,
}

-- A round that ends the run ends it with an outcome of the machine, and one that goes on goes to a
-- child.
abbrev pub IsTarget : Machine Child → Target → Type 0
IsTarget m (done t) = contains m.outcomes t ≡ true
IsTarget m (goto t) = has_key m.children t ≡ true

pub route-IsTarget :
    (m : Machine Child) (current : String) (child : Child) (outcome : String) (t : Target)
    → route m current child outcome ≡ ok t
    → IsTarget m t
unfolding route
route-IsTarget m current child outcome (done t) h = ground arith
route-IsTarget m current child outcome (goto t) h = ground arith

pub step_child-IsTarget :
    (m : Machine Child) (current : String) (child : Child) (w : World) (t : Target)
    → (step_child m current child w).0 ≡ ok t
    → IsTarget m t
unfolding step_child
step_child-IsTarget m current child w t h = elim (Result-cases (visit current child w).0) [
  | inl (o, e) ↦ route-IsTarget m current child o t (rw e at h)
  | inr (x, e) ↦ ground arith
]

pub step-IsTarget :
    (m : Machine Child) (current : String) (w : World) (t : Target)
    → (step m current w).0 ≡ ok t
    → IsTarget m t
unfolding step
step-IsTarget m current w t h = grind (arith, step_child-IsTarget)

pub run_loop-outcomes :
    (m : Machine Child) (left : ℕ) (current : String) (w : World) (t : String)
    → (run_loop m left current w).0 ≡ ok t
    → contains m.outcomes t ≡ true
unfolding run_loop
run_loop-outcomes m zero current w t h = ground arith
run_loop-outcomes m (suc left) current w t h = elim (Result-cases (step m current w).0) [
  | inl (done t', e) ↦ ground (arith, step-IsTarget m current w (done t'))
  | inl (goto t', e) ↦ run_loop-outcomes m left t' (step m current w).1 t (ground arith)
  | inr (x, e) ↦ ground arith
]

run_from-outcomes :
    (m : Machine Child) (initial : Option String) (w : World) (t : String)
    → (run_from m initial w).0 ≡ ok t
    → contains m.outcomes t ≡ true
unfolding run_from
run_from-outcomes m none w t h = cc
run_from-outcomes m (some i) w t h = run_loop-outcomes m 10000 i w t h

-- The outcome that `execute` returns is one of the machine's declared outcomes, whatever the
-- children do.
pub execute-outcomes :
    (m : Machine Child) (w : World) (t : String)
    → (execute m w).0 ≡ ok t
    → contains m.outcomes t ≡ true
unfolding execute
execute-outcomes m w t h = run_from-outcomes m m.initial w t h

-- A machine with an initial state runs the loop from there, with the whole cap.
pub execute-starts :
    (m : Machine Child) (i : String) (w : World)
    → m.initial ≡ some i
    → execute m w ≡ run_loop m 10000 i w
unfolding execute run_from
execute-starts m i w e = ap (λ o. run_from m o w) e
