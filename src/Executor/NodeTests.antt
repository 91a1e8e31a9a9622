-- ===== src/Executor/NodeTests.antt =====
-- A new node, and modules that it imports.
use ss_prep.Base.{
  ◌≡◌, refl, arith, true, false, List, [], ◌∷◌, ok, raise, cancelled_error, insert, lookup,
}
use ss_prep.Engine.Tree.{State}
use ss_prep.Engine.Registry.{bare, register, registered_id, register_state, resolve}
use ss_prep.Executor.Node.{goal_callback, cancel_callback}
use ss_prep.Executor.Dispatch.{begin, finish}
use ss_prep.Executor.Imports.{
  new_executor, Registration, run_decorators, imported, import_one, import_subjob_modules,
  import_subjob_modules_keeps,
}
use ss_prep.Executor.Serial.{
  Served, accept, start, ask_cancel, run_over, here, next, IsAlone, Reach-IsAlone,
}
use ss_prep.Executor.Samples.{encoding, quiet_world, demo_class}

-- A new node accepts a goal, starts it, gets a request to cancel, and ends it.
abbrev after_start : Served
after_start = record {
  executor = (begin encoding "Demo" [] (new_executor 3 quiet_world)).1;
  accepted = 0;
  running = 1;
}

abbrev after_end : Served
after_end = record {
  executor =
      (finish encoding "Demo" "Demo" (raise cancelled_error)
        (record (cancel_callback after_start.executor) { world = quiet_world })).1;
  accepted = 0;
  running = 0;
}

accepted_new : goal_callback (new_executor 3 quiet_world) ≡ true
unfolding goal_callback new_executor
accepted_new = refl

Reach-IsAlone_example : IsAlone after_end
Reach-IsAlone_example =
    Reach-IsAlone encoding (λ d. ("{}", refl)) 3 quiet_world after_end
      (next
        (next
          (next (next here (accept accepted_new refl refl)) (start "Demo" [] (omega arith) refl))
          (ask_cancel refl))
        (run_over "Demo" "Demo" (raise cancelled_error) quiet_world (omega arith) refl))

-- Every module registers `Demo` twice, so that each import fails.
abbrev twice : List (Registration State)
twice =
    let d : Registration State = record {
      decorator = bare;
      override = false;
      klass = demo_class;
    } in
    d ∷ d ∷ []

demo_registered :
    resolve (run_decorators twice (imported (λ m. twice) ("first" ∷ []) [])).1 "Demo"
    ≡ ok demo_class
unfolding resolve run_decorators import_subjob_modules import_one register_state register
    registered_id insert lookup
demo_registered = refl

import_subjob_modules_keeps_example :
    resolve (imported (λ m. twice) ("first" ∷ "second" ∷ "third" ∷ []) []) "Demo" ≡ ok demo_class
import_subjob_modules_keeps_example =
    import_subjob_modules_keeps (λ m. twice) (λ m. (refl, (refl, tt))) ("first" ∷ []) ("third" ∷ [])
      "second" [] "Demo" demo_class refl demo_registered
