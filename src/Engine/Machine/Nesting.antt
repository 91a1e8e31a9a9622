-- ===== src/Engine/Machine/Nesting.antt =====
-- The observer's view of a machine's run.
use ss_prep.Base.{
  ℕ, zero, suc, String, ◌≡◌, Option, none, some, arith, Dict, lookup, Result, ok, raise,
}
use ss_prep.Engine.World.{
  World, enter, in_context, raise_if_cancelled, IsTidy, IsTidy-refl, IsTidy-trans,
  in_context-IsTidy, continue-IsTidy, enter-exit-IsTidy,
}
use ss_prep.Engine.Registry.{Child}
use ss_prep.Engine.Machine.{
  Machine, Target, done, goto, ok_outcome, find_child, visit, step_child, step, run_loop, run_from,
  execute,
}

abbrev pub AllTidy : Dict Child → Type 0
AllTidy children =
    (name : String) (c : Child)
    → lookup children name ≡ some c
    → (w : World) → IsTidy w (c.execute w).1

visit-IsTidy :
    (name : String) (c : Child) (w : World)
    → ((v : World) → IsTidy v (c.execute v).1)
    → IsTidy w (visit name c w).1
unfolding visit
visit-IsTidy name c w tidy =
    enter-exit-IsTidy name (ok_outcome (c.execute (enter name w).1).0) w
      (c.execute (enter name w).1).1 (tidy (enter name w).1)

module _ (m : Machine Child) (tidy : AllTidy m.children) where
  is_child :
      (current : String) (c : Child)
      → find_child m current ≡ ok c
      → lookup m.children current ≡ some c
  unfolding find_child
  is_child current c e = ground arith

  step-IsTidy : (current : String) (w : World) → IsTidy w (step m current w).1
  unfolding step step_child
  step-IsTidy current w =
      let looked = in_context-IsTidy raise_if_cancelled w in
      let v = (in_context raise_if_cancelled w).1 in
      continue-IsTidy (in_context raise_if_cancelled w).0 _ v looked λ _ _.
        continue-IsTidy (find_child m current) (step_child m current) v looked λ c found.
          IsTidy-trans looked (visit-IsTidy current c v (tidy current c (is_child current c found)))

  run_loop-IsTidy :
      (left : ℕ) (current : String) (w : World) → IsTidy w (run_loop m left current w).1
  unfolding run_loop
  run_loop-IsTidy zero current w = IsTidy-refl w
  run_loop-IsTidy (suc left) current w =
      go (step m current w).0 (λ c. run_loop-IsTidy left c (step m current w).1)
    where
      rest : Result Target → Result String × World
      rest r = elim r [
        | raise e ↦ (raise e, (step m current w).1)
        | ok t ↦ elim t [
          | done target ↦ (ok target, (step m current w).1)
          | goto target ↦ run_loop m left target (step m current w).1
        ]
      ]

      go :
          (r : Result Target)
          → ((c : String) → IsTidy (step m current w).1 (run_loop m left c (step m current w).1).1)
          → IsTidy w (rest r).1
      go (raise e) ih = step-IsTidy current w
      go (ok (done t)) ih = step-IsTidy current w
      go (ok (goto c)) ih = IsTidy-trans (step-IsTidy current w) (ih c)

  run_from-IsTidy : (i : Option String) (w : World) → IsTidy w (run_from m i w).1
  unfolding run_from
  run_from-IsTidy none w = IsTidy-refl w
  run_from-IsTidy (some i) w = run_loop-IsTidy 10000 i w

  pub execute-IsTidy : (w : World) → IsTidy w (execute m w).1
  unfolding execute
  execute-IsTidy w = run_from-IsTidy m.initial w
