-- ===== src/Visit/Three.antt =====
-- `VisitThreePoints` runs its course.
use ss_prep.Base.{
  ◌≡◌, refl, ◌∙◌, ap, ℕ, suc, String, none, some, [], ◌∷◌, Dict, lookup, insert, ℤ, Result, ok,
  raise, then_do, inl, inr, Action, map,
}
use ss_prep.Engine.World.{Context, World, raise_if_cancelled}
use ss_prep.Engine.Registry.{Child, Class}
use ss_prep.Engine.Machine
use ss_prep.Engine.Machine.{Machine, done, goto, route, execute, run_loop, step}
use ss_prep.Engine.Machine.Outcome.{execute-starts}
use ss_prep.Engine.Tree.{State, machine, child, childless, behave}
use ss_prep.Skill.Lifecycle.{
  ActionOutcome, succeeded, failed, lifecycle_error, timeout, rejected, outcome_name, Ros,
}
use ss_prep.Skill.Parameters.{Builtins}
use ss_prep.Skill.DriveToPose.{DriveResult}
use ss_prep.Visit.{waypoints, drive_leaf, go_transitions, drive, visit_three_points}
use ss_prep.Visit.Course.{
  course, Agrees, Acts, Routes, go, after, run_loop-course, verdict, step-round, round,
  action-cases,
}

-- The step for one waypoint.
abbrev pub go_step : Action Context ActionOutcome → State
go_step leg =
    machine
      (record {
        class_name = "StateMachine";
        behavior_parameters = none;
        outcomes = "done" ∷ "failed" ∷ [];
        initial = some "drive";
        transitions = ("drive", go_transitions) ∷ [];
      })
      (child "drive" (drive_leaf leg) childless)

-- The SubJob, over its three drives.
abbrev pub three_steps :
    Action Context ActionOutcome
    → Action Context ActionOutcome
    → Action Context ActionOutcome
    → State
three_steps leg1 leg2 leg3 =
    machine
      (record {
        class_name = "VisitThreePoints";
        behavior_parameters = some [];
        outcomes = "done" ∷ "failed" ∷ [];
        initial = some "GO_P1";
        transitions =
            ("GO_P1", ("done", "GO_P2") ∷ ("failed", "failed") ∷ [])
            ∷ ("GO_P2", ("done", "GO_P3") ∷ ("failed", "failed") ∷ [])
            ∷ ("GO_P3", ("done", "done") ∷ ("failed", "failed") ∷ [])
            ∷ [];
      })
      (child "GO_P1" (go_step leg1)
        (child "GO_P2" (go_step leg2) (child "GO_P3" (go_step leg3) childless)))

pub visit_built :
    (py : Builtins) (new_goal : Dict ℤ) (literal : String → ℤ)
    → (ros : String → Ros (Dict ℤ) DriveResult) (classes : Dict (Class State))
    → visit_three_points py new_goal literal ros classes
      ≡ ok (
          three_steps
            (drive py new_goal literal ros classes
              (record { name = "P1"; x = "1.0"; y = "0.0"; yaw = "0.0" }))
            (drive py new_goal literal ros classes
              (record { name = "P2"; x = "1.0"; y = "1.0"; yaw = "1.5707963" }))
            (drive py new_goal literal ros classes
              (record { name = "P3"; x = "-1.0"; y = "0.5"; yaw = "3.14159" })))
unfolding visit_three_points lookup Machine.new insert
visit_built py new_goal literal ros classes = refl

-- What the leaf of a drive does, its outcome by its name.
abbrev named : Action Context ActionOutcome → Action Context String
named leg c = let (r, c') = leg c in (then_do r (λ o. ok (outcome_name o)), c')

abbrev go_machine : Action Context ActionOutcome → Machine Child
go_machine leg = record {
  outcomes = "done" ∷ "failed" ∷ [];
  initial = some "drive";
  children = ("drive", behave (drive_leaf leg)) ∷ [];
  transitions = ("drive", go_transitions) ∷ [];
}

-- Each outcome of a drive has a transition.
route-drive :
    (leg : Action Context ActionOutcome) (o : ActionOutcome)
    → route (go_machine leg) "drive" (behave (drive_leaf leg)) (outcome_name o)
      ≡ ok (done (verdict o))
unfolding behave route drive_leaf outcome_name verdict lookup
route-drive leg succeeded = refl
route-drive leg failed = refl
route-drive leg lifecycle_error = refl
route-drive leg timeout = refl
route-drive leg rejected = refl

round-go :
    (leg : Action Context ActionOutcome) (x : Context)
    → round (go_machine leg) "drive" (behave (drive_leaf leg)) (named leg) x
      ≡ (then_do (go leg x).0 (λ v. ok (done v)), (go leg x).1)
unfolding round go
round-go leg x = elim (action-cases raise_if_cancelled x) [
  | inr (e, x1, h1) ↦ rw (h1) refl
  | inl (_, x1, h1) ↦ elim (action-cases leg x1) [
    | inr (e, x2, h2) ↦ rw (h1) (rw (h2) refl)
    | inl (o, x2, h2) ↦ rw (h1) (rw (h2) (ap (λ r. (r, x2)) (route-drive leg o)))
  ]
]

run_loop-done :
    (m : Machine Child) (left : ℕ) (name : String) (w : World) (r : Result String)
    → (step m name w).0 ≡ then_do r (λ v. ok (done v))
    → run_loop m (suc left) name w ≡ (r, (step m name w).1)
unfolding run_loop
run_loop-done m left name w (ok v) h = rw (h, run_loop) refl
run_loop-done m left name w (raise e) h = rw (h, run_loop) refl

drive_leaf-Acts : (leg : Action Context ActionOutcome) → Acts (behave (drive_leaf leg)) (named leg)
unfolding behave drive_leaf
drive_leaf-Acts leg w = (refl, refl)

go_step-Acts : (leg : Action Context ActionOutcome) → Acts (behave (go_step leg)) (go leg)
unfolding behave lookup
go_step-Acts leg w =
    let (result, leaves) =
      step-round (go_machine leg) "drive" (behave (drive_leaf leg)) (named leg) w refl
        (drive_leaf-Acts leg) in
    let started =
      execute-starts (go_machine leg) "drive" w refl
      ∙ run_loop-done (go_machine leg) 9999 "drive" w (go leg w.context).0
          (result ∙ ap (λ p. p.0) (round-go leg w.context)) in
    (
      ap (λ p. p.0) started,
      ap (λ p. p.1.context) started ∙ leaves ∙ ap (λ p. p.1) (round-go leg w.context),
    )

module _ (leg1 leg2 leg3 : Action Context ActionOutcome) where
  abbrev visit_machine : Machine Child
  visit_machine = record {
    outcomes = "done" ∷ "failed" ∷ [];
    initial = some "GO_P1";
    children =
        ("GO_P1", behave (go_step leg1))
        ∷ ("GO_P2", behave (go_step leg2))
        ∷ ("GO_P3", behave (go_step leg3))
        ∷ [];
    transitions =
        ("GO_P1", ("done", "GO_P2") ∷ ("failed", "failed") ∷ [])
        ∷ ("GO_P2", ("done", "GO_P3") ∷ ("failed", "failed") ∷ [])
        ∷ ("GO_P3", ("done", "done") ∷ ("failed", "failed") ∷ [])
        ∷ [];
  }

  first : Routes visit_machine "GO_P1" (behave (go_step leg1)) (goto "GO_P2")
  unfolding behave lookup route
  first = record { found = refl; on_done = refl; on_failed = refl }

  second : Routes visit_machine "GO_P2" (behave (go_step leg2)) (goto "GO_P3")
  unfolding behave lookup route
  second = record { found = refl; on_done = refl; on_failed = refl }

  third : Routes visit_machine "GO_P3" (behave (go_step leg3)) (done "done")
  unfolding behave lookup route
  third = record { found = refl; on_done = refl; on_failed = refl }

  three_steps-course :
      (w : World)
      → Agrees
          ((behave (three_steps leg1 leg2 leg3)).execute w)
          (course (leg1 ∷ leg2 ∷ leg3 ∷ []) w.context)
  unfolding behave after course
  three_steps-course w =
      let started = execute-starts visit_machine "GO_P1" w refl in
      let (result, leaves) =
        run_loop-course visit_machine 9999 "GO_P1" (behave (go_step leg1)) (goto "GO_P2") leg1
          (leg2 ∷ leg3 ∷ []) first (go_step-Acts leg1)
          (run_loop-course visit_machine 9998 "GO_P2" (behave (go_step leg2)) (goto "GO_P3") leg2
            (leg3 ∷ []) second (go_step-Acts leg2)
            (run_loop-course visit_machine 9997 "GO_P3" (behave (go_step leg3)) (done "done") leg3
              [] third (go_step-Acts leg3) (λ v. (refl, refl))))
          w in
      (ap (λ p. p.0) started ∙ result, ap (λ p. p.1.context) started ∙ leaves)

-- The constructor of `VisitThreePoints` builds a tree that, run in any world, drives to the three
-- waypoints in their order: it goes on after each success, ends with "done" after the last and with
-- "failed" at the first other outcome, raises what a drive raises, and looks at the token twice before
-- each drive. Its result and its context are those of this course.
pub visit_three_points-course :
    (py : Builtins) (new_goal : Dict ℤ) (literal : String → ℤ)
    → (ros : String → Ros (Dict ℤ) DriveResult) (classes : Dict (Class State))
    → (s : State) × (visit_three_points py new_goal literal ros classes ≡ ok s)
      × ((w : World)
          → Agrees
              ((behave s).execute w)
              (course (map (drive py new_goal literal ros classes) waypoints) w.context))
visit_three_points-course py new_goal literal ros classes =
    (_, visit_built py new_goal literal ros classes, three_steps-course _ _ _)
