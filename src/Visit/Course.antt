-- ===== src/Visit/Course.antt =====
-- A course of drives, and the machines that run it.
use ss_prep.Base.{
  ◌≡◌, refl, ◌∙◌, ap, ℕ, suc, String, Option, some, List, [], ◌∷◌, lookup, arith, Result,
  Result-cases, inl, inr, ok, raise, then_do, Action, Exc, ◌⊎◌, ◌>>=◌, >>=-eq, ◌>>◌, pure, continue,
}
use ss_prep.Engine.World.{Context, World, raise_if_cancelled, in_context, exit, enter}
use ss_prep.Engine.Registry.{Child}
use ss_prep.Engine.Machine.{
  Machine, Target, done, goto, route, step, step_child, visit, find_child, run_loop, ok_outcome,
}
use ss_prep.Skill.Lifecycle.{ActionOutcome, succeeded, failed, lifecycle_error, timeout, rejected}

-- The drives one after the other, up to the first that does not succeed. Before each, the token is
-- looked at twice: by the SubJob and by its step.
unfoldable pub course : List (Action Context ActionOutcome) → Action Context String
course [] = pure "done"
course (leg ∷ legs) = do
  raise_if_cancelled
  raise_if_cancelled
  outcome ← leg
  elim outcome [ succeeded ↦ course legs | _ ↦ pure "failed" ]

-- The same result, and the same context afterwards.
abbrev pub Agrees : {A : Type 0} → Result A × World → Result A × Context → Type 0
Agrees p q = (p.0 ≡ q.0) × (p.1.context ≡ q.1)

-- A child that does in the context what `a` does.
abbrev pub Acts : Child → Action Context String → Type 0
Acts c a = (w : World) → Agrees (c.execute w) (a w.context)

unfoldable pub round :
    Machine Child → String → Child → Action Context String → Action Context Target
round m name c a = do raise_if_cancelled; outcome ← a; λ x. (route m name c outcome, x)

enter-context : (name : String) (w : World) → (enter name w).1.context ≡ w.context
unfolding enter
enter-context name w = ground arith

exit-context :
    (path : String) (outcome : Option String) (w : World)
    → (exit path outcome w).context ≡ w.context
unfolding exit
exit-context path outcome w = ground arith

visit-Acts :
    (name : String) (c : Child) (a : Action Context String) (w : World)
    → Acts c a
    → Agrees (visit name c w) (a w.context)
unfolding visit
visit-Acts name c a w acts =
    let (same_result, same_context) = acts (enter name w).1 in
    let entered = enter-context name w in
    (
      same_result ∙ ap (λ x. (a x).0) entered,
      exit-context (enter name w).0 (ok_outcome (c.execute (enter name w).1).0)
            (c.execute (enter name w).1).1
          ∙ same_context
          ∙ ap (λ x. (a x).1) entered,
    )

round_tail :
    (m : Machine Child) (name : String) (c : Child) (p : Result String × Context)
    → continue p.0 (λ (outcome : String) (x : Context). (route m name c outcome, x)) p.1
      ≡ (then_do p.0 (route m name c), p.1)
round_tail m name c (ok o, x) = refl
round_tail m name c (raise e, x) = refl

pub step-round :
    (m : Machine Child) (name : String) (c : Child) (a : Action Context String) (w : World)
    → lookup m.children name ≡ some c
    → Acts c a
    → Agrees (step m name w) (round m name c a w.context)
unfolding step step_child find_child round in_context
step-round m name c a w found acts = elim (Result-cases (raise_if_cancelled w.context).0) [
  | inl (_, looked) ↦
      let w1 : World = record w { context = (raise_if_cancelled w.context).1 } in
      let (same_result, same_context) = visit-Acts name c a w1 acts in
      let child : find_child m name ≡ ok c = rw (found, find_child) refl in
      let stepped : step m name w ≡ step_child m name c w1 =
        >>=-eq (in_context raise_if_cancelled) _ w (ok tt) w1 (ap (λ r. (r, w1)) looked)
        ∙ ap (λ r. continue r (step_child m name) w1) child in
      let turned : round m name c a w.context
          ≡ (then_do (a w1.context).0 (route m name c), (a w1.context).1) =
        >>=-eq raise_if_cancelled _ w.context (ok tt) w1.context (ap (λ r. (r, w1.context)) looked)
        ∙ round_tail m name c (a w1.context) in
      rw (stepped) (rw (turned) (ap (λ r. then_do r (route m name c)) same_result, same_context))
  | inr (e, looked) ↦ rw (looked) (refl, refl)
]

-- A round whose child ends with "done" leads to `t`, and one whose child ends with "failed" ends the
-- machine with "failed".
pub record Routes (m : Machine Child) (name : String) (c : Child) (t : Target) : Type 0 where
  pub found : lookup m.children name ≡ some c
  pub on_done : route m name c "done" ≡ ok t
  pub on_failed : route m name c "failed" ≡ ok (done "failed")

-- What a step does: it drives, and ends with "done" exactly if the drive succeeds.
unfoldable pub verdict : ActionOutcome → String
verdict succeeded = "done"
verdict _ = "failed"

unfoldable pub go : Action Context ActionOutcome → Action Context String
unfolding verdict
go leg = do raise_if_cancelled; outcome ← leg; pure (verdict outcome)

-- What follows a round that leads to `t`.
unfoldable pub after : Machine Child → ℕ → Target → Action World String
after m left (done target) w = (ok target, w)
after m left (goto target) w = run_loop m left target w

pub action-cases :
    {S A : Type 0} (f : Action S A) (s : S)
    → ((a : A) × (s' : S) × (f s ≡ (ok a, s'))) ⊎ ((e : Exc) × (s' : S) × (f s ≡ (raise e, s')))
action-cases f s = elim (Result-cases (f s).0) [
  | inl (a, h) ↦ inl (a, (f s).1, ap (λ r. (r, (f s).1)) h)
  | inr (e, h) ↦ inr (e, (f s).1, ap (λ r. (r, (f s).1)) h)
]

module _ (m : Machine Child) (left : ℕ) (name : String) (c : Child) (t : Target)
    (leg : Action Context ActionOutcome) (legs : List (Action Context ActionOutcome)) where
  -- What a leg of the course and the round that drives it have in common.
  data IsLeg (x : Context) : Type 0 where
    ends :
        (e : Exc) (x' : Context)
        → round m name c (go leg) x ≡ (raise e, x')
        → course (leg ∷ legs) x ≡ (raise e, x')
        → IsLeg x
    drives :
        (o : ActionOutcome) (x' : Context)
        → round m name c (go leg) x ≡ (route m name c (verdict o), x')
        → course (leg ∷ legs) x
          ≡ (elim o as (λ _. Action Context String) [ succeeded ↦ course legs | _ ↦ pure "failed" ])
              x'
        → IsLeg x

  is_leg : (x : Context) → IsLeg x
  unfolding round go course
  is_leg x = elim (action-cases raise_if_cancelled x) [
    | inr (e, x1, h1) ↦ ends e x1 (rw (h1) refl) (rw (h1) refl)
    | inl (_, x1, h1) ↦ elim (action-cases raise_if_cancelled x1) [
      | inr (e, x2, h2) ↦ ends e x2 (rw (h1) (rw (h2) refl)) (rw (h1) (rw (h2) refl))
      | inl (_, x2, h2) ↦ elim (action-cases leg x2) [
        | inr (e, x3, h3) ↦
            ends e x3 (rw (h1) (rw (h2) (rw (h3) refl))) (rw (h1) (rw (h2) (rw (h3) refl)))
        | inl (o, x3, h3) ↦
            drives o x3 (rw (h1) (rw (h2) (rw (h3) refl))) (rw (h1) (rw (h2) (rw (h3) refl)))
      ]
    ]
  ]

  run_loop-step :
      (w : World) (r : Result Target)
      → (step m name w).0 ≡ r
      → run_loop m (suc left) name w ≡ continue r (after m left) (step m name w).1
  unfolding run_loop after
  run_loop-step w (ok (done target)) h = rw (h, run_loop) refl
  run_loop-step w (ok (goto target)) h = rw (h, run_loop) refl
  run_loop-step w (raise e) h = rw (h, run_loop) refl

  leg_fails :
      (w : World) (x : Context)
      → (step m name w).0 ≡ ok (done "failed")
      → (step m name w).1.context ≡ x
      → course (leg ∷ legs) w.context ≡ (ok "failed", x)
      → Agrees (run_loop m (suc left) name w) (course (leg ∷ legs) w.context)
  unfolding after
  leg_fails w x failing leaves drove =
      rw (drove, run_loop-step w (ok (done "failed")) failing) (refl, leaves)

  driven :
      (o : ActionOutcome) (w : World) (x : Context)
      → Routes m name c t
      → ((w : World) → Agrees (after m left t w) (course legs w.context))
      → (step m name w).0 ≡ route m name c (verdict o)
      → (step m name w).1.context ≡ x
      → course (leg ∷ legs) w.context
        ≡ (elim o as (λ _. Action Context String) [ succeeded ↦ course legs | _ ↦ pure "failed" ]) x
      → Agrees (run_loop m (suc left) name w) (course (leg ∷ legs) w.context)
  unfolding after verdict
  driven succeeded w x routes rest result leaves drove =
      let (follows, left_context) = rest (step m name w).1 in
      rw (drove, run_loop-step w (ok t) (result ∙ routes.on_done))
        (
          follows ∙ ap (λ y. (course legs y).0) leaves,
          left_context ∙ ap (λ y. (course legs y).1) leaves,
        )
  driven failed w x routes rest result leaves drove =
      leg_fails w x (result ∙ routes.on_failed) leaves drove
  driven lifecycle_error w x routes rest result leaves drove =
      leg_fails w x (result ∙ routes.on_failed) leaves drove
  driven timeout w x routes rest result leaves drove =
      leg_fails w x (result ∙ routes.on_failed) leaves drove
  driven rejected w x routes rest result leaves drove =
      leg_fails w x (result ∙ routes.on_failed) leaves drove

  -- One leg of the course, in a machine whose further rounds run the rest of it.
  pub run_loop-course :
      Routes m name c t
      → Acts c (go leg)
      → ((w : World) → Agrees (after m left t w) (course legs w.context))
      → (w : World) → Agrees (run_loop m (suc left) name w) (course (leg ∷ legs) w.context)
  unfolding after
  run_loop-course routes acts rest w =
      let (same_result, same_context) = step-round m name c (go leg) w routes.found acts in
      elim (is_leg w.context) [
        | ends e x turned drove ↦
            rw (drove, run_loop-step w (raise e) (same_result ∙ ap (λ p. p.0) turned))
              (refl, same_context ∙ ap (λ p. p.1) turned)
        | drives o x turned drove ↦
            driven o w x routes rest (same_result ∙ ap (λ p. p.0) turned)
              (same_context ∙ ap (λ p. p.1) turned) drove
      ]
