-- ===== src/Engine/Machine/Trail.antt =====
-- The loop of `StateMachine.execute` against the runs of the relation of its rounds.
use ss_prep.Base.{
  some, ℕ, zero, suc, ◌<◌, ◌+◌, ◌-◌, ap, String, ◌≡◌, refl, ◌⊎◌, inl, inr, arith, Exc, Result, ok,
  raise, hfsm_error,
}
use ss_prep.Engine.World.{World}
use ss_prep.Engine.Registry.{Child}
use ss_prep.Engine.Machine.Outcome.{execute-starts}
use ss_prep.Engine.Machine.{Machine, Target, done, goto, step, run_loop, execute}
use ss_prep.Engine.Machine.Round.{Round, step-Round, Round-step}

-- `n` rounds that each go on to a child.
pub data Goes (m : Machine Child) (d : String) (w' : World) : ℕ → String → World → Type 0 where
  here : {current : String} {w : World} → current ≡ d → w ≡ w' → Goes m d w' zero current w
  next :
      {n : ℕ} {current : String} {w : World} (c : String) (w1 : World)
      → Round m current w (ok (goto c)) w1
      → Goes m d w' n c w1
      → Goes m d w' (suc n) current w

-- A round that ends the run with the result `r`.
pub data Ends (m : Machine Child) (current : String) (w : World) (r : Result String) (w' : World)
    : Type 0 where
  returns : (t : String) → Round m current w (ok (done t)) w' → r ≡ ok t → Ends m current w r w'
  raises : (e : Exc) → Round m current w (raise e) w' → r ≡ raise e → Ends m current w r w'

-- A run of the transition relation: `n` rounds that go on, and a last one.
pub record Trail (m : Machine Child) (n : ℕ) (current : String) (w : World) (r : Result String)
    (w' : World) : Type 0 where
  pub last : String
  pub last_world : World
  pub goes : Goes m last last_world n current w
  pub ends : Ends m last last_world r w'

-- `run_loop` with `left` visits to go makes a run of at most `left` rounds and has its result; or
-- all `left` rounds go on, and the cap raises `HfsmError`.
abbrev pub IsRun : Machine Child → ℕ → String → World → Result String → World → Type 0
IsRun m left current w r w' =
    ((n : ℕ) × (n < left) × Trail m n current w r w')
    ⊎ ((r ≡ raise hfsm_error) × ((d : String) × Goes m d w' left current w))

IsRun-suc :
    (m : Machine Child) (left : ℕ) (current c : String) (w w1 : World) (r : Result String)
    (w' : World)
    → Round m current w (ok (goto c)) w1
    → IsRun m left c w1 r w'
    → IsRun m (suc left) current w r w'
IsRun-suc m left current c w w1 r w' round (inl (n, lt, trail)) = inl (
  suc n,
  omega arith,
  record {
    last = trail.last;
    last_world = trail.last_world;
    goes = next c w1 round trail.goes;
    ends = trail.ends;
  },
)
IsRun-suc m left current c w w1 r w' round (inr (e, some_goes)) =
    inr (e, (some_goes.0, next c w1 round some_goes.1))

IsRun-end :
    (m : Machine Child) (left : ℕ) (current : String) (w : World) (r : Result String) (w' : World)
    → Ends m current w r w'
    → IsRun m (suc left) current w r w'
IsRun-end m left current w r w' e =
    inl (0, omega arith, record { last = current; last_world = w; goes = here refl refl; ends = e })

pub run_loop-IsRun :
    (m : Machine Child) (left : ℕ) (current : String) (w : World)
    → IsRun m left current w (run_loop m left current w).0 (run_loop m left current w).1
unfolding run_loop
run_loop-IsRun m zero current w = inr (refl, (current, here refl refl))
run_loop-IsRun m (suc left) current w =
    go (step m current w).0 (step-Round m current w)
      (λ c. run_loop-IsRun m left c (step m current w).1)
  where
    rest : Result Target → Result String × World
    rest r = elim r [
      | raise e ↦ (raise e, (step m current w).1)
      | ok t ↦ elim t [
        | done target ↦ (ok target, (step m current w).1)
        | goto target ↦ run_loop m left target (step m current w).1
      ]
    ]

    go :
        (r : Result Target)
        → Round m current w r (step m current w).1
        → ((c : String)
            → IsRun m left c
                (step m current w).1
                (run_loop m left c (step m current w).1).0
                (run_loop m left c (step m current w).1).1)
        → IsRun m (suc left) current w (rest r).0 (rest r).1
    go (ok (done t)) round ih = IsRun-end m left current w _ _ (returns t round refl)
    go (ok (goto c)) round ih = IsRun-suc m left current c w _ _ _ round (ih c)
    go (raise x) round ih = IsRun-end m left current w _ _ (raises x round refl)

-- The other way round: a run of the relation within the cap is what the loop does.
Ends-run_loop :
    (m : Machine Child) (left : ℕ) (current : String) (w : World) (r : Result String) (w' : World)
    → Ends m current w r w'
    → ((run_loop m (suc left) current w).0 ≡ r) × ((run_loop m (suc left) current w).1 ≡ w')
unfolding run_loop
Ends-run_loop m left current w r w' (returns t round e) =
    ground (arith, Round-step m current w (ok (done t)) w' round)
Ends-run_loop m left current w r w' (raises x round e) =
    ground (arith, Round-step m current w (raise x) w' round)

pub Goes-run_loop :
    (m : Machine Child) (last : String) (v : World) (left n : ℕ) (current : String) (w : World)
    → Goes m last v n current w
    → run_loop m (n + left) current w ≡ run_loop m left last v
unfolding run_loop
Goes-run_loop m last v left n current w (here p q) =
    rw (p, q) (ap (λ k. run_loop m k last v) (omega arith))
Goes-run_loop m last v left n current w (next {n = k} c w1 round goes) =
    let e : suc k + left ≡ suc (k + left) = omega arith in
    rw e (
      ground (
        arith,
        Round-step m current w (ok (goto c)) w1 round,
        Goes-run_loop m last v left k c w1 goes,
      ))

-- At every start, `run_loop` does what the transition relation does, and nothing else: a run of at most `left`
-- rounds gives its result and its world, and conversely.
pub run_loop_exact :
    (m : Machine Child) (left : ℕ) (current : String) (w : World)
    → IsRun m left current w (run_loop m left current w).0 (run_loop m left current w).1
      × ((n : ℕ) (r : Result String) (w' : World)
          → n < left
          → Trail m n current w r w'
          → ((run_loop m left current w).0 ≡ r) × ((run_loop m left current w).1 ≡ w'))
run_loop_exact m left current w = (
  run_loop-IsRun m left current w,
  λ n r w' lt t.
      let e : left ≡ n + suc (left - suc n) = omega arith in
      let f = Goes-run_loop m t.last t.last_world (suc (left - suc n)) n current w t.goes in
      rw (e, f) (Ends-run_loop m (left - suc n) t.last t.last_world r w' t.ends),
)

-- `execute` of a machine with an initial state does what the transition relation does: a run of at
-- most 10000 rounds from there gives its result and its world; where the first 10000 rounds all go
-- on, `HfsmError` is raised; and conversely every run of the relation that fits the cap is the one
-- that `execute` makes.
pub execute_exact :
    (m : Machine Child) (i : String) (w : World)
    → m.initial ≡ some i
    → IsRun m 10000 i w (execute m w).0 (execute m w).1
      × ((n : ℕ) (r : Result String) (w' : World)
          → n < 10000
          → Trail m n i w r w'
          → ((execute m w).0 ≡ r) × ((execute m w).1 ≡ w'))
execute_exact m i w e = rw (execute-starts m i w e) (run_loop_exact m 10000 i w)
