-- ===== src/Engine/Tests.antt =====
-- The engine on small machines.
use ss_prep.Base.{
  leb, ◌≡◌, ◌⊎◌, inl, inr, refl, String, true, false, some, [], ◌∷◌, arith, contains, ◌==◌, eq_iff,
  Bool-cases, lookup, Exc, ok, raise, Bool, Result, ℕ, ◌<◌,
}
use ss_prep.Engine.World.{World, in_context, raise_if_cancelled, current_token}
use ss_prep.Engine.Registry.{Child}
use ss_prep.Engine.Machine.{Machine, execute, run_loop, step, step_child, route}
use ss_prep.Engine.Machine.Trail.{IsRun, Trail, execute_exact, Goes, here, next}
use ss_prep.Engine.Machine.Round.{step-Round}
use ss_prep.Engine.Machine.Total.{IsComplete, IsRouted, AllHonest, IsExpected, execute_total}
use ss_prep.Engine.Machine.Cancelled.{IsPending, IsStopped, execute_cancelled}

-- A leaf that returns `done` and touches nothing.
abbrev say_done : Child
say_done = record { outcomes = "done" ∷ []; execute = λ w. (ok "done", w) }

-- A then B, and the end.
abbrev two_steps : Machine Child
two_steps = record {
  outcomes = "done" ∷ "failed" ∷ [];
  initial = some "A";
  children = ("A", say_done) ∷ ("B", say_done) ∷ [];
  transitions = ("A", ("done", "B") ∷ []) ∷ ("B", ("done", "done") ∷ []) ∷ [];
}

abbrev world_with : Bool → World
world_with requested = record {
  context = record {
    userdata = [];
    token = some (record { event = requested });
    arrivals = λ n. false;
    looks = 0;
  };
  path = "";
  global_path = "";
  observing = true;
  trace = [];
  schedules = [];
}

two_steps_done : (execute two_steps (world_with false)).0 ≡ ok "done"
unfolding execute run_loop step in_context raise_if_cancelled lookup step_child route
two_steps_done = refl

-- `execute` makes the two rounds of the relation and returns `done`.
execute_exact_example :
    IsRun two_steps 10000 "A"
      (world_with false)
      (execute two_steps (world_with false)).0
      (execute two_steps (world_with false)).1
    × ((n : ℕ) (r : Result String) (w' : World)
        → n < 10000
        → Trail two_steps n "A" (world_with false) r w'
        → ((execute two_steps (world_with false)).0 ≡ r)
          × ((execute two_steps (world_with false)).1 ≡ w'))
execute_exact_example = execute_exact two_steps "A" (world_with false) refl

-- Another thread asks to cancel while `A` runs: the look before `B` finds the request.
abbrev asked_later : World
asked_later = record (world_with false) {
  context = record {
    userdata = [];
    token = some (record { event = false });
    arrivals = λ n. leb 1 n;
    looks = 0;
  };
}

abbrev before_b : World
before_b = (step two_steps "A" asked_later).1

a_then_b : Goes two_steps "B" before_b 1 "A" asked_later
unfolding step in_context raise_if_cancelled lookup step_child route
a_then_b = next "B" before_b (step-Round two_steps "A" asked_later) (here refl refl)

asked_before_b : IsPending before_b.context
unfolding step in_context raise_if_cancelled lookup step_child route current_token
asked_before_b = inr (refl, refl)

execute_cancelled_example :
    IsStopped before_b (execute two_steps asked_later).0 (execute two_steps asked_later).1
execute_cancelled_example =
    execute_cancelled two_steps 1 "A" "B" asked_later before_b refl (omega arith) a_then_b
      asked_before_b

say_done_honest : AllHonest two_steps
unfolding lookup
say_done_honest name c found w o e =
    ground (arith, eq_iff "A" name, eq_iff "B" name, eq_iff "done" o)

two_steps-IsRouted :
    (name : String) (c : Child) (outcome : String)
    → lookup two_steps.children name ≡ some c
    → contains c.outcomes outcome ≡ true
    → IsRouted two_steps name outcome
unfolding lookup
two_steps-IsRouted name c outcome found declared = elim (Bool-cases ("A" == name)) [
  | inl a ↦ record {
    trans = ("done", "B") ∷ [];
    target = "B";
    known = ground (arith, eq_iff "A" name);
    mapped = ground (arith, eq_iff "A" name, eq_iff "done" outcome);
    leads = inr refl;
  }
  | inr b ↦ record {
    trans = ("done", "done") ∷ [];
    target = "done";
    known = ground (arith, eq_iff "A" name, eq_iff "B" name);
    mapped = ground (arith, eq_iff "A" name, eq_iff "B" name, eq_iff "done" outcome);
    leads = inl refl;
  }
]

two_steps-IsComplete : IsComplete two_steps
unfolding lookup
two_steps-IsComplete = record {
  first = "A";
  starts = refl;
  found = refl;
  routed = two_steps-IsRouted;
}

execute_total_example :
    ((t : String) × ((execute two_steps (world_with true)).0 ≡ ok t)
      × (contains two_steps.outcomes t ≡ true))
    ⊎ ((e : Exc) × ((execute two_steps (world_with true)).0 ≡ raise e)
        × IsExpected two_steps two_steps-IsComplete.first (world_with true) e)
execute_total_example =
    execute_total two_steps (world_with true) two_steps-IsComplete say_done_honest
