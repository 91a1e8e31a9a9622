-- ===== src/Engine/Spec/Tests.antt =====
-- The spec of a machine of two steps, one of them a machine itself.
use ss_prep.Base.{true, false, none, some, [], ◌∷◌, ok, raise, type_error, Dict, if◌then◌else◌}
use ss_prep.Engine.Registry.{Class}
use ss_prep.Engine.Tree.{
  State, leaf, machine, retry, parallel, child, childless, region, regionless,
}
use ss_prep.Engine.Spec.Build.{construct}

abbrev say_done : State
say_done =
    leaf (record { class_name = "SayDone"; outcomes = "done" ∷ []; code = λ c. (ok "done", c) })

-- Its constructor takes no node.
abbrev say_done_class : Class State
say_done_class = record {
  name = "SayDone";
  is_state = true;
  is_behavior = false;
  construct = λ node kwargs. if node then raise type_error else ok say_done;
}

abbrev registry : Dict (Class State)
registry = ("SayDone", say_done_class) ∷ []

abbrev inner_step : State
inner_step =
    machine
      (record {
        class_name = "StateMachine";
        behavior_parameters = none;
        outcomes = "done" ∷ "failed" ∷ [];
        initial = some "say";
        transitions = ("say", ("done", "done") ∷ []) ∷ [];
      })
      (child "say" say_done childless)

abbrev two_steps : State
two_steps =
    machine
      (record {
        class_name = "TwoSteps";
        behavior_parameters = some ("speed" ∷ []);
        outcomes = "done" ∷ "failed" ∷ [];
        initial = some "A";
        transitions =
            ("A", ("done", "B") ∷ []) ∷ ("B", ("done", "done") ∷ ("failed", "failed") ∷ []) ∷ [];
      })
      (child "A" say_done (child "B" inner_step childless))

-- The machine beside a leaf, as the regions of a `Parallel`.
abbrev side_by_side : State
side_by_side = parallel "first_wins" ("over" ∷ []) (
    region "L" two_steps (("done", "over") ∷ [])
      (region "R" (retry 3 "failed" two_steps) (("done", "over") ∷ []) regionless))
