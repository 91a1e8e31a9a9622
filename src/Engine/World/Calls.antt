-- ===== src/Engine/World/Calls.antt =====
-- The calls of the observer, properly nested.
use ss_prep.Base.{
  Result, ok, raise, Action, continue, false, true, if◌then◌else◌, Bool-cases, inl, inr, String,
  ◌≡◌, refl, sym, ◌∙◌, ap, Option, List, [], ◌∷◌, ◌++◌, arith,
}
use mathlib.Core.List.{append_assoc}
use ss_prep.Engine.World.Cancel.{Context}
use ss_prep.Engine.World.Observer.{
  Event, enter_event, exit_event, World, in_context, child_path, enter, exit,
}

-- The events of calls made at the path `p`, the latest first: each call enters the path of its
-- segment under `p`, makes calls at that path, and exits it.
pub data NestedCalls : String → List Event → Type 0 where
  idle : {p : String} → NestedCalls p []
  both :
      {p : String} {xs ys : List Event}
      → NestedCalls p xs
      → NestedCalls p ys
      → NestedCalls p (xs ++ ys)
  call :
      {p : String} (segment : String) (outcome : Option String) {xs : List Event}
      → NestedCalls (child_path p segment) xs
      → NestedCalls p (
          exit_event (child_path p segment) outcome
          ∷ (xs ++ enter_event (child_path p segment) ∷ []))

-- Code that ran from `w` to `w'` is at the same path, under the same observer, which was told of
-- properly nested calls below that path.
pub record IsTidy (w w' : World) : Type 0 where
  pub same_path : w'.path ≡ w.path
  pub same_observer : w'.observing ≡ w.observing
  pub silent : w.observing ≡ false → w'.trace ≡ w.trace
  pub events : List Event
  pub nested : NestedCalls w.path events
  pub added : w'.trace ≡ events ++ w.trace

pub IsTidy-refl : (w : World) → IsTidy w w
IsTidy-refl w = record {
  same_path = refl;
  same_observer = refl;
  silent = λ off. refl;
  events = [];
  nested = idle;
  added = refl;
}

pub IsTidy-trans : {u v w : World} → IsTidy u v → IsTidy v w → IsTidy u w
IsTidy-trans {u} a b = record {
  same_path = b.same_path ∙ a.same_path;
  same_observer = b.same_observer ∙ a.same_observer;
  silent = λ off. b.silent (a.same_observer ∙ off) ∙ a.silent off;
  events = b.events ++ a.events;
  nested = both (rw (← a.same_path) b.nested) a.nested;
  added = b.added ∙ ap (λ t. b.events ++ t) a.added ∙ sym (append_assoc b.events a.events u.trace);
}

pub in_context-IsTidy {ℓ} :
    {A : Type ℓ} (f : Context → A × Context) (w : World) → IsTidy w (in_context f w).1
unfolding in_context
in_context-IsTidy f w = record {
  same_path = refl;
  same_observer = refl;
  silent = λ off. refl;
  events = [];
  nested = idle;
  added = refl;
}

-- The rest of a function, after a call that may have raised.
pub continue-IsTidy :
    {A B : Type 0} {w : World} (r : Result A) (f : A → Action World B) (v : World)
    → IsTidy w v
    → ((a : A) → r ≡ ok a → IsTidy w (f a v).1)
    → IsTidy w (continue r f v).1
continue-IsTidy (ok a) f v t rest = rest a refl
continue-IsTidy (raise e) f v t rest = t

enter_fields :
    (segment : String) (w : World)
    → ((enter segment w).1.path ≡ child_path w.path segment)
      × ((enter segment w).1.observing ≡ w.observing)
      × ((enter segment w).1.trace
          ≡ (if w.observing then enter_event (child_path w.path segment) ∷ w.trace else w.trace))
unfolding enter
enter_fields segment w = ground arith

exit_fields :
    (parent_path : String) (outcome : Option String) (w : World)
    → ((exit parent_path outcome w).observing ≡ w.observing)
      × ((exit parent_path outcome w).trace
          ≡ (if w.observing then exit_event w.path outcome ∷ w.trace else w.trace))
unfolding exit
exit_fields parent_path outcome w = ground arith

module _ (segment : String) (outcome : Option String) (w v : World)
    (t : IsTidy (enter segment w).1 v) where
  abbrev left_world : World
  left_world = exit (enter segment w).0 outcome v

  same_observer_left : left_world.observing ≡ w.observing
  same_observer_left =
      (exit_fields (enter segment w).0 outcome v).0 ∙ t.same_observer ∙ (enter_fields segment w).1

  silent_left : w.observing ≡ false → left_world.trace ≡ w.trace
  silent_left off = ground (
    arith,
    exit_fields (enter segment w).0 outcome v,
    enter_fields segment w,
    t.same_observer,
    t.silent ((enter_fields segment w).1 ∙ off),
  )

  path_before_exit : v.path ≡ child_path w.path segment
  path_before_exit = t.same_path ∙ (enter_fields segment w).0

  same_path_left : left_world.path ≡ w.path
  unfolding enter exit
  same_path_left = refl

  added_left :
      w.observing ≡ true
      → left_world.trace
        ≡ (exit_event (child_path w.path segment) outcome
            ∷ (t.events ++ enter_event (child_path w.path segment) ∷ []))
          ++ w.trace
  added_left on = ground (
    arith,
    exit_fields (enter segment w).0 outcome v,
    enter_fields segment w,
    t.same_observer,
    path_before_exit,
    t.added,
    append_assoc t.events (enter_event (child_path w.path segment) ∷ []) w.trace,
  )

  -- `enter`, something tidy, and `exit` with any outcome are tidy together.
  pub enter-exit-IsTidy : IsTidy w left_world
  enter-exit-IsTidy = elim (Bool-cases w.observing) [
    | inl on ↦ record {
      same_path = same_path_left;
      same_observer = same_observer_left;
      silent = silent_left;
      events =
          exit_event (child_path w.path segment) outcome
          ∷ (t.events ++ enter_event (child_path w.path segment) ∷ []);
      nested = call segment outcome (rw ((enter_fields segment w).0) at t.nested);
      added = added_left on;
    }
    | inr off ↦ record {
      same_path = same_path_left;
      same_observer = same_observer_left;
      silent = silent_left;
      events = [];
      nested = idle;
      added = silent_left off;
    }
  ]
