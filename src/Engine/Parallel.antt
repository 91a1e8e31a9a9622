-- ===== src/Engine/Parallel.antt =====
-- parallel.py: regions that run at the same time, the first mapped outcome wins.
-- A region's thread runs as a whole when it ends: of the regions' interleaving the model keeps the
-- order in which they end, and where between them the main thread makes each of its checks. What a
-- losing region writes after `execute` has returned is not modelled, the paths that it publishes
-- included.
pub mod Winner
pub mod Errors
pub mod Nesting
use Prim.Native.String.{compare}
use text.Mathlib.Text.{is_lt}
use ss_prep.Base.{
  ℕ, zero, suc, String, Bool, true, false, Option, none, some, List, [], ◌∷◌, ◌++◌, ◌==◌,
  if◌then◌else◌, is_empty, Dict, lookup, values, Exc, Result, ok, raise, hfsm_error,
  transition_error, Action, is_some, continue,
}
use ss_prep.Engine.World.{
  World, Tick, finish, poll, install_token, install_observer, in_context, raise_if_cancelled,
}
use ss_prep.Engine.Registry.{Child}

pub record Region (C : Type 0) : Type 0 where
  pub state : C
  pub outcomes : Dict String

-- `sorted` of a set of texts.
unfoldable pub insert_sorted : String → List String → List String
insert_sorted s [] = s ∷ []
insert_sorted s (x ∷ xs) =
    if x == s then x ∷ xs else if is_lt (compare s x) then s ∷ x ∷ xs else x ∷ insert_sorted s xs

unfoldable pub sorted_set : List String → List String
unfolding insert_sorted
sorted_set [] = []
sorted_set (x ∷ xs) = insert_sorted x (sorted_set xs)

pub record Parallel (C : Type 0) : Type 0 where
  pub regions : Dict (Region C)
  pub policy : String
  pub outcomes : List String

module _ {C : Type 0} where
  -- The targets of all the mappings.
  unfoldable pub targets : List (Region C) → List String
  targets [] = []
  targets (r ∷ rs) = values r.outcomes ++ targets rs

  unfoldable pub new : Dict (Region C) → String → Result (Parallel C)
  unfolding targets sorted_set
  new regions policy =
      if is_empty regions
      then raise hfsm_error
      else if policy == "first_wins"
      then ok (record {
        regions = regions;
        policy = policy;
        outcomes = sorted_set (targets (values regions));
      })
      else raise hfsm_error

-- `winner` and `errors`, which the threads share under the lock.
pub record Race : Type 0 where
  pub winner : Option String
  pub errors : List Exc

-- A new thread starts in an empty context: no token, no path, no observer. What it does to the
-- shared objects stays.
unfoldable pub in_thread : {A : Type 0} → Action World A → Action World A
unfolding install_token
in_thread f w =
    let (r, w') =
      f (record w { context = install_token none w.context; path = ""; observing = false }) in
    (
      r,
      record w' {
        context = install_token w.token w'.context;
        path = w.path;
        observing = w.observing;
      },
    )

-- The end of `runner`, under the lock.
unfoldable pub settle : Dict String → Result String → Race → Race
settle mapping (raise e) race = record race { errors = race.errors ++ e ∷ [] }
settle mapping (ok raw) race = if is_some race.winner then race else elim (lookup mapping raw) [
  | none ↦ record race { errors = race.errors ++ transition_error ∷ [] }
  | some target ↦ record race { winner = some target }
]

unfoldable pub runner : Region Child → Race → World → Race × World
unfolding in_thread settle
runner region race w =
    let (r, w') = in_thread region.state.execute w in (settle region.outcomes r race, w')

-- The k-th of the threads that still run, and the others.
unfoldable pub take_thread : {A : Type 0} → ℕ → List A → Option (A × List A)
take_thread k [] = none
take_thread zero (r ∷ rs) = some (r, rs)
take_thread (suc k) (r ∷ rs) = elim (take_thread k rs) [
  | none ↦ none
  | some (found, rest) ↦ some (found, r ∷ rest)
]

-- What follows the loop, when all the threads have ended.
unfoldable pub collect : Race → Result String
collect race = elim race.winner [
  | some target ↦ ok target
  | none ↦ elim race.errors [ [] ↦ raise transition_error | e ∷ es ↦ raise e ]
]

-- When the schedule says no more, the main thread ends its round, and the other threads end in the
-- order of their start.
unfoldable pub drain : List (Region Child) → Race → Action World String
unfolding runner collect
drain [] race w = (collect race, w)
drain (r ∷ rs) race w = let (race', w') = runner r race w in drain rs race' w'

-- What the main thread does next in its `while True`: look for a winner under the lock, then for a
-- thread that still runs, then at the token. A region may end between any two of them.
pub data Check : Type 0 where
  for_winner for_threads for_cancel : Check

-- The main thread's `while True`, over the ticks of the schedule.
unfoldable pub wait : List Tick → Check → List (Region Child) → Race → Action World String
unfolding take_thread runner drain
wait [] for_winner alive race w = drain alive race w
wait [] for_threads alive race w = drain alive race w
wait [] for_cancel alive race w =
    let (r, w') = in_context raise_if_cancelled w in
    elim r [ raise e ↦ (raise e, w') | ok _ ↦ drain alive race w' ]
wait (finish k ∷ ticks) check alive race w = elim (take_thread k alive) [
  | none ↦ wait ticks check alive race w
  | some (region, rest) ↦ let (race', w') = runner region race w in wait ticks check rest race' w'
]
wait (poll ∷ ticks) for_winner alive race w = elim race.winner [
  | some target ↦ (ok target, w)
  | none ↦ wait ticks for_threads alive race w
]
wait (poll ∷ ticks) for_threads alive race w = elim (is_empty alive) [
  | true ↦ (collect race, w)
  | false ↦ wait ticks for_cancel alive race w
]
wait (poll ∷ ticks) for_cancel alive race w =
    let (r, w') = in_context raise_if_cancelled w in
    elim r [ raise e ↦ (raise e, w') | ok _ ↦ wait ticks for_winner alive race w' ]

-- The schedule of this call, and what is left of the others.
unfoldable pub next_schedule : World → List Tick × World
next_schedule w = elim w.schedules [
  | [] ↦ ([], w)
  | ticks ∷ rest ↦ (ticks, record w { schedules = rest })
]

unfoldable pub first_wins : Parallel Child → Action World String
unfolding wait next_schedule
first_wins p w =
    let (ticks, w') = next_schedule w in
    wait ticks for_winner (values p.regions) (record { winner = none; errors = [] }) w'

unfoldable pub execute : Parallel Child → Action World String
unfolding first_wins
execute p w = if p.policy == "first_wins" then first_wins p w else (raise hfsm_error, w)
