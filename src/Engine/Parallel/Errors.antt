-- ===== src/Engine/Parallel/Errors.antt =====
-- What a `Parallel` raises when no region wins.
use ss_prep.Base.{
  Option, String, ok, ◌≡◌, none, some, List, [], ◌∷◌, Exc, Result, raise, transition_error,
}
use ss_prep.Engine.World.{World, Tick, finish, poll}
use ss_prep.Engine.Registry.{Child}
use ss_prep.Engine.Parallel.{Region, Race, settle, take_thread}

-- A region that never wins: it raises, or its outcome is not mapped.
abbrev pub NeverWins : Region Child → Type 0
NeverWins r =
    (race : Race) (w : World) → (settle r.outcomes (r.state.execute w).0 race).winner ≡ race.winner

abbrev pub AllNeverWin : List (Region Child) → Type 0
AllNeverWin [] = Unit
AllNeverWin (r ∷ rs) = NeverWins r × AllNeverWin rs

-- No winner so far, `e` the first error, no token.
record IsLosing (e : Exc) (race : Race) (w : World) : Type 0 where
  no_winner : race.winner ≡ none
  others : List Exc
  first : race.errors ≡ e ∷ others
  no_token : w.token ≡ none

-- The region that ends first by the schedule.
unfoldable pub first_to_end : List Tick → List (Region Child) → Option (Region Child)
unfolding take_thread
first_to_end [] [] = none
first_to_end [] (r ∷ rs) = some r
first_to_end (finish k ∷ ticks) alive = elim (take_thread k alive) [
  | none ↦ first_to_end ticks alive
  | some (r, rest) ↦ some r
]
first_to_end (poll ∷ ticks) alive = first_to_end ticks alive

-- The error of a region that does not win: what it raises, or that its outcome is not mapped.
unfoldable pub own_error : Result String → Exc
own_error (raise e) = e
own_error (ok raw) = transition_error

abbrev pub no_race : Race
no_race = record { winner = none; errors = [] }
