-- ===== src/Engine/Parallel/Nesting.antt =====
-- The observer's view of a `Parallel`: its threads have no observer.
use ss_prep.Base.{
  ℕ, zero, suc, String, ◌≡◌, refl, inl, inr, none, some, List, [], ◌∷◌, arith, values, ◌==◌, Result,
  ok, raise, Option-cases, Bool-cases, is_empty, false, Action,
}
use ss_prep.Engine.World.{
  World, Tick, finish, poll, in_context, raise_if_cancelled, IsTidy, IsTidy-refl, IsTidy-trans,
  in_context-IsTidy, install_token, idle,
}
use ss_prep.Engine.Registry.{Child}
use ss_prep.Engine.Parallel.{
  Check, for_winner, for_threads, for_cancel, Region, Parallel, Race, in_thread, runner,
  take_thread, drain, wait, next_schedule, first_wins, execute,
}

abbrev pub AllTidy : List (Region Child) → Type 0
AllTidy [] = Unit
AllTidy (r ∷ rs) = ((w : World) → IsTidy w (r.state.execute w).1) × AllTidy rs

AllTidy-take_thread :
    (k : ℕ) (alive : List (Region Child)) (r : Region Child) (rest : List (Region Child))
    → take_thread k alive ≡ some (r, rest)
    → AllTidy alive
    → AllTidy (r ∷ rest)
unfolding take_thread
AllTidy-take_thread k [] r rest e h = cc
AllTidy-take_thread zero (x ∷ xs) r rest e h = ground arith
AllTidy-take_thread (suc k) (x ∷ xs) r rest e h = elim (Option-cases (take_thread k xs)) [
  | inl gone ↦ absurd (ground arith)
  | inr ((found, others), taken) ↦
      let same : (r ≡ found) × (rest ≡ x ∷ others) = ground arith in
      let ih = AllTidy-take_thread k xs found others taken h.1 in
      rw (same.0, same.1) (ih.0, (h.0, ih.1))
]

-- A thread tells the observer of nothing, and leaves the path of the main thread alone.
in_thread-IsTidy :
    (f : Action World String) (w : World)
    → ((v : World) → IsTidy v (f v).1)
    → IsTidy w (in_thread f w).1
unfolding in_thread
in_thread-IsTidy f w tidy =
    let t =
      tidy (record w { context = install_token none w.context; path = ""; observing = false }) in
    record {
      same_path = refl;
      same_observer = refl;
      silent = λ off. t.silent refl;
      events = [];
      nested = idle;
      added = t.silent refl;
    }

runner-IsTidy :
    (r : Region Child) (race : Race) (w : World)
    → ((v : World) → IsTidy v (r.state.execute v).1)
    → IsTidy w (runner r race w).1
unfolding runner
runner-IsTidy r race w tidy = in_thread-IsTidy r.state.execute w tidy

drain-IsTidy :
    (alive : List (Region Child)) (race : Race) (w : World)
    → AllTidy alive
    → IsTidy w (drain alive race w).1
unfolding drain
drain-IsTidy [] race w tidy = IsTidy-refl w
drain-IsTidy (r ∷ rs) race w tidy =
    IsTidy-trans (runner-IsTidy r race w tidy.0)
      (drain-IsTidy rs (runner r race w).0 (runner r race w).1 tidy.1)

-- A look at the token and what follows it.
look-IsTidy :
    (r : Result (Unit {0})) (w v : World) (rest : Result String × World)
    → IsTidy w v
    → IsTidy v rest.1
    → IsTidy w (elim r as (λ _. Result String × World) [ raise e ↦ (raise e, v) | ok _ ↦ rest ]).1
look-IsTidy (ok _) w v rest t u = IsTidy-trans t u
look-IsTidy (raise e) w v rest t u = t

wait-IsTidy :
    (ticks : List Tick) (check : Check) (alive : List (Region Child)) (race : Race) (w : World)
    → AllTidy alive
    → IsTidy w (wait ticks check alive race w).1
unfolding wait
wait-IsTidy [] for_winner alive race w tidy = drain-IsTidy alive race w tidy
wait-IsTidy [] for_threads alive race w tidy = drain-IsTidy alive race w tidy
wait-IsTidy [] for_cancel alive race w tidy =
    look-IsTidy (in_context raise_if_cancelled w).0 w (in_context raise_if_cancelled w).1
      (drain alive race (in_context raise_if_cancelled w).1)
      (in_context-IsTidy raise_if_cancelled w)
      (drain-IsTidy alive race (in_context raise_if_cancelled w).1 tidy)
wait-IsTidy (finish k ∷ ticks) check alive race w tidy = elim (Option-cases (take_thread k alive)) [
  | inl gone ↦ rw (gone, wait) (wait-IsTidy ticks check alive race w tidy)
  | inr ((r, rest), taken) ↦
      let tidy' = AllTidy-take_thread k alive r rest taken tidy in
      rw (taken, wait)
        (IsTidy-trans (runner-IsTidy r race w tidy'.0)
          (wait-IsTidy ticks check rest (runner r race w).0 (runner r race w).1 tidy'.1))
]
wait-IsTidy (poll ∷ ticks) for_winner alive race w tidy = elim (Option-cases race.winner) [
  | inr (t, won) ↦ rw (won, wait) (IsTidy-refl w)
  | inl unwon ↦ rw (unwon, wait) (wait-IsTidy ticks for_threads alive race w tidy)
]
wait-IsTidy (poll ∷ ticks) for_threads alive race w tidy = elim (Bool-cases (is_empty alive)) [
  | inl over ↦ rw (over, wait) (IsTidy-refl w)
  | inr on ↦ rw (on, wait) (wait-IsTidy ticks for_cancel alive race w tidy)
]
wait-IsTidy (poll ∷ ticks) for_cancel alive race w tidy =
    look-IsTidy (in_context raise_if_cancelled w).0 w (in_context raise_if_cancelled w).1
      (wait ticks for_winner alive race (in_context raise_if_cancelled w).1)
      (in_context-IsTidy raise_if_cancelled w)
      (wait-IsTidy ticks for_winner alive race (in_context raise_if_cancelled w).1 tidy)

next_schedule-IsTidy : (w : World) → IsTidy w (next_schedule w).1
unfolding next_schedule
next_schedule-IsTidy w = go w.schedules
  where
    go :
        (l : List (List Tick))
        → IsTidy w
            (elim l as (λ _. List Tick × World) [
              | [] ↦ ([], w)
              | ticks ∷ rest ↦ (ticks, record w { schedules = rest })
            ]).1
    go [] = IsTidy-refl w
    go (ticks ∷ rest) = record {
      same_path = refl;
      same_observer = refl;
      silent = λ off. refl;
      events = [];
      nested = idle;
      added = refl;
    }

pub execute-IsTidy :
    (p : Parallel Child) → AllTidy (values p.regions) → (w : World) → IsTidy w (execute p w).1
unfolding execute first_wins
execute-IsTidy p tidy w = elim (Bool-cases (p.policy == "first_wins")) [
  | inl known ↦ rw (known) (
      IsTidy-trans (next_schedule-IsTidy w) (
        wait-IsTidy (next_schedule w).0 for_winner (values p.regions)
          (record { winner = none; errors = [] }) (next_schedule w).1 tidy))
  | inr unknown ↦ rw (unknown) (IsTidy-refl w)
]
