-- ===== src/Engine/Parallel/Winner.antt =====
-- Who wins a `Parallel`, and with what outcome.
use ss_prep.Base.{
  ap, ◌⊎◌, Result, raise, cancelled_error, Result-cases, Bool-cases, is_empty, ℕ, zero, suc, String,
  ◌≡◌, refl, inl, inr, true, ◌||◌, none, some, List, [], ◌∷◌, ◌++◌, arith, contains, Dict, lookup,
  values, ◌==◌, eq_iff, ok, Option-cases,
}
use ss_prep.Engine.World.{
  World, Tick, finish, poll, in_context, raise_if_cancelled, raise_if_cancelled_error,
}
use ss_prep.Engine.Registry.{Child}
use ss_prep.Engine.Parallel.{
  Region, Parallel, Race, Check, for_winner, for_threads, for_cancel, insert_sorted, sorted_set,
  targets, new, next_schedule, runner, take_thread, collect, drain, wait, first_wins, execute,
}

-- The derived outcomes are the targets of the mappings, each once.
contains-insert_sorted :
    (s k : String) (xs : List String) → contains (insert_sorted s xs) k ≡ (s == k || contains xs k)
unfolding insert_sorted
contains-insert_sorted s k [] = refl
contains-insert_sorted s k (x ∷ xs) =
    ground (arith, contains-insert_sorted s k xs, eq_iff x s, eq_iff s k, eq_iff x k)

pub contains-sorted_set :
    (xs : List String) (k : String) → contains (sorted_set xs) k ≡ contains xs k
unfolding sorted_set
contains-sorted_set [] k = refl
contains-sorted_set (x ∷ xs) k =
    ground (arith, contains-insert_sorted x k (sorted_set xs), contains-sorted_set xs k)

runner_winner :
    (r : Region Child) (race : Race) (target : String) (w : World)
    → race.winner ≡ some target
    → (runner r race w).0.winner ≡ some target
unfolding runner
runner_winner r race target w h = ground arith

drain_winner :
    (alive : List (Region Child)) (race : Race) (target : String) (w : World)
    → race.winner ≡ some target
    → (drain alive race w).0 ≡ ok target
unfolding drain
drain_winner [] race target w h = ground arith
drain_winner (r ∷ rs) race target w h =
    drain_winner rs (runner r race w).0 target (runner r race w).1 (runner_winner r race target w h)

-- What the main thread that looks for a winner next finds.
wait_sees :
    (ticks : List Tick) (alive : List (Region Child)) (race : Race) (target : String) (w : World)
    → race.winner ≡ some target
    → (wait ticks for_winner alive race w).0 ≡ ok target
unfolding wait
wait_sees [] alive race target w h = drain_winner alive race target w h
wait_sees (finish k ∷ ticks) alive race target w h = elim (Option-cases (take_thread k alive)) [
  | inl gone ↦ rw (gone, wait) (wait_sees ticks alive race target w h)
  | inr ((r, rest), found) ↦
      rw (found, wait)
        (wait_sees ticks rest (runner r race w).0 target (runner r race w).1
          (runner_winner r race target w h))
]
wait_sees (poll ∷ ticks) alive race target w h = rw h

-- The outcome of the winner, or `CancelledError`.
abbrev pub IsWon : String → Result String → Type 0
IsWon target r = (r ≡ ok target) ⊎ (r ≡ raise cancelled_error)

wait_looks :
    (ticks : List Tick) (check : Check) (alive : List (Region Child)) (race : Race)
    (target : String) (w : World)
    → race.winner ≡ some target
    → IsWon target (wait ticks check alive race w).0
unfolding wait in_context collect
wait_looks ticks for_winner alive race target w h = inl (wait_sees ticks alive race target w h)
wait_looks [] for_threads alive race target w h = inl (drain_winner alive race target w h)
wait_looks [] for_cancel alive race target w h =
    let w' : World = (in_context raise_if_cancelled w).1 in
    elim (Result-cases (raise_if_cancelled w.context).0) [
      | inl (u, looked) ↦ inl (rw (looked, wait) (drain_winner alive race target w' h))
      | inr (x, looked) ↦
          inr (rw (looked, wait) (ap raise (raise_if_cancelled_error w.context x looked)))
    ]
wait_looks (finish k ∷ ticks) check alive race target w h =
    elim (Option-cases (take_thread k alive)) [
      | inl gone ↦ rw (gone, wait) (wait_looks ticks check alive race target w h)
      | inr ((r, rest), found) ↦
          rw (found, wait)
            (wait_looks ticks check rest (runner r race w).0 target (runner r race w).1
              (runner_winner r race target w h))
    ]
wait_looks (poll ∷ ticks) for_threads alive race target w h = elim (Bool-cases (is_empty alive)) [
  | inl over ↦ inl (ground (arith, over, h))
  | inr on ↦ rw (on, wait) (wait_looks ticks for_cancel alive race target w h)
]
wait_looks (poll ∷ ticks) for_cancel alive race target w h =
    let w' : World = (in_context raise_if_cancelled w).1 in
    elim (Result-cases (raise_if_cancelled w.context).0) [
      | inl (u, looked) ↦ inl (rw (looked, wait) (wait_sees ticks alive race target w' h))
      | inr (x, looked) ↦
          inr (rw (looked, wait) (ap raise (raise_if_cancelled_error w.context x looked)))
    ]

-- Once a region has won, its outcome is the result if the main thread looks for a winner next,
-- whatever the other regions do and however their threads interleave: their outcomes, their exceptions
-- and a cancel request come too late. If the main thread is further in its round, the result is that
-- outcome or `CancelledError`.
pub wait_winner :
    (ticks : List Tick) (alive : List (Region Child)) (race : Race) (target : String) (w : World)
    → race.winner ≡ some target
    → ((wait ticks for_winner alive race w).0 ≡ ok target)
      × ((check : Check) → IsWon target (wait ticks check alive race w).0)
wait_winner ticks alive race target w h =
    (wait_sees ticks alive race target w h, λ check. wait_looks ticks check alive race target w h)

-- Every region that still runs maps into the outcomes `os`.
abbrev MapsInto : List String → List (Region Child) → Type 0
MapsInto os [] = Unit
MapsInto os (r ∷ rs) =
    ((raw target : String) → lookup r.outcomes raw ≡ some target → contains os target ≡ true)
    × MapsInto os rs

abbrev WinnerIn : List String → Race → Type 0
WinnerIn os race = (target : String) → race.winner ≡ some target → contains os target ≡ true

module _ (os : List String) where
  runner-WinnerIn :
      (r : Region Child) (race : Race) (w : World)
      → ((raw target : String) → lookup r.outcomes raw ≡ some target → contains os target ≡ true)
      → WinnerIn os race
      → WinnerIn os (runner r race w).0
  unfolding runner
  runner-WinnerIn r race w into h target e = grind (arith, into, h)

  MapsInto-take_thread :
      (k : ℕ) (alive : List (Region Child)) (r : Region Child) (rest : List (Region Child))
      → take_thread k alive ≡ some (r, rest)
      → MapsInto os alive
      → MapsInto os (r ∷ rest)
  unfolding take_thread
  MapsInto-take_thread k [] r rest e h = cc
  MapsInto-take_thread zero (x ∷ xs) r rest e h = ground arith
  MapsInto-take_thread (suc k) (x ∷ xs) r rest e h = elim (Option-cases (take_thread k xs)) [
    | inl gone ↦ absurd (ground arith)
    | inr ((found, others), taken) ↦
        let same : (r ≡ found) × (rest ≡ x ∷ others) = ground arith in
        let ih = MapsInto-take_thread k xs found others taken h.1 in
        rw (same.0, same.1) (ih.0, (h.0, ih.1))
  ]

  collect-WinnerIn :
      (race : Race) (o : String) → WinnerIn os race → collect race ≡ ok o → contains os o ≡ true
  unfolding collect
  collect-WinnerIn race o h e = ground (arith, h, h o)

  drain-WinnerIn :
      (alive : List (Region Child)) (race : Race) (w : World) (o : String)
      → MapsInto os alive
      → WinnerIn os race
      → (drain alive race w).0 ≡ ok o
      → contains os o ≡ true
  unfolding drain
  drain-WinnerIn [] race w o into h e = collect-WinnerIn race o h e
  drain-WinnerIn (r ∷ rs) race w o into h e =
      drain-WinnerIn rs (runner r race w).0 (runner r race w).1 o into.1
        (runner-WinnerIn r race w into.0 h) e

  wait-WinnerIn :
      (ticks : List Tick) (check : Check) (alive : List (Region Child)) (race : Race) (w : World)
      (o : String)
      → MapsInto os alive
      → WinnerIn os race
      → (wait ticks check alive race w).0 ≡ ok o
      → contains os o ≡ true
  unfolding wait
  wait-WinnerIn [] for_winner alive race w o into h e = drain-WinnerIn alive race w o into h e
  wait-WinnerIn [] for_threads alive race w o into h e = drain-WinnerIn alive race w o into h e
  wait-WinnerIn [] for_cancel alive race w o into h e =
      ground (arith, drain-WinnerIn alive race (in_context raise_if_cancelled w).1 o into h)
  wait-WinnerIn (finish k ∷ ticks) check alive race w o into h e =
      elim (Option-cases (take_thread k alive)) [
        | inl gone ↦ wait-WinnerIn ticks check alive race w o into h (ground arith)
        | inr ((r, rest), taken) ↦
            let into' = MapsInto-take_thread k alive r rest taken into in
            wait-WinnerIn ticks check rest (runner r race w).0 (runner r race w).1 o into'.1
              (runner-WinnerIn r race w into'.0 h) (ground arith)
      ]
  wait-WinnerIn (poll ∷ ticks) for_winner alive race w o into h e =
      ground (arith, h o, wait-WinnerIn ticks for_threads alive race w o into h)
  wait-WinnerIn (poll ∷ ticks) for_threads alive race w o into h e =
      ground
        (arith, collect-WinnerIn race o h, wait-WinnerIn ticks for_cancel alive race w o into h)
  wait-WinnerIn (poll ∷ ticks) for_cancel alive race w o into h e = ground (
    arith,
    wait-WinnerIn ticks for_winner alive race (in_context raise_if_cancelled w).1 o into h,
  )

contains-append :
    (xs ys : List String) (k : String) → contains (xs ++ ys) k ≡ (contains xs k || contains ys k)
contains-append [] ys k = refl
contains-append (x ∷ xs) ys k = ground (arith, contains-append xs ys k)

lookup-values :
    (d : Dict String) (k v : String) → lookup d k ≡ some v → contains (values d) v ≡ true
unfolding lookup values
lookup-values [] k v e = cc
lookup-values ((j, x) ∷ d) k v e = ground (arith, lookup-values d k v, eq_iff x v)

MapsInto-targets :
    (os : List String) (regions : List (Region Child))
    → ((t : String) → contains (targets regions) t ≡ true → contains os t ≡ true)
    → MapsInto os regions
unfolding targets
MapsInto-targets os [] h = tt
MapsInto-targets os (r ∷ rs) h = (
  (λ raw t e. h t (
      ground (
        arith,
        contains-append (values r.outcomes) (targets rs) t,
        lookup-values r.outcomes raw t e,
      ))),
  MapsInto-targets os rs
      (λ t e. h t (ground (arith, contains-append (values r.outcomes) (targets rs) t))),
)

built_outcomes :
    (regions : Dict (Region Child)) (policy : String) (p : Parallel Child)
    → new regions policy ≡ ok p
    → (p.regions ≡ regions) × (p.outcomes ≡ sorted_set (targets (values regions)))
unfolding new
built_outcomes regions policy p e = ground arith

-- What `execute` of a `Parallel` returns is one of its derived outcomes, for every interleaving of
-- its regions.
pub execute_declared :
    (regions : Dict (Region Child)) (policy : String) (p : Parallel Child) (w : World) (o : String)
    → new regions policy ≡ ok p
    → (execute p w).0 ≡ ok o
    → contains p.outcomes o ≡ true
unfolding execute first_wins
execute_declared regions policy p w o built e =
    let (same_regions, derived) = built_outcomes regions policy p built in
    let into : MapsInto p.outcomes (values p.regions) =
      MapsInto-targets p.outcomes (values p.regions)
        (λ t h. ground (arith, contains-sorted_set (targets (values p.regions)) t)) in
    ground (
      arith,
      wait-WinnerIn p.outcomes (next_schedule w).0 for_winner (values p.regions)
          (record { winner = none; errors = [] }) (next_schedule w).1 o into (λ t h. cc),
    )
