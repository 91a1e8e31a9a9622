-- ===== src/Skill/Future.antt =====
-- lifecycle_action_state.py: `_wait_future`, the poll loop over a future of rclpy.
-- Time is counted in poll intervals: between two rounds of the loop one interval passes.
use ss_prep.Base.{
  ap, ◌∙◌, ◌+◌, ◌<◌, is_some, ℕ, zero, suc, ◌≡◌, refl, ◌⊎◌, inl, inr, Bool, true, false, Option,
  none, some, arith, if◌then◌else◌, leb, Result, Result-cases, ok, raise, cancelled_error, Action,
}
use ss_prep.Engine.World.{
  Context, World, in_context, install_token, token_is_set, raise_if_cancelled,
  raise_if_cancelled_set, raise_if_cancelled_no_token, raise_if_cancelled_error,
  raise_if_cancelled_arriving, raise_if_cancelled_looks, IsCalm, IsLater, no_look-IsLater,
  IsLater-trans, IsLater-IsCalm, raise_if_cancelled_calm,
}
use ss_prep.Engine.Parallel.{in_thread}

-- A future that is done after `ready` poll intervals, or never. `value` is `none` where `result()`
-- raises or returns `None`.
pub record Future (A : Type 0) : Type 0 where
  pub ready : Option ℕ
  pub value : Option A

unfoldable pub is_done : Option ℕ → Bool
is_done none = false
is_done (some zero) = true
is_done (some (suc n)) = false

-- What is left to wait after one more interval.
unfoldable pub sooner : Option ℕ → Option ℕ
sooner none = none
sooner (some zero) = some zero
sooner (some (suc n)) = some n

-- Whether a future is done within a number of intervals.
unfoldable pub in_time : Option ℕ → ℕ → Bool
in_time none timeout = false
in_time (some n) timeout = leb n timeout

in_time-suc :
    (ready : Option ℕ) (left : ℕ)
    → is_done ready ≡ false
    → in_time ready (suc left) ≡ in_time (sooner ready) left
unfolding in_time is_done sooner
in_time-suc none left h = refl
in_time-suc (some zero) left h = cc
in_time-suc (some (suc n)) left h = ground arith

in_time_done : (ready : Option ℕ) (left : ℕ) → is_done ready ≡ true → in_time ready left ≡ true
unfolding in_time is_done
in_time_done none left h = cc
in_time_done (some zero) left h = ground arith
in_time_done (some (suc n)) left h = cc

module _ {A : Type 0} where
  -- `left` is the number of intervals until the deadline.
  unfoldable pub wait_loop : Option A → ℕ → Option ℕ → Action Context (Option A)
  unfolding is_done sooner
  wait_loop value zero ready c = if is_done ready then (ok value, c) else (ok none, c)
  wait_loop value (suc left) ready c = elim (is_done ready) [
    | true ↦ (ok value, c)
    | false ↦
        let (r, c') = raise_if_cancelled c in
        elim r [ raise e ↦ (raise e, c') | ok _ ↦ wait_loop value left (sooner ready) c' ]
  ]

  unfoldable pub wait_future : Future A → ℕ → Action Context (Option A)
  unfolding wait_loop
  wait_future f timeout = wait_loop f.value timeout f.ready

  -- The result of a wait that is not cancelled.
  unfoldable pub waited : Future A → ℕ → Option A
  unfolding in_time
  waited f timeout = if in_time f.ready timeout then f.value else none

  wait_loop_no_token :
      (value : Option A) (left : ℕ) (ready : Option ℕ) (c : Context)
      → c.token ≡ none
      → wait_loop value left ready c ≡ (ok (if in_time ready left then value else none), c)
  unfolding wait_loop in_time
  wait_loop_no_token value zero none c h = refl
  wait_loop_no_token value zero (some zero) c h = refl
  wait_loop_no_token value zero (some (suc n)) c h = ground arith
  wait_loop_no_token value (suc left) none c h =
      ground (arith, raise_if_cancelled_no_token c h, wait_loop_no_token value left none c h)
  wait_loop_no_token value (suc left) (some zero) c h = ground arith
  wait_loop_no_token value (suc left) (some (suc n)) c h =
      ground (arith, raise_if_cancelled_no_token c h, wait_loop_no_token value left (some n) c h)

  wait_at_deadline :
      (value : Option A) (ready : Option ℕ) (c : Context)
      → (wait_loop value zero ready c).0 ≡ ok (if in_time ready 0 then value else none)
  unfolding wait_loop in_time
  wait_at_deadline value none c = refl
  wait_at_deadline value (some zero) c = refl
  wait_at_deadline value (some (suc n)) c = ground arith

  wait_loop_cases :
      (value : Option A) (left : ℕ) (ready : Option ℕ) (c : Context)
      → ((wait_loop value left ready c).0 ≡ raise cancelled_error)
        ⊎ ((wait_loop value left ready c).0 ≡ ok (if in_time ready left then value else none))
  unfolding wait_loop in_time
  wait_loop_cases value zero ready c = inr (wait_at_deadline value ready c)
  wait_loop_cases value (suc left) ready c = elim (Result-cases (raise_if_cancelled c).0) [
    | inl (_, looked) ↦ ground (
      arith,
      wait_loop_cases value left (sooner ready) (raise_if_cancelled c).1,
      in_time-suc ready left,
    )
    | inr (e, looked) ↦
        ground (arith, raise_if_cancelled_error c e looked, in_time_done ready (suc left))
  ]

  -- A request that arrives at a look that the wait still makes is seen there at the latest.
  wait_loop_arriving :
      (value : Option A) (left : ℕ) (ready : Option ℕ) (c : Context) (k : ℕ)
      → is_some c.token ≡ true
      → k < left
      → in_time ready k ≡ false
      → c.arrivals (c.looks + k) ≡ true
      → (wait_loop value left ready c).0 ≡ raise cancelled_error
  unfolding wait_loop
  wait_loop_arriving value zero ready c k held before pending arrives =
      absurd (omega (arith, before))
  wait_loop_arriving value (suc left) ready c zero held before pending arrives = ground (
    arith,
    in_time_done ready zero,
    raise_if_cancelled_arriving c held (ap c.arrivals (omega arith) ∙ arrives),
  )
  wait_loop_arriving value (suc left) ready c (suc k) held before pending arrives =
      let c' = (raise_if_cancelled c).1 in
      let looked = raise_if_cancelled_looks c held in
      let waits : is_done ready ≡ false = ground (arith, in_time_done ready (suc k), pending) in
      let later =
        wait_loop_arriving value left (sooner ready) c' k looked.0 (omega (arith, before))
          (ground (arith, in_time-suc ready k waits, pending))
          (ap (λ a. a (c'.looks + k)) looked.2
            ∙ ap c.arrivals (omega (arith, looked.1))
            ∙ arrives) in
      elim (Result-cases (raise_if_cancelled c).0) [
        | inl (_, through) ↦ ground (arith, later, waits)
        | inr (e, stopped) ↦ ground (arith, raise_if_cancelled_error c e stopped, waits)
      ]

  -- Every wait gives the value of the future, if it is done in time, else nothing; or it raises
  -- `CancelledError`. It never raises anything else, and it always ends. It raises it where a request to
  -- cancel arrives at a look at the token before the deadline and before the future is done.
  pub wait_future_cases :
      (f : Future A) (timeout : ℕ) (c : Context)
      → (((wait_future f timeout c).0 ≡ raise cancelled_error)
          ⊎ ((wait_future f timeout c).0 ≡ ok (waited f timeout)))
        × ((k : ℕ)
            → is_some c.token ≡ true
            → k < timeout
            → in_time f.ready k ≡ false
            → c.arrivals (c.looks + k) ≡ true
            → (wait_future f timeout c).0 ≡ raise cancelled_error)
  unfolding wait_future waited
  wait_future_cases f timeout c =
      (wait_loop_cases f.value timeout f.ready c, wait_loop_arriving f.value timeout f.ready c)

  wait_loop_calm :
      (value : Option A) (left : ℕ) (ready : Option ℕ) (c : Context)
      → IsCalm c
      → (c' : Context) × IsLater c c'
        × (wait_loop value left ready c ≡ (ok (if in_time ready left then value else none), c'))
  unfolding wait_loop in_time
  wait_loop_calm value zero none c calm = (c, no_look-IsLater c, refl)
  wait_loop_calm value zero (some zero) c calm = (c, no_look-IsLater c, refl)
  wait_loop_calm value zero (some (suc n)) c calm = (c, no_look-IsLater c, ground arith)
  wait_loop_calm value (suc left) (some zero) c calm = (c, no_look-IsLater c, ground arith)
  wait_loop_calm value (suc left) none c calm =
      let (c1, later, looked) = raise_if_cancelled_calm c calm in
      let (c2, later', waited_on) =
        wait_loop_calm value left none c1 (IsLater-IsCalm c c1 later calm) in
      (c2, IsLater-trans c c1 c2 later later', ground (arith, looked, waited_on))
  wait_loop_calm value (suc left) (some (suc n)) c calm =
      let (c1, later, looked) = raise_if_cancelled_calm c calm in
      let (c2, later', waited_on) =
        wait_loop_calm value left (some n) c1 (IsLater-IsCalm c c1 later calm) in
      (c2, IsLater-trans c c1 c2 later later', ground (arith, looked, waited_on))

  -- A wait that nobody cancels leaves nothing but its looks.
  pub wait_future_calm :
      (f : Future A) (timeout : ℕ) (c : Context)
      → IsCalm c
      → (c' : Context) × IsLater c c' × (wait_future f timeout c ≡ (ok (waited f timeout), c'))
  unfolding wait_future waited
  wait_future_calm f timeout c calm = wait_loop_calm f.value timeout f.ready c calm

  pub wait_future_no_token :
      (f : Future A) (timeout : ℕ) (c : Context)
      → c.token ≡ none
      → wait_future f timeout c ≡ (ok (waited f timeout), c)
  unfolding wait_future waited
  wait_future_no_token f timeout c h = wait_loop_no_token f.value timeout f.ready c h

  -- A look at a set token is made before every sleep, so a wait that is not over at once raises
  -- `CancelledError`.
  pub wait_future_set :
      (f : Future A) (left : ℕ) (c : Context)
      → token_is_set c ≡ true
      → is_done f.ready ≡ false
      → (wait_future f (suc left) c).0 ≡ raise cancelled_error
  unfolding wait_future
  wait_future_set f left c set pending = ground (arith, raise_if_cancelled_set c set)

-- In the thread of a `Parallel` region no token is in the context: a wait there goes on to its end
-- or its deadline, also when the token of the run is set, and never raises `CancelledError`.
pub region_ignores_cancel :
    {A : Type 0} (f : Future A) (timeout : ℕ) (w : World)
    → (in_thread (in_context (wait_future f timeout)) w).0 ≡ ok (waited f timeout)
unfolding in_thread in_context
region_ignores_cancel f timeout w =
    ap (λ (p : Result (Option _) × Context). p.0)
      (wait_future_no_token f timeout (install_token none w.context) refl)
