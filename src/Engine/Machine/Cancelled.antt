-- ===== src/Engine/Machine/Cancelled.antt =====
-- A cancel request stops a machine between two children.
use ss_prep.Base.{
  ℕ, suc, ◌+◌, ◌-◌, ◌<◌, ◌≡◌, ◌⊎◌, inl, inr, String, some, true, is_some, arith, Result, raise,
  cancelled_error,
}
use ss_prep.Engine.World.{
  Context, current_token, World, token_is_set, raise_if_cancelled, in_context,
  raise_if_cancelled_set, raise_if_cancelled_arriving, raise_if_cancelled_userdata,
}
use ss_prep.Engine.Registry.{Child}
use ss_prep.Engine.Machine.Outcome.{execute-starts}
use ss_prep.Engine.Machine.Trail.{Goes, Goes-run_loop}
use ss_prep.Engine.Machine.{execute, Machine, step, run_loop}

-- `CancelledError`, with the userdata, the path and the observer's calls as they were: no child was
-- entered.
pub record IsStopped (w : World) (r : Result String) (w' : World) : Type 0 where
  pub cancelled : r ≡ raise cancelled_error
  pub same_userdata : w'.userdata ≡ w.userdata
  pub same_trace : w'.trace ≡ w.trace
  pub same_path : w'.path ≡ w.path

-- The token has been set, or another thread has set it by the time of the next look.
abbrev pub IsPending : Context → Type 0
IsPending c =
    (token_is_set c ≡ true) ⊎ ((is_some (current_token c) ≡ true) × (c.arrivals c.looks ≡ true))

raise_if_cancelled_pending :
    (c : Context) → IsPending c → (raise_if_cancelled c).0 ≡ raise cancelled_error
unfolding current_token
raise_if_cancelled_pending c (inl set) = raise_if_cancelled_set c set
raise_if_cancelled_pending c (inr (held, arrives)) = raise_if_cancelled_arriving c held arrives

pub run_loop-IsStopped :
    (m : Machine Child) (left : ℕ) (current : String) (w : World)
    → IsPending w.context
    → IsStopped w (run_loop m (suc left) current w).0 (run_loop m (suc left) current w).1
unfolding run_loop step in_context
run_loop-IsStopped m left current w h =
    ground (arith, raise_if_cancelled_pending w.context h, raise_if_cancelled_userdata w.context)

-- If the token is set after any number `n` of rounds below the cap, or another thread sets it before the
-- loop looks next, `execute` raises `CancelledError`: it enters no further child and keeps the userdata
-- that the last one left.
pub execute_cancelled :
    (m : Machine Child) (n : ℕ) (i last : String) (w v : World)
    → m.initial ≡ some i
    → n < 10000
    → Goes m last v n i w
    → IsPending v.context
    → IsStopped v (execute m w).0 (execute m w).1
execute_cancelled m n i last w v starts below goes pending =
    let e : 10000 ≡ n + suc (9999 - n) = omega arith in
    rw (execute-starts m i w starts, e, Goes-run_loop m last v (suc (9999 - n)) n i w goes)
      (run_loop-IsStopped m (9999 - n) last v pending)
