-- ===== src/Skill/Lifecycle/Success.antt =====
-- What the outcome `succeeded` of a skill state means.
use ss_prep.Base.{
  ◌≡◌, refl, inl, inr, Bool, true, false, Option, none, some, List, ◌∷◌, arith, Dict, Value, Result,
  ok, raise, Bool-cases, ◌>>=◌, continue, pure, if◌then◌else◌,
}
use ss_prep.Skill.Future.{waited, wait_future_cases}
use ss_prep.Skill.Lifecycle.{
  succeeded, lifecycle_error, Call, get_result, send_goal, Ros, Skill, Node, result_outcome,
  after_accept, call_and_wait, lazy_init_clients, await_result, send_and_wait, finish_goal,
  run_goal, ensure_server, execute,
}

module _ {G R : Type 0} (s : Skill G R) (ros : Ros G R) where
  -- The last call asked for the result of a goal, the answer came in time with the status
  -- `STATUS_SUCCEEDED`, and its fields have been written to the userdata.
  pub record HasSucceeded (n : Node G) : Type 0 where
    pub before : List (Call G)
    pub asked : n.calls ≡ get_result ∷ before
    pub result : R
    pub answer : waited (ros.result before) s.goal_complete_timeout ≡ some (true, result)
    pub userdata : Dict Value
    pub written : n.context.userdata ≡ s.on_result result userdata

  finish-HasSucceeded :
      (r : Result (Option (Bool × R))) (before : List (Call G)) (n : Node G)
      → n.calls ≡ get_result ∷ before
      → ((o : Option (Bool × R))
          → r ≡ ok o
          → waited (ros.result before) s.goal_complete_timeout ≡ o)
      → ((continue r (λ o. pure (result_outcome s ros o)) >>= finish_goal s ros) n).0 ≡ ok succeeded
      → HasSucceeded ((continue r (λ o. pure (result_outcome s ros o)) >>= finish_goal s ros) n).1
  unfolding finish_goal result_outcome
  finish-HasSucceeded (ok (some (true, x))) before n asked answered h = record {
    before = before;
    asked = asked;
    result = x;
    answer = answered (some (true, x)) refl;
    userdata = n.context.userdata;
    written = refl;
  }
  finish-HasSucceeded (ok (some (false, x))) before n asked answered h = cc
  finish-HasSucceeded (ok none) before n asked answered h = cc
  finish-HasSucceeded (raise e) before n asked answered h = cc

  await-HasSucceeded :
      (n : Node G)
      → ((await_result s ros >>= finish_goal s ros) n).0 ≡ ok succeeded
      → HasSucceeded ((await_result s ros >>= finish_goal s ros) n).1
  unfolding await_result
  await-HasSucceeded n h =
      finish-HasSucceeded (call_and_wait s ros get_result ros.result s.goal_complete_timeout n).0
        n.calls (call_and_wait s ros get_result ros.result s.goal_complete_timeout n).1 refl
        (λ o e.
          ground
            (arith, (wait_future_cases (ros.result n.calls) s.goal_complete_timeout n.context).0))
        h

  accept-HasSucceeded :
      (r : Result (Option Bool)) (n : Node G)
      → ((continue r (after_accept s ros) >>= finish_goal s ros) n).0 ≡ ok succeeded
      → HasSucceeded ((continue r (after_accept s ros) >>= finish_goal s ros) n).1
  unfolding after_accept finish_goal
  accept-HasSucceeded (ok (some true)) n h = await-HasSucceeded n h
  accept-HasSucceeded (ok (some false)) n h = cc
  accept-HasSucceeded (ok none) n h = cc
  accept-HasSucceeded (raise e) n h = cc

  goal-HasSucceeded :
      (r : Result G) (n : Node G)
      → (continue r (λ goal. send_and_wait s ros goal >>= finish_goal s ros) n).0 ≡ ok succeeded
      → HasSucceeded (continue r (λ goal. send_and_wait s ros goal >>= finish_goal s ros) n).1
  unfolding send_and_wait
  goal-HasSucceeded (ok goal) n h =
      accept-HasSucceeded
        (call_and_wait s ros (send_goal goal) ros.accept s.goal_accept_timeout n).0
        (call_and_wait s ros (send_goal goal) ros.accept s.goal_accept_timeout n).1 h
  goal-HasSucceeded (raise e) n h = cc

  run_goal-HasSucceeded :
      (n : Node G) → (run_goal s ros n).0 ≡ ok succeeded → HasSucceeded (run_goal s ros n).1
  unfolding run_goal
  run_goal-HasSucceeded n h = elim (Bool-cases (ros.server_up n.calls)) [
    | inl up ↦ rw (up) (goal-HasSucceeded (s.build_goal n.context.userdata) n (rw (up) at h))
    | inr down ↦ absurd (ground arith)
  ]

  healthy-HasSucceeded :
      (r : Result Bool) (n : Node G)
      → (continue r (λ healthy. if healthy then run_goal s ros else pure lifecycle_error) n).0
        ≡ ok succeeded
      → HasSucceeded
          (continue r (λ healthy. if healthy then run_goal s ros else pure lifecycle_error) n).1
  healthy-HasSucceeded (ok true) n h = run_goal-HasSucceeded n h
  healthy-HasSucceeded (ok false) n h = cc
  healthy-HasSucceeded (raise e) n h = cc

  ready-HasSucceeded :
      (r : Result (Unit {0})) (n : Node G)
      → (continue r
          (λ _. ensure_server s ros >>= λ healthy.
            if healthy then run_goal s ros else pure lifecycle_error)
          n).0
        ≡ ok succeeded
      → HasSucceeded
          (continue r
            (λ _. ensure_server s ros >>= λ healthy.
              if healthy then run_goal s ros else pure lifecycle_error)
            n).1
  ready-HasSucceeded (ok _) n h =
      healthy-HasSucceeded (ensure_server s ros n).0 (ensure_server s ros n).1 h
  ready-HasSucceeded (raise e) n h = cc

  -- `execute` returns `succeeded` only if the server said so: the last call asked for the result of
  -- the goal, the answer came within the timeout with the status `STATUS_SUCCEEDED`, and
  -- `on_result` has written that result to the userdata.
  pub execute-HasSucceeded :
      (n : Node G) → (execute s ros n).0 ≡ ok succeeded → HasSucceeded (execute s ros n).1
  unfolding execute
  execute-HasSucceeded n h =
      ready-HasSucceeded (lazy_init_clients s ros n).0 (lazy_init_clients s ros n).1 h
