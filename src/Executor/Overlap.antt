-- ===== src/Executor/Overlap.antt =====
-- Which goals the node takes: `_goal_callback` reads the flag that `_execute_goal` sets later.
use ss_prep.Base.{
  ◌≡◌, refl, inl, inr, String, true, false, some, arith, Dict, Value, ok, Result-cases,
}
use ss_prep.Engine.World.{new_token, request}
use ss_prep.Engine.Tree.{State}
use ss_prep.Executor.Node.{running, Goal, Executor, goal_callback, cancel_callback}
use ss_prep.Executor.Builder.{Env, dumps}
use ss_prep.Executor.Dispatch.{begin, finish_outcome, publish_spec, execute_goal}
use ss_prep.Executor.Goals.{execute_goal-IsOver}

module _ (env : Env) where
  begin_encoded :
      (id : String) (ud : Dict Value) (s : String) (e : Executor)
      → dumps env ud ≡ ok s
      → begin env id ud e ≡ (
        ok tt,
        record e {
          busy = true;
          subjob_id = id;
          status = running;
          active_state = "";
          userdata_snapshot_json = s;
          spec_json = "";
          start_time = env.now;
          cancel_token = some new_token;
        },
      )
  unfolding begin
  begin_encoded id ud s e h = rw (h, begin) refl

  begin_claims : (id : String) (ud : Dict Value) (e : Executor) → (begin env id ud e).1.busy ≡ true
  unfolding begin
  begin_claims id ud e = elim (Result-cases (dumps env ud)) [
    | inl (s, encoded) ↦ ground (arith, encoded)
    | inr (x, error) ↦ ground (arith, error)
  ]

  -- Where every userdata has a JSON text: from the start of a goal's execution until its SubJob runs
  -- every other goal is rejected, and once the execution is over the next one is accepted.
  pub rejects_until_over :
      ((d : Dict Value) → (s : String) × (dumps env d ≡ ok s))
      → (goal : Goal) (ud : Dict Value) (b : State) (e : Executor)
      → let started = (begin env goal.subjob_id ud e).1 in
        (goal_callback started ≡ false)
        × (goal_callback (publish_spec env b started) ≡ false)
        × (goal_callback (execute_goal env goal e).1 ≡ true)
  unfolding goal_callback publish_spec
  rejects_until_over encodes goal ud b e =
      let claimed = begin_claims goal.subjob_id ud e in
      let over = execute_goal-IsOver env encodes goal e in
      (ground (arith, claimed), ground (arith, claimed), ground (arith, over.free))

  -- Two goals that are both accepted, since neither has been started, run at the same time. When the
  -- first returns, the node counts as free and accepts a third one, and a request to cancel the
  -- second is accepted without any effect.
  pub overlap_loses_second :
      (first second outcome : String) (ud1 ud2 userdata : Dict Value) (s1 s2 s : String)
      (e : Executor)
      → e.busy ≡ false
      → dumps env ud1 ≡ ok s1
      → dumps env ud2 ≡ ok s2
      → dumps env userdata ≡ ok s
      → let both = (begin env second ud2 (begin env first ud1 e).1).1 in
        let first_over = (finish_outcome env first outcome userdata both).1 in
        (goal_callback e ≡ true)
        × (cancel_callback both ≡ record both { cancel_token = some (request new_token) })
        × (goal_callback first_over ≡ true)
        × (cancel_callback first_over ≡ first_over)
  unfolding goal_callback cancel_callback begin finish_outcome
  overlap_loses_second first second outcome ud1 ud2 userdata s1 s2 s e idle h1 h2 h =
      rw (begin_encoded first ud1 s1 e h1) (
        rw (begin_encoded second ud2 s2 _ h2)
          (rw (h, finish_outcome) (ground arith, refl, refl, refl)))
