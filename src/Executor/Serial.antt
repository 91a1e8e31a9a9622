-- ===== src/Executor/Serial.antt =====
-- hfsm_executor_node.py: the callbacks of the action server and the parts of `_execute_goal`, in any order
-- that the threads of the node may take.
use ss_prep.Base.{
  ℕ, suc, ◌+◌, ◌-◌, ◌≤◌, ◌<◌, ◌≡◌, refl, arith, String, true, false, is_some, [], Dict, Value,
  Result, ok, raise, Bool-cases, Option-cases, inl, inr,
}
use ss_prep.Engine.World.{World}
use ss_prep.Engine.Tree.{State}
use ss_prep.Executor.Node.{Executor, goal_callback, cancel_callback}
use ss_prep.Executor.Builder.{Env, dumps}
use ss_prep.Executor.Imports.{new_executor}
use ss_prep.Executor.Dispatch.{
  begin, is_cancelled, finish_failure, finish_cancelled, finish_outcome, publish_spec, finish,
}

-- The node, with the number of goals that it has accepted and not started, and of those that run.
pub record Served : Type 0 where
  pub executor : Executor
  pub accepted : ℕ
  pub running : ℕ

-- What may come next. A goal is only offered while no accepted one waits for its start.
pub data Step (env : Env) (v w : Served) : Type 0 where
  accept :
      goal_callback v.executor ≡ true
      → v.accepted ≡ 0
      → w ≡ record v { accepted = suc v.accepted }
      → Step env v w
  reject : goal_callback v.executor ≡ false → w ≡ v → Step env v w
  ask_cancel : w ≡ record v { executor = cancel_callback v.executor } → Step env v w
  start :
      (id : String) (userdata_in : Dict Value)
      → 0 < v.accepted
      → w ≡ record {
        executor = (begin env id userdata_in v.executor).1;
        accepted = v.accepted - 1;
        running = suc v.running;
      }
      → Step env v w
  publish : (b : State) → w ≡ record v { executor = publish_spec env b v.executor } → Step env v w
  fail_to_build :
      (message : String)
      → 0 < v.running
      → w ≡ record v {
        executor = (finish_failure env "build_error" message v.executor).1;
        running = v.running - 1;
      }
      → Step env v w
  run_over :
      (id class_name : String) (r : Result (String × Dict Value)) (after : World)
      → 0 < v.running
      → w ≡ record v {
        executor = (finish env id class_name r (record (v.executor) { world = after })).1;
        running = v.running - 1;
      }
      → Step env v w

pub data Reach (env : Env) (v : Served) : Served → Type 0 where
  here : Reach env v v
  next : {u w : Served} → Reach env v u → Step env u w → Reach env v w

-- One goal at most is accepted or runs. The node says that it is busy exactly while one runs, and then a
-- request to cancel has a token to set.
pub record IsAlone (v : Served) : Type 0 where
  pub one : v.accepted + v.running ≤ 1
  pub busy : v.executor.busy ≡ true → v.running ≡ 1
  pub free : v.executor.busy ≡ false → v.running ≡ 0
  pub cancellable : v.executor.busy ≡ true → is_some v.executor.cancel_token ≡ true

-- A new node.
abbrev pub served : ℕ → World → Served
served now w = record { executor = new_executor now w; accepted = 0; running = 0 }

module _ (env : Env) (encodes : (d : Dict Value) → (s : String) × (dumps env d ≡ ok s)) where
  busy-finish_failure :
      (outcome message : String) (e : Executor)
      → (finish_failure env outcome message e).1.busy ≡ false
  unfolding finish_failure
  busy-finish_failure outcome message e = let (s, h) = encodes [] in rw (h, finish_failure) refl

  busy-finish :
      (id class_name : String) (r : Result (String × Dict Value)) (e : Executor)
      → (finish env id class_name r e).1.busy ≡ false
  unfolding finish finish_outcome finish_cancelled finish_failure
  busy-finish id class_name (ok (o, ud)) e = let (s, h) = encodes ud in rw (h, finish_outcome) refl
  busy-finish id class_name (raise x) e =
      let (s, h) = encodes [] in
      elim (Bool-cases (is_cancelled x)) [
        | inl cancelled ↦ rw (cancelled, finish) (rw (h, finish_cancelled) refl)
        | inr failed ↦ rw (failed, finish) (rw (h, finish_failure) refl)
      ]

  ended-IsAlone :
      (e : Executor) (accepted running : ℕ)
      → accepted + running ≤ 1
      → 0 < running
      → e.busy ≡ false
      → IsAlone (record { executor = e; accepted = accepted; running = running - 1 })
  ended-IsAlone e accepted running one some_run free = record {
    one = omega arith;
    busy = λ h. ground (arith, h, free);
    free = λ h. omega arith;
    cancellable = λ h. ground (arith, h, free);
  }

  cancel_callback-IsAlone :
      (v : Served) → IsAlone v → IsAlone (record v { executor = cancel_callback v.executor })
  unfolding cancel_callback
  cancel_callback-IsAlone v h = elim (Option-cases v.executor.cancel_token) [
    | inl none_yet ↦ rw (none_yet, cancel_callback) h
    | inr (t, found) ↦
        rw (found, cancel_callback)
          (record { one = h.one; busy = h.busy; free = h.free; cancellable = λ b. refl })
  ]

  start-IsAlone :
      (v : Served) (id : String) (ud : Dict Value)
      → 0 < v.accepted
      → IsAlone v
      → IsAlone (record {
        executor = (begin env id ud v.executor).1;
        accepted = v.accepted - 1;
        running = suc v.running;
      })
  unfolding begin
  start-IsAlone v id ud waits h =
      let (s, encoded) = encodes ud in
      rw (encoded, begin)
        (record {
          one = omega (arith, h.one);
          busy = λ b. omega (arith, h.one);
          free = λ b. absurd cc;
          cancellable = λ b. refl;
        })

  Step-IsAlone : (v w : Served) → Step env v w → IsAlone v → IsAlone w
  unfolding goal_callback publish_spec
  Step-IsAlone v w (accept free none_waits e) h = rw (e) (record {
    one = ground (arith, free, none_waits, h.free);
    busy = h.busy;
    free = h.free;
    cancellable = h.cancellable;
  })
  Step-IsAlone v w (reject busy e) h = rw (e) h
  Step-IsAlone v w (ask_cancel e) h = rw (e) (cancel_callback-IsAlone v h)
  Step-IsAlone v w (start id ud waits e) h = rw (e) (start-IsAlone v id ud waits h)
  Step-IsAlone v w (publish b e) h =
      rw (e) (record { one = h.one; busy = h.busy; free = h.free; cancellable = h.cancellable })
  Step-IsAlone v w (fail_to_build message runs e) h =
      rw (e) (ended-IsAlone _ v.accepted v.running h.one runs (busy-finish_failure _ message _))
  Step-IsAlone v w (run_over id class_name r after runs e) h =
      rw (e) (ended-IsAlone _ v.accepted v.running h.one runs (busy-finish id class_name r _))

  reaches : (v w : Served) → IsAlone v → Reach env v w → IsAlone w
  reaches v w h here = h
  reaches v w h (next {u = u} path step) = Step-IsAlone u w step (reaches v u h path)

  new_executor-IsAlone : (now : ℕ) (w : World) → IsAlone (served now w)
  unfolding new_executor
  new_executor-IsAlone now w = record {
    one = omega arith;
    busy = λ h. absurd cc;
    free = λ h. refl;
    cancellable = λ h. absurd cc;
  }

  -- Where every userdata has a JSON text, and no goal is offered between the acceptance of another and
  -- its start: whatever order the callbacks and the parts of the executions take on a new node, one
  -- goal at most is accepted or runs at a time, the node is busy exactly while one runs, and a request
  -- to cancel then has a token to set.
  pub Reach-IsAlone : (now : ℕ) (w : World) (v : Served) → Reach env (served now w) v → IsAlone v
  Reach-IsAlone now w v path = reaches (served now w) v (new_executor-IsAlone now w) path
