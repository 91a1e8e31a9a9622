-- ===== src/Skill/Lifecycle.antt =====
-- lifecycle_action_state.py: the call of an action on a lifecycle-managed server.
-- The other nodes are a parameter: what each service call answers, given all calls made so far.
pub mod Active
pub mod Outcomes
pub mod Success
pub mod Round
use ss_prep.Base.{
  ℕ, String, Bool, true, false, not, ◌&&◌, ◌==◌, Option, none, some, List, [], ◌∷◌, if◌then◌else◌,
  Dict, Value, is_some, Result, ok, raise, runtime_error, Exc, Action, ◌>>=◌, ◌>>◌, pure, fail,
  continue, then_do,
}
use ss_prep.Engine.World.{Context}
use ss_prep.Skill.Future.{Future, wait_future}

-- The ids of lifecycle_msgs, by the names that the code uses.
pub data LifecycleState : Type 0 where
  unconfigured inactive active : LifecycleState
  other_state : ℕ → LifecycleState

pub data Transition : Type 0 where
  configure activate : Transition

-- `ActionOutcome`.
pub data ActionOutcome : Type 0 where
  succeeded failed lifecycle_error timeout rejected : ActionOutcome

unfoldable pub outcome_name : ActionOutcome → String
outcome_name succeeded = "succeeded"
outcome_name failed = "failed"
outcome_name lifecycle_error = "lifecycle_error"
outcome_name timeout = "timeout"
outcome_name rejected = "rejected"

unfoldable pub default_outcomes : List String
default_outcomes = "succeeded" ∷ "failed" ∷ "lifecycle_error" ∷ "timeout" ∷ "rejected" ∷ []

-- The calls that leave the node.
pub data Call (G : Type 0) : Type 0 where
  get_state : Call G
  change_state : Transition → Call G
  send_goal : G → Call G
  get_result : Call G

-- The outside: what the waits for a service and for the action server return, and the future of
-- each call, given the calls before it, the latest first. `result` has whether the status is
-- `STATUS_SUCCEEDED`, and the result message.
pub record Ros (G R : Type 0) : Type 0 where
  pub service_up : List (Call G) → Bool
  pub server_up : List (Call G) → Bool
  pub state : List (Call G) → Future LifecycleState
  pub change : List (Call G) → Future Bool
  pub accept : List (Call G) → Future Bool
  pub result : List (Call G) → Future (Bool × R)

-- The class attributes and the hooks of a subclass. Timeouts are in poll intervals.
pub record Skill (G R : Type 0) : Type 0 where
  pub has_action_type : Bool
  pub action_name : String
  pub server_node_name : Option String
  pub lifecycle_wait_timeout : ℕ
  pub goal_accept_timeout : ℕ
  pub goal_complete_timeout : ℕ
  pub build_goal : Dict Value → Result G
  pub on_result : R → Dict Value → Dict Value

-- The object between calls, in the context that it runs in.
pub record Node (G : Type 0) : Type 0 where
  pub context : Context
  pub clients_ready : Bool
  pub calls : List (Call G)

-- `_GoalOutcome`.
pub record GoalOutcome (R : Type 0) : Type 0 where
  pub outcome : ActionOutcome
  pub result : Option R

unfoldable pub map_status : Bool → ActionOutcome
map_status true = succeeded
map_status false = failed

module _ {G R : Type 0} (s : Skill G R) (ros : Ros G R) where
  -- `call_async`, and the wait for the future that it returns.
  unfoldable pub call_and_wait :
      {A : Type 0} → Call G → (List (Call G) → Future A) → ℕ → Action (Node G) (Option A)
  call_and_wait call answer limit n =
      let (r, c) = wait_future (answer n.calls) limit n.context in
      (r, record n { context = c; calls = call ∷ n.calls })

  unfoldable pub get_lifecycle_state_id : Action (Node G) (Option LifecycleState)
  unfolding call_and_wait
  get_lifecycle_state_id = call_and_wait get_state ros.state s.lifecycle_wait_timeout

  unfoldable pub request_transition : Transition → Action (Node G) Bool
  unfolding call_and_wait
  request_transition t n =
      let (r, n') = call_and_wait (change_state t) ros.change s.lifecycle_wait_timeout n in
      (then_do r (elim [ none ↦ ok false | some success ↦ ok success ]), n')

  -- A request, and the state that the server says it is in afterwards; `none` where the request
  -- or the question has no answer, or the request fails.
  unfoldable pub transition_to : Transition → Action (Node G) (Option LifecycleState)
  unfolding request_transition get_lifecycle_state_id
  transition_to t =
      request_transition t >>= (elim [ false ↦ pure none | true ↦ get_lifecycle_state_id ])

  unfoldable pub is_active : Option LifecycleState → Bool
  is_active (some active) = true
  is_active _ = false

  -- From `inactive`, activate.
  unfoldable pub activate_inactive : Action (Node G) Bool
  unfolding transition_to is_active
  activate_inactive = do state_id ← transition_to activate; pure (is_active state_id)

  -- The steps after the first answer, by that answer.
  unfoldable pub after_configure : Option LifecycleState → Action (Node G) Bool
  unfolding activate_inactive
  after_configure (some inactive) = activate_inactive
  after_configure _ = pure false

  unfoldable pub from_state : Option LifecycleState → Action (Node G) Bool
  unfolding activate_inactive after_configure
  from_state none = pure false
  from_state (some active) = pure true
  from_state (some unconfigured) = transition_to configure >>= after_configure
  from_state (some inactive) = activate_inactive
  from_state (some (other_state i)) = pure false

  unfoldable pub ensure_lifecycle_active : Action (Node G) Bool
  unfolding from_state get_lifecycle_state_id
  ensure_lifecycle_active n =
      if ros.service_up n.calls then (get_lifecycle_state_id >>= from_state) n else (ok false, n)

  unfoldable pub lazy_init_clients : Action (Node G) (Unit {0})
  lazy_init_clients n =
      if n.clients_ready
      then (ok tt, n)
      else if s.has_action_type && not (s.action_name == "")
      then (ok tt, record n { clients_ready = true })
      else (raise runtime_error, n)

  unfoldable pub result_outcome : Option (Bool × R) → GoalOutcome R
  unfolding map_status
  result_outcome none = record { outcome = timeout; result = none }
  result_outcome (some (status, result)) = record {
    outcome = map_status status;
    result = some result;
  }

  unfoldable pub await_result : Action (Node G) (GoalOutcome R)
  unfolding call_and_wait result_outcome
  await_result = do
    wrapped ← call_and_wait get_result ros.result s.goal_complete_timeout
    pure (result_outcome wrapped)

  unfoldable pub after_accept : Option Bool → Action (Node G) (GoalOutcome R)
  unfolding await_result
  after_accept none = pure (record { outcome = timeout; result = none })
  after_accept (some false) = pure (record { outcome = rejected; result = none })
  after_accept (some true) = await_result

  unfoldable pub send_and_wait : G → Action (Node G) (GoalOutcome R)
  unfolding call_and_wait after_accept
  send_and_wait goal =
      call_and_wait (send_goal goal) ros.accept s.goal_accept_timeout >>= after_accept

  -- `on_result` is called for a success that has a result.
  unfoldable pub propagate : ActionOutcome → Option R → Node G → Node G
  propagate succeeded (some r) n = record n {
    context = record (n.context) { userdata = s.on_result r n.context.userdata };
  }
  propagate _ _ n = n

  unfoldable pub finish_goal : GoalOutcome R → Action (Node G) ActionOutcome
  unfolding propagate
  finish_goal g n = (ok g.outcome, propagate g.outcome g.result n)

  -- From the check of the server on.
  unfoldable pub run_goal : Action (Node G) ActionOutcome
  unfolding send_and_wait finish_goal
  run_goal n =
      if ros.server_up n.calls
      then continue (s.build_goal n.context.userdata) (λ goal. send_and_wait goal >>= finish_goal) n
      else (ok timeout, n)

  unfoldable pub ensure_server : Action (Node G) Bool
  unfolding ensure_lifecycle_active
  ensure_server n = elim s.server_node_name [
    | none ↦ (ok true, n)
    | some name ↦ ensure_lifecycle_active n
  ]

  unfoldable pub execute : Action (Node G) ActionOutcome
  unfolding lazy_init_clients ensure_server run_goal
  execute = do
    lazy_init_clients
    healthy ← ensure_server
    if healthy then run_goal else pure lifecycle_error
