-- ===== src/Skill/Lifecycle/Outcomes.antt =====
-- The outcomes of `execute`, and the recovery of a server.
use ss_prep.Base.{>>=-eq, ◌∙◌, ◌≡◌, refl, true, Option, some, List, ◌∷◌, contains, ok, Result}
use ss_prep.Engine.World.{Context, IsCalm, IsLater, IsLater-trans, IsLater-IsCalm}
use ss_prep.Skill.Future.{waited, wait_future_calm}
use ss_prep.Skill.Lifecycle.{
  LifecycleState, unconfigured, inactive, active, Transition, configure, activate, ActionOutcome,
  Call, get_state, change_state, Ros, Skill, Node, get_lifecycle_state_id, outcome_name,
  default_outcomes, request_transition, transition_to, after_configure, from_state,
  ensure_lifecycle_active,
}

-- Every outcome that `execute` can return is declared.
outcome_declared : (o : ActionOutcome) → contains default_outcomes (outcome_name o) ≡ true
unfolding outcome_name default_outcomes
outcome_declared ActionOutcome.succeeded = refl
outcome_declared ActionOutcome.failed = refl
outcome_declared ActionOutcome.lifecycle_error = refl
outcome_declared ActionOutcome.timeout = refl
outcome_declared ActionOutcome.rejected = refl

module _ {G R : Type 0} (s : Skill G R) (ros : Ros G R) where
  -- A server that answers in time and goes through its states as lifecycle_msgs documents:
  -- `unconfigured` before the calls `calls`, `inactive` after a configure request, `active` after
  -- an activate request.
  pub record AnswersInTurn (calls : List (Call G)) : Type 0 where
    pub up : ros.service_up calls ≡ true
    pub first : waited (ros.state calls) s.lifecycle_wait_timeout ≡ some unconfigured
    pub configures : waited (ros.change (get_state ∷ calls)) s.lifecycle_wait_timeout ≡ some true
    pub configured :
        waited (ros.state (change_state configure ∷ get_state ∷ calls)) s.lifecycle_wait_timeout
        ≡ some inactive
    pub activates :
        waited
          (ros.change (get_state ∷ change_state configure ∷ get_state ∷ calls))
          s.lifecycle_wait_timeout
        ≡ some true
    pub activated :
        waited
          (ros.state
            (change_state activate ∷ get_state ∷ change_state configure ∷ get_state ∷ calls))
          s.lifecycle_wait_timeout
        ≡ some active

  -- A call that returns after these calls, in a context some looks later.
  abbrev Returns : {A : Type 0} → A → List (Call G) → Node G → Result A × Node G → Type 0
  Returns a calls n p =
      (c : Context) × IsLater n.context c × (p ≡ (ok a, record n { context = c; calls = calls }))

  get_state_answered :
      (n : Node G) (o : Option LifecycleState)
      → IsCalm n.context
      → waited (ros.state n.calls) s.lifecycle_wait_timeout ≡ o
      → Returns o (get_state ∷ n.calls) n (get_lifecycle_state_id s ros n)
  unfolding get_lifecycle_state_id
  get_state_answered n o calm e =
      let (c, later, waits) =
        wait_future_calm (ros.state n.calls) s.lifecycle_wait_timeout n.context calm in
      (c, later, rw (waits, e) refl)

  request_answered :
      (t : Transition) (n : Node G)
      → IsCalm n.context
      → waited (ros.change n.calls) s.lifecycle_wait_timeout ≡ some true
      → Returns true (change_state t ∷ n.calls) n (request_transition s ros t n)
  unfolding request_transition
  request_answered t n calm e =
      let (c, later, waits) =
        wait_future_calm (ros.change n.calls) s.lifecycle_wait_timeout n.context calm in
      (c, later, rw (waits, e) refl)

  transition_answered :
      (t : Transition) (n : Node G) (o : Option LifecycleState)
      → IsCalm n.context
      → waited (ros.change n.calls) s.lifecycle_wait_timeout ≡ some true
      → waited (ros.state (change_state t ∷ n.calls)) s.lifecycle_wait_timeout ≡ o
      → Returns o (get_state ∷ change_state t ∷ n.calls) n (transition_to s ros t n)
  unfolding transition_to
  transition_answered t n o calm e f =
      let (c1, later1, first) = request_answered t n calm e in
      let n1 : Node G = record n { context = c1; calls = change_state t ∷ n.calls } in
      let (c2, later2, second) =
        get_state_answered n1 o (IsLater-IsCalm n.context c1 later1 calm) f in
      (
        c2,
        IsLater-trans n.context c1 c2 later1 later2,
        >>=-eq (request_transition s ros t) _ n (ok true) n1 first ∙ second,
      )

  -- From `unconfigured`, in a run that nobody cancels, such a server is brought up: the calls are
  -- configure and activate, each followed by a question for the state, the check succeeds, and the
  -- context is left as it was but for looks at the token.
  pub ensure_lifecycle_active_recovers :
      (n : Node G)
      → IsCalm n.context
      → AnswersInTurn n.calls
      → (c : Context) × IsLater n.context c
        × (ensure_lifecycle_active s ros n ≡ (
          ok true,
          record n {
            context = c;
            calls =
                get_state
                ∷ change_state activate
                ∷ get_state
                ∷ change_state configure
                ∷ get_state
                ∷ n.calls;
          },
        ))
  unfolding ensure_lifecycle_active from_state
  ensure_lifecycle_active_recovers n calm a =
      let (c1, later1, first) = get_state_answered n (some unconfigured) calm a.first in
      let n1 : Node G = record n { context = c1; calls = get_state ∷ n.calls } in
      let calm1 = IsLater-IsCalm n.context c1 later1 calm in
      let (c2, later2, second) =
        transition_answered configure n1 (some inactive) calm1 a.configures a.configured in
      let n2 : Node G = record n {
        context = c2;
        calls = get_state ∷ change_state configure ∷ get_state ∷ n.calls;
      } in
      let calm2 = IsLater-IsCalm c1 c2 later2 calm1 in
      let (c3, later3, third) =
        transition_answered activate n2 (some active) calm2 a.activates a.activated in
      (
        c3,
        IsLater-trans n.context c1 c3 later1 (IsLater-trans c1 c2 c3 later2 later3),
        rw (a.up) (
            >>=-eq (get_lifecycle_state_id s ros) (from_state s ros) n (ok (some unconfigured)) n1
              first
            ∙ >>=-eq (transition_to s ros configure) (after_configure s ros) n1 (ok (some inactive))
                n2 second
            ∙ >>=-eq (transition_to s ros activate) _ n2 (ok (some active)) _ third),
      )
