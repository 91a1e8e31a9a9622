-- ===== src/Skill/Lifecycle/Active.antt =====
-- When a goal is sent, and how a server is brought up.
use ss_prep.Base.{
  Action, pure, ap, ◌≡◌, refl, inl, inr, Bool, true, false, Option, none, some, List, ◌∷◌, arith,
  Result, ok, raise, Bool-cases, ◌>>=◌, continue,
}
use ss_prep.Skill.Future.{waited, wait_future_cases}
use ss_prep.Skill.Lifecycle.{
  LifecycleState, unconfigured, inactive, active, other_state, Transition, configure, activate,
  Call, get_state, Ros, Skill, Node, get_lifecycle_state_id, request_transition, transition_to,
  is_active, activate_inactive, after_configure, from_state, ensure_lifecycle_active,
}

module _ {G R : Type 0} (s : Skill G R) (ros : Ros G R) where
  -- The last call asked for the state, and the answer, in time, was `active`.
  pub record SawActive (calls : List (Call G)) : Type 0 where
    pub before : List (Call G)
    pub asked : calls ≡ get_state ∷ before
    pub answer : waited (ros.state before) s.lifecycle_wait_timeout ≡ some active

  get_state-SawActive :
      (n : Node G)
      → (get_lifecycle_state_id s ros n).0 ≡ ok (some active)
      → SawActive (get_lifecycle_state_id s ros n).1.calls
  unfolding get_lifecycle_state_id
  get_state-SawActive n h = record {
    before = n.calls;
    asked = refl;
    answer =
        ground
          (arith, (wait_future_cases (ros.state n.calls) s.lifecycle_wait_timeout n.context).0);
  }

  transition_to-SawActive :
      (t : Transition) (n : Node G)
      → (transition_to s ros t n).0 ≡ ok (some active)
      → SawActive (transition_to s ros t n).1.calls
  unfolding transition_to
  transition_to-SawActive t n h =
      go (request_transition s ros t n).0 (request_transition s ros t n).1 h
    where
      next : Bool → Action (Node G) (Option LifecycleState)
      next = elim [ false ↦ pure none | true ↦ get_lifecycle_state_id s ros ]

      go :
          (r : Result Bool) (n' : Node G)
          → (continue r next n').0 ≡ ok (some active)
          → SawActive (continue r next n').1.calls
      go (ok true) n' e = get_state-SawActive n' e
      go (ok false) n' e = cc
      go (raise x) n' e = cc

  activate-SawActive :
      (n : Node G)
      → (activate_inactive s ros n).0 ≡ ok true
      → SawActive (activate_inactive s ros n).1.calls
  unfolding activate_inactive
  activate-SawActive n h =
      go (transition_to s ros activate n).0 (transition_to s ros activate n).1 h
        (transition_to-SawActive activate n)
    where
      last : Option LifecycleState → Action (Node G) Bool
      last o = pure (is_active s ros o)

      go :
          (r : Result (Option LifecycleState)) (n' : Node G)
          → (continue r last n').0 ≡ ok true
          → (r ≡ ok (some active) → SawActive n'.calls)
          → SawActive (continue r last n').1.calls
      go (ok (some active)) n' e saw = saw refl
      go (ok (some unconfigured)) n' e saw = cc
      go (ok (some inactive)) n' e saw = cc
      go (ok (some (other_state i))) n' e saw = cc
      go (ok none) n' e saw = cc
      go (raise x) n' e saw = cc

  configure-SawActive :
      (n : Node G)
      → ((transition_to s ros configure >>= after_configure s ros) n).0 ≡ ok true
      → SawActive ((transition_to s ros configure >>= after_configure s ros) n).1.calls
  unfolding after_configure
  configure-SawActive n h =
      go (transition_to s ros configure n).0 (transition_to s ros configure n).1 h
    where
      go :
          (r : Result (Option LifecycleState)) (n' : Node G)
          → (continue r (after_configure s ros) n').0 ≡ ok true
          → SawActive (continue r (after_configure s ros) n').1.calls
      go (ok (some inactive)) n' e = activate-SawActive n' e
      go (ok (some unconfigured)) n' e = cc
      go (ok (some active)) n' e = cc
      go (ok (some (other_state i))) n' e = cc
      go (ok none) n' e = cc
      go (raise x) n' e = cc

  from_state-SawActive :
      (o : Option LifecycleState) (n : Node G)
      → (o ≡ some active → SawActive n.calls)
      → (from_state s ros o n).0 ≡ ok true
      → SawActive (from_state s ros o n).1.calls
  unfolding from_state
  from_state-SawActive none n saw h = cc
  from_state-SawActive (some active) n saw h = saw refl
  from_state-SawActive (some unconfigured) n saw h = configure-SawActive n h
  from_state-SawActive (some inactive) n saw h = activate-SawActive n h
  from_state-SawActive (some (other_state i)) n saw h = cc

  -- When the lifecycle check lets a goal through, the last call asked the server for its state, and
  -- the answer came in time and was `active`: no goal is sent on the strength of an older answer,
  -- or of a transition that was only said to have worked.
  pub ensure_lifecycle_active-SawActive :
      (n : Node G)
      → (ensure_lifecycle_active s ros n).0 ≡ ok true
      → SawActive (ensure_lifecycle_active s ros n).1.calls
  unfolding ensure_lifecycle_active
  ensure_lifecycle_active-SawActive n h = elim (Bool-cases (ros.service_up n.calls)) [
    | inr down ↦ absurd (ground arith)
    | inl up ↦ rw (up) (
        go (get_lifecycle_state_id s ros n).0 (get_lifecycle_state_id s ros n).1 (rw (up) at h)
          (get_state-SawActive n))
  ]
    where
      go :
          (r : Result (Option LifecycleState)) (n' : Node G)
          → (continue r (from_state s ros) n').0 ≡ ok true
          → (r ≡ ok (some active) → SawActive n'.calls)
          → SawActive (continue r (from_state s ros) n').1.calls
      go (ok o) n' e saw = from_state-SawActive o n' (λ p. saw (ap ok p)) e
      go (raise x) n' e saw = cc
