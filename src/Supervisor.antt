-- ===== src/Supervisor.antt =====
-- mw_skill_supervisor/mw_skill_supervisor/supervisor_node.py: the watchdog that brings each managed
-- skill server to `active`. Calls are asynchronous: `kick` sends, and the callbacks come later.
-- Times are readings of the monotonic clock in milliseconds.
pub mod Serial
pub mod Recovery
mod Tests
use ss_prep.Base.{
  ℕ, ◌+◌, String, Bool, true, false, not, ◌&&◌, Option, none, some, List, [], ◌∷◌, if◌then◌else◌,
  ltb, Dict, insert,
}

-- The ids of lifecycle_msgs, by the names that the code uses.
pub data StateId : Type 0 where
  unknown unconfigured inactive active finalized : StateId
  other_id : ℕ → StateId

pub data Transition : Type 0 where
  configure activate : Transition

pub data Call : Type 0 where
  ask_state : Call
  ask_transition : Transition → Call

-- What the future of `get_state` holds when its callback runs.
pub data Reply : Type 0 where
  failed : Reply
  no_response : Reply
  state_is : StateId → Reply

pub record ManagedSkill : Type 0 where
  pub name : String
  pub last_state : StateId
  pub in_flight : Bool
  pub in_flight_deadline : ℕ

unfoldable pub managed : String → ManagedSkill
managed name = record {
  name = name;
  last_state = unknown;
  in_flight = false;
  in_flight_deadline = 0;
}

-- The loop of the constructor, over the names of the nodes to manage.
unfoldable pub manage : List String → Dict ManagedSkill → Dict ManagedSkill
unfolding managed
manage [] skills = skills
manage (name ∷ names) skills = manage names (insert name (managed name) skills)

-- `STATE_LABELS`, less the other ids.
unfoldable pub state_label : StateId → Option String
state_label unknown = some "unknown"
state_label unconfigured = some "unconfigured"
state_label inactive = some "inactive"
state_label active = some "active"
state_label finalized = some "finalized"
state_label (other_id i) = none

abbrev pub in_flight_timeout : ℕ
in_flight_timeout = 3000

-- The part of `_kick` behind the test of the flag. `ready` is `service_is_ready()`.
unfoldable pub ask : ℕ → Bool → ManagedSkill → ManagedSkill × Option Call
ask now ready skill =
    if ready
    then (
      record skill { in_flight = true; in_flight_deadline = now + in_flight_timeout },
      some ask_state,
    )
    else (record skill { last_state = unknown }, none)

unfoldable pub kick : ℕ → Bool → ManagedSkill → ManagedSkill × Option Call
unfolding ask
kick now ready skill =
    if skill.in_flight
    then (if ltb skill.in_flight_deadline now
        then ask now ready (record skill { in_flight = false })
        else (skill, none))
    else ask now ready skill

-- The transition towards `active`.
unfoldable pub next_transition : StateId → Option Transition
next_transition unconfigured = some configure
next_transition inactive = some activate
next_transition _ = none

unfoldable pub fire_transition : ℕ → Bool → Transition → ManagedSkill → ManagedSkill × Option Call
fire_transition now ready t skill =
    if ready
    then (record skill { in_flight_deadline = now + in_flight_timeout }, some (ask_transition t))
    else (record skill { in_flight = false }, none)

unfoldable pub on_state : ℕ → Bool → Reply → ManagedSkill → ManagedSkill × Option Call
unfolding next_transition fire_transition
on_state now ready failed skill = (record skill { in_flight = false }, none)
on_state now ready no_response skill = (record skill { in_flight = false }, none)
on_state now ready (state_is s) skill =
    let seen = record skill { last_state = s } in
    elim (next_transition s) [
      | none ↦ (record seen { in_flight = false }, none)
      | some t ↦ fire_transition now ready t seen
    ]

-- Only the log tells how the transition went.
unfoldable pub on_transition_done : ManagedSkill → ManagedSkill
on_transition_done skill = record skill { in_flight = false }

-- `_poll_all`, with the readiness of each skill's service; the calls in the order of sending.
unfoldable pub poll_all :
    ℕ → (String → Bool) → List ManagedSkill → List ManagedSkill × List (String × Call)
unfolding kick
poll_all now ready [] = ([], [])
poll_all now ready (s ∷ skills) =
    let (s', call) = kick now (ready s.name) s in
    let (skills', calls) = poll_all now ready skills in
    (s' ∷ skills', elim call [ none ↦ calls | some c ↦ (s.name, c) ∷ calls ])
