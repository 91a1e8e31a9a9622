-- ===== src/Supervisor/Recovery.antt =====
-- How the watchdog brings a skill up, with a server whose state the requests change.
use ss_prep.Base.{
  ℕ, suc, ◌≤◌, ◌≡◌, Bool, false, Bool-cases, inl, inr, ◌&&◌, Option, none, some, List, [], ◌∷◌,
  if◌then◌else◌, arith,
}
use ss_prep.Supervisor.{
  StateId, unconfigured, inactive, active, Transition, configure, activate, ManagedSkill, Call,
  ask_state, ask_transition, state_is, kick, on_state, on_transition_done,
}

-- A poll: the readings of the clock at the question and at the answer, and whether the services for
-- the state and for its change are ready then.
pub record Poll : Type 0 where
  pub polled_at : ℕ
  pub answered_at : ℕ
  pub state_ready : Bool
  pub change_ready : Bool

-- The watchdog's record of a skill, the state of its server, and the transitions requested, the
-- latest first.
pub record Watched : Type 0 where
  pub skill : ManagedSkill
  pub state : StateId
  pub requested : List Transition

-- The lifecycle of the server: how a request changes its state.
abbrev pub Server : Type 0
Server = Transition → StateId → StateId

-- What the server makes of a call of `fire_transition`, and its end.
unfoldable pub end_round : Server → Option Call → Watched → Watched
unfolding on_transition_done
end_round server none w = w
end_round server (some ask_state) w = w
end_round server (some (ask_transition t)) w = record {
  skill = on_transition_done w.skill;
  state = server t w.state;
  requested = t ∷ w.requested;
}

-- A poll, where the service is ready the server's answer, and where the answer made the watchdog
-- request a transition, what the server does.
unfoldable pub round : Server → Poll → Watched → Watched
unfolding kick on_state end_round
round server p w =
    let (asked, question) = kick p.polled_at p.state_ready w.skill in
    elim question [
      | none ↦ record w { skill = asked }
      | some q ↦
          let (answered, request) =
            on_state p.answered_at p.change_ready (state_is w.state) asked in
          end_round server request (record w { skill = answered })
    ]

unfoldable pub rounds : Server → List Poll → Watched → Watched
rounds server [] w = w
rounds server (p ∷ ps) w = rounds server ps (round server p w)

-- The polls that find both services ready.
unfoldable pub ready_polls : List Poll → ℕ
ready_polls [] = 0
ready_polls (p ∷ ps) =
    let rest = ready_polls ps in if p.state_ready && p.change_ready then suc rest else rest

-- The state of the server and the transitions requested, while the skill is idle.
pub record IsAt (w : Watched) (s : StateId) (ts : List Transition) : Type 0 where
  pub idle : w.skill.in_flight ≡ false
  pub at_state : w.state ≡ s
  pub had_requested : w.requested ≡ ts

module _ (server : Server) where
  active_stays :
      (ps : List Poll) (w : Watched) (ts : List Transition)
      → IsAt w active ts
      → IsAt (rounds server ps w) active ts
  unfolding rounds round
  active_stays [] w ts at = at
  active_stays (p ∷ ps) w ts at = active_stays ps (round server p w) ts (record {
    idle = ground (arith, at);
    at_state = ground (arith, at);
    had_requested = ground (arith, at);
  })

  inactive_rises :
      (ps : List Poll) (w : Watched) (ts : List Transition)
      → server activate inactive ≡ active
      → IsAt w inactive ts
      → 1 ≤ ready_polls ps
      → IsAt (rounds server ps w) active (activate ∷ ts)
  unfolding rounds round ready_polls
  inactive_rises [] w ts rises at some_ready = absurd (omega arith)
  inactive_rises (p ∷ ps) w ts rises at some_ready =
      elim (Bool-cases (p.state_ready && p.change_ready)) [
        | inl ready ↦ active_stays ps (round server p w) (activate ∷ ts) (record {
          idle = ground (arith, at, ready);
          at_state = ground (arith, at, ready, rises);
          had_requested = ground (arith, at, ready);
        })
        | inr unready ↦
            inactive_rises ps (round server p w) ts rises
              (record {
                idle = ground (arith, at, unready);
                at_state = ground (arith, at, unready);
                had_requested = ground (arith, at, unready);
              })
              (ground (arith, unready))
      ]

  -- A server that a configure request takes from unconfigured to inactive, and an activate request from
  -- there to active, gets from unconfigured to active in any rounds of the watchdog of which at least
  -- two find its services ready, if the skill is idle before them. The transitions requested are
  -- configure and then activate, each once, and the skill is idle again.
  pub rounds_recover :
      (ps : List Poll) (w : Watched) (ts : List Transition)
      → server configure unconfigured ≡ inactive
      → server activate inactive ≡ active
      → IsAt w unconfigured ts
      → 2 ≤ ready_polls ps
      → IsAt (rounds server ps w) active (activate ∷ configure ∷ ts)
  unfolding rounds round ready_polls
  rounds_recover [] w ts configures activates at enough = absurd (omega arith)
  rounds_recover (p ∷ ps) w ts configures activates at enough =
      elim (Bool-cases (p.state_ready && p.change_ready)) [
        | inl ready ↦
            inactive_rises ps (round server p w) (configure ∷ ts) activates
              (record {
                idle = ground (arith, at, ready);
                at_state = ground (arith, at, ready, configures);
                had_requested = ground (arith, at, ready);
              })
              (ground (arith, ready))
        | inr unready ↦
            rounds_recover ps (round server p w) ts configures activates
              (record {
                idle = ground (arith, at, unready);
                at_state = ground (arith, at, unready);
                had_requested = ground (arith, at, unready);
              })
              (ground (arith, unready))
      ]
