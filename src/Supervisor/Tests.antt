-- ===== src/Supervisor/Tests.antt =====
-- The watchdog on one skill.
use ss_prep.Base.{ℕ, arith, ◌+◌, ◌≤◌, Bool, List, refl, true, false, [], ◌∷◌}
use ss_prep.Supervisor.{ManagedSkill, unknown, unconfigured, inactive, active, configure, activate}
use ss_prep.Supervisor.Serial.{
  Supervised, polled, IsSerial, Reach, here, next, poll, Reach-IsSerial,
}
use ss_prep.Supervisor.Recovery.{Poll, Watched, Server, rounds, ready_polls, IsAt, rounds_recover}

abbrev motor : ManagedSkill
motor = record {
  name = "move_motor_server";
  last_state = unknown;
  in_flight = false;
  in_flight_deadline = 0;
}

abbrev at_rest : Supervised
at_rest = record { skill = motor; state_calls = 0; transition_calls = 0 }

abbrev waiting : Supervised
waiting = record {
  skill = record motor { in_flight = true; in_flight_deadline = 3500 };
  state_calls = 1;
  transition_calls = 0;
}

waiting-Reach : Reach at_rest waiting
unfolding polled
waiting-Reach = next here (poll 500 true (λ e. cc) refl)

at_rest-IsSerial : IsSerial at_rest
at_rest-IsSerial = record { busy = λ e. cc; free = λ e. refl }

Reach-IsSerial_example : IsSerial waiting
Reach-IsSerial_example = Reach-IsSerial at_rest waiting at_rest-IsSerial waiting-Reach

-- The lifecycle of a server, as the node that it manages goes through it.
abbrev lifecycle : Server
lifecycle configure unconfigured = inactive
lifecycle activate inactive = active
lifecycle _ s = s

abbrev poll_at : ℕ → Bool → Poll
poll_at t ready = record {
  polled_at = t;
  answered_at = t + 20;
  state_ready = true;
  change_ready = ready;
}

abbrev polls : List Poll
polls = poll_at 0 false ∷ poll_at 500 true ∷ poll_at 1000 true ∷ poll_at 1500 true ∷ []

abbrev found : Watched
found = record { skill = motor; state = unconfigured; requested = [] }

two_ready : 2 ≤ ready_polls polls
unfolding ready_polls
two_ready = omega arith

rounds_recover_example : IsAt (rounds lifecycle polls found) active (activate ∷ configure ∷ [])
rounds_recover_example =
    rounds_recover lifecycle polls found [] refl refl
      (record { idle = refl; at_state = refl; had_requested = refl }) two_ready
