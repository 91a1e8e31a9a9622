-- ===== src/Supervisor/Serial.antt =====
-- Whether the flag `in_flight` keeps the calls for a skill one at a time.
use ss_prep.Base.{ℕ, suc, ◌+◌, ◌-◌, ◌≤◌, ◌<◌, ◌≡◌, Bool, true, false, Option, none, some, arith}
use ss_prep.Supervisor.{
  ManagedSkill, Call, ask_state, ask_transition, Reply, kick, on_state, on_transition_done,
}

-- A skill, and the number of its calls that have no answer yet.
pub record Supervised : Type 0 where
  pub skill : ManagedSkill
  pub state_calls : ℕ
  pub transition_calls : ℕ

abbrev count_call : Option Call → ℕ → ℕ → ManagedSkill → Supervised
count_call none a b s = record { skill = s; state_calls = a; transition_calls = b }
count_call (some ask_state) a b s = record { skill = s; state_calls = suc a; transition_calls = b }
count_call (some (ask_transition t)) a b s = record {
  skill = s;
  state_calls = a;
  transition_calls = suc b;
}

-- The next poll, the answer to a `get_state`, and the answer to a `change_state`.
unfoldable pub polled : ℕ → Bool → Supervised → Supervised
unfolding kick
polled now ready v =
    count_call (kick now ready v.skill).1 v.state_calls v.transition_calls
      (kick now ready v.skill).0

unfoldable pub state_answered : ℕ → Bool → Reply → Supervised → Supervised
unfolding on_state
state_answered now ready reply v =
    let (s, call) = on_state now ready reply v.skill in
    count_call call (v.state_calls - 1) v.transition_calls s

unfoldable pub transition_answered : Supervised → Supervised
unfolding on_transition_done
transition_answered v = record v {
  skill = on_transition_done v.skill;
  transition_calls = v.transition_calls - 1;
}

-- What the environment may do next. A poll is on time if no call has passed its deadline.
pub data Step (v w : Supervised) : Type 0 where
  poll :
      (now : ℕ) (ready : Bool)
      → (v.skill.in_flight ≡ true → now ≤ v.skill.in_flight_deadline)
      → w ≡ polled now ready v
      → Step v w
  answer_state :
      (now : ℕ) (ready : Bool) (reply : Reply)
      → 0 < v.state_calls
      → w ≡ state_answered now ready reply v
      → Step v w
  answer_transition : 0 < v.transition_calls → w ≡ transition_answered v → Step v w

pub data Reach (v : Supervised) : Supervised → Type 0 where
  here : Reach v v
  next : {u w : Supervised} → Reach v u → Step u w → Reach v w

-- One call at most has no answer, and the flag says whether there is one.
pub record IsSerial (v : Supervised) : Type 0 where
  pub busy : v.skill.in_flight ≡ true → v.state_calls + v.transition_calls ≡ 1
  pub free : v.skill.in_flight ≡ false → v.state_calls + v.transition_calls ≡ 0

Step-IsSerial : (v w : Supervised) → Step v w → IsSerial v → IsSerial w
unfolding polled state_answered transition_answered
Step-IsSerial v w (poll now ready on_time e) h = rw (e) (ground arith)
Step-IsSerial v w (answer_state now ready reply waiting e) h = rw (e) (ground arith)
Step-IsSerial v w (answer_transition waiting e) h = rw (e) (ground arith)

-- As long as every answer comes before its deadline, a skill never has two calls at a time.
pub Reach-IsSerial : (v w : Supervised) → IsSerial v → Reach v w → IsSerial w
Reach-IsSerial v w h here = h
Reach-IsSerial v w h (next {u = u} r s) = Step-IsSerial u w s (Reach-IsSerial v u h r)

-- A poll after the deadline of a call sends another one, while the first may still be answered:
-- from then on the flag does not prevent two chains of calls at a time.
pub late_poll_overlaps :
    (v : Supervised) (now : ℕ)
    → IsSerial v
    → v.skill.in_flight ≡ true
    → v.skill.in_flight_deadline < now
    → (polled now true v).state_calls + (polled now true v).transition_calls ≡ 2
unfolding polled
late_poll_overlaps v now h busy late = ground arith
