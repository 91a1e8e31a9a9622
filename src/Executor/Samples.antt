-- ===== src/Executor/Samples.antt =====
-- A SubJob of one step, and the node that runs it.
use ss_prep.Base.{
  String, true, false, none, some, [], ◌∷◌, Value, dict, end, Result, ok, raise, type_error,
}
use ss_prep.Engine.World.{World}
use ss_prep.Engine.Registry.{Class}
use ss_prep.Engine.Tree.{State, Shape, Children, leaf, machine, child, childless}
use ss_prep.Executor.Node.{idle, Goal, Executor}
use ss_prep.Executor.Builder.{Env}

abbrev pub say_done : State
say_done =
    leaf (record { class_name = "SayDone"; outcomes = "done" ∷ []; code = λ c. (ok "done", c) })

abbrev pub demo_shape : Shape
demo_shape = record {
  class_name = "Demo";
  behavior_parameters = some [];
  outcomes = "done" ∷ "failed" ∷ [];
  initial = some "A";
  transitions = ("A", ("done", "done") ∷ []) ∷ [];
}

abbrev pub demo_steps : Children
demo_steps = child "A" say_done childless

abbrev pub demo : State
demo = machine demo_shape demo_steps

abbrev pub demo_class : Class State
demo_class = record {
  name = "Demo";
  is_state = true;
  is_behavior = true;
  construct = λ node kwargs. ok demo;
}

abbrev pub env_with : (Value → Result String) → Env
env_with d = record {
  strip = λ s. s;
  loads = λ s. some (dict end);
  dumps = d;
  str_of = λ x. "";
  repr_of = λ x. "";
  classes = ("Demo", demo_class) ∷ [];
  service_up = false;
  reply = λ id. (none, ok none);
  off_schema = λ v. raise type_error;
  now = 0;
}

abbrev pub encoding : Env
encoding = env_with (λ v. ok "{}")

abbrev pub failing : Env
failing = env_with (λ v. raise type_error)

abbrev pub quiet_world : World
quiet_world = record {
  context = record { userdata = []; token = none; arrivals = λ n. false; looks = 0 };
  path = "";
  global_path = "";
  observing = false;
  trace = [];
  schedules = [];
}

abbrev pub waiting : Executor
waiting = record {
  subjob_id = "";
  active_state = "";
  status = idle;
  start_time = 0;
  spec_json = "";
  userdata_snapshot_json = "{}";
  busy = false;
  cancel_token = none;
  world = quiet_world;
  ended = [];
}

abbrev pub demo_goal : Goal
demo_goal = record { subjob_id = "Demo"; behavior_parameter_json = "{}"; userdata_in_json = "" }
