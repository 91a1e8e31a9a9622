-- ===== src/Engine/Behavior.antt =====
-- behavior_sm.py: `BehaviorSM.run`, the dispatch entry point. `BehaviorSM` is a `StateMachine` with
-- declared parameters.
pub mod Run
use ss_prep.Base.{
  String, Bool, true, ◌&&◌, Option, none, some, List, [], ◌∷◌, ◌==◌, if◌then◌else◌, Dict, update,
  has_key, Value, Result, ok, raise, hfsm_error, Action,
}
use ss_prep.Engine.World.{
  CancelToken, Context, World, install_token, enter, exit, reset_global_path,
}
use ss_prep.Engine.Registry.{Child}
use ss_prep.Engine.Machine.{Machine, ok_outcome, execute}

pub record Behavior : Type 0 where
  pub class_name : String
  pub behavior_parameters : List String
  pub machine : Machine Child

-- The arguments of `run`; `none` stands for an argument that is left out.
pub record RunArgs : Type 0 where
  pub behavior_parameter : Option (Dict Value)
  pub userdata_in : Option (Dict Value)
  pub cancel_token : Option CancelToken
  pub root_name : Option String

unfoldable pub or_empty : Option (Dict Value) → Dict Value
or_empty none = []
or_empty (some d) = d

-- `missing` is empty.
unfoldable pub all_given : List String → Dict Value → Bool
all_given [] d = true
all_given (p ∷ ps) d = has_key d p && all_given ps d

unfoldable pub seed : RunArgs → Dict Value
unfolding or_empty
seed args = update (update [] (or_empty args.userdata_in)) (or_empty args.behavior_parameter)

unfoldable pub root : Behavior → RunArgs → String
root b args = elim args.root_name [
  | none ↦ b.class_name
  | some name ↦ if name == "" then b.class_name else name
]

-- What runs under `try`, and the `finally` that follows it.
unfoldable pub run_seeded : Behavior → RunArgs → World → Result String × Dict Value × World
unfolding install_token enter exit reset_global_path ok_outcome seed root
run_seeded b args w =
    let w1 = record w {
      context = install_token args.cancel_token (record (w.context) { userdata = seed args });
    } in
    let (parent_path, w2) = enter (root b args) (reset_global_path w1) in
    let (r, w3) = execute b.machine w2 in
    let w4 = reset_global_path (exit parent_path (ok_outcome r) w3) in
    (r, w4.userdata, record w4 { context = install_token none w4.context })

unfoldable pub run : Behavior → RunArgs → Action World (String × Dict Value)
unfolding run_seeded all_given
run b args w =
    if all_given b.behavior_parameters (or_empty args.behavior_parameter)
    then (let (r, userdata, w') = run_seeded b args w in
        elim r [ raise e ↦ (raise e, w') | ok outcome ↦ (ok (outcome, userdata), w') ])
    else (raise hfsm_error, w)
