-- ===== src/Engine/Behavior/Run.antt =====
-- What a dispatch starts with and what it leaves behind.
use ss_prep.Base.{
  inl, String, ◌≡◌, refl, true, false, some, [], arith, contains, if◌then◌else◌, Dict, lookup,
  update, has_key, IsDict, lookup-update, Value, ok, raise, hfsm_error, cancelled_error,
}
use ss_prep.Engine.World.{CancelToken, World, enter, reset_global_path, install_token, token_is_set}
use ss_prep.Engine.Machine.Trail.{here}
use ss_prep.Engine.Machine.Cancelled.{execute_cancelled}
use ss_prep.Engine.Machine.Outcome.{execute-outcomes}
use ss_prep.Engine.Behavior.{Behavior, RunArgs, or_empty, all_given, root, seed, run}

-- The userdata that a run starts with: a behavior parameter comes before a value of `userdata_in`
-- under the same key.
lookup-seed :
    (args : RunArgs) (k : String)
    → IsDict (or_empty args.userdata_in)
    → IsDict (or_empty args.behavior_parameter)
    → lookup (seed args) k ≡ (
        if has_key (or_empty args.behavior_parameter) k
        then lookup (or_empty args.behavior_parameter) k
        else lookup (or_empty args.userdata_in) k)
unfolding seed lookup
lookup-seed args k hu hb = ground (
  arith,
  lookup-update (update [] (or_empty args.userdata_in)) (or_empty args.behavior_parameter) k hb,
  lookup-update [] (or_empty args.userdata_in) k hu,
)

-- A run that lacks a declared parameter raises `HfsmError` and touches nothing.
pub run_missing :
    (b : Behavior) (args : RunArgs) (w : World)
    → all_given b.behavior_parameters (or_empty args.behavior_parameter) ≡ false
    → run b args w ≡ (raise hfsm_error, w)
unfolding run
run_missing b args w h = ground arith

-- The outcome of a run is a declared one, and the userdata that comes back is the userdata that
-- the machine left.
run-outcomes :
    (b : Behavior) (args : RunArgs) (w : World) (o : String) (userdata : Dict Value)
    → (run b args w).0 ≡ ok (o, userdata)
    → (contains b.machine.outcomes o ≡ true) × (userdata ≡ (run b args w).1.userdata)
unfolding run
run-outcomes b args w o userdata h = grind (arith, execute-outcomes)

token_is_set_entered :
    (b : Behavior) (args : RunArgs) (w : World) (t : CancelToken)
    → args.cancel_token ≡ some t
    → t.event ≡ true
    → token_is_set
        (enter (root b args) (
          reset_global_path (record w {
            context = install_token args.cancel_token (record (w.context) { userdata = seed args });
          }))).1.context
      ≡ true
unfolding enter reset_global_path install_token token_is_set
token_is_set_entered b args w t installed set = ground arith

-- With a token that is set when the run starts, no child of the machine is entered: the run raises
-- `CancelledError`.
run_cancelled :
    (b : Behavior) (args : RunArgs) (w : World) (t : CancelToken) (i : String)
    → all_given b.behavior_parameters (or_empty args.behavior_parameter) ≡ true
    → b.machine.initial ≡ some i
    → args.cancel_token ≡ some t
    → t.event ≡ true
    → (run b args w).0 ≡ raise cancelled_error
unfolding run
run_cancelled b args w t i given starts installed set =
    let entered =
      (enter (root b args) (
        reset_global_path (record w {
          context = install_token args.cancel_token (record (w.context) { userdata = seed args });
        }))).1 in
    ground (
      arith,
      execute_cancelled b.machine 0 i i entered entered starts (omega arith) (here refl refl)
          (inl (token_is_set_entered b args w t installed set)),
    )
