-- ===== src/Executor/Stored.antt =====
-- A SubJob that comes from the repository: the executor, the spec loader and the engine together.
use ss_prep.Base.{
  ℕ, ◌≡◌, refl, ◌∙◌, ap, sym, attribute_error, String, true, false, Option, none, some, List, Dict,
  lookup, Value, hfsm_error, raise, ok, ◌==◌, if◌then◌else◌,
}
use ss_prep.Engine.World.{World}
use ss_prep.Engine.Registry.{resolve}
use ss_prep.Engine.Behavior.{Behavior, RunArgs, root, run_seeded, all_given, run}
use ss_prep.Engine.Tree.{State, machine, Shape, Children, as_machine, behave_children}
use ss_prep.Engine.SubJob.{as_behavior, run_state}
use ss_prep.Engine.Spec.Write.{to_spec, machine_kind_name}
use ss_prep.Engine.Spec.Rebuildable.{plain, plain_children, IsRebuildable}
use ss_prep.Engine.Spec.RoundTrip.{build-to_spec, behave_children-plain}
use ss_prep.Executor.Builder.{
  Env, load_polls, poll_reply, load_spec, build_loaded, loaded, load_spec_from_repository,
  build_subjob,
}
use ss_prep.Executor.Dispatch.{run_args}

-- What `run` reads of a `BehaviorSM`: its own class name only where no root name is given.
run_seeded-class_name :
    (b : Behavior) (name id : String) (env : Env) (bp ud : Dict Value) (w : World)
    → (id == "") ≡ false
    → run_seeded (record b { class_name = name }) (run_args env id bp ud) w
      ≡ run_seeded b (run_args env id bp ud) w
unfolding run_seeded root run_args
run_seeded-class_name b name id env bp ud w named = rw named refl

run-class_name :
    (b : Behavior) (name id : String) (env : Env) (bp ud : Dict Value) (w : World)
    → (id == "") ≡ false
    → run (record b { class_name = name }) (run_args env id bp ud) w
      ≡ run b (run_args env id bp ud) w
unfolding run run_args
run-class_name b name id env bp ud w named =
    ap
      (λ q.
        if all_given b.behavior_parameters bp
        then elim q.0 [ raise e ↦ (raise e, q.2) | ok outcome ↦ (ok (outcome, q.1), q.2) ]
        else (raise hfsm_error, w))
      (run_seeded-class_name b name id env bp ud w named)

-- The instance that `BehaviorSM.run` is called on, under the name of its class.
abbrev subjob : Shape → Children → List String → String → Behavior
subjob s cs ps name = record {
  class_name = name;
  behavior_parameters = ps;
  machine = as_machine s (behave_children cs);
}

as_behavior-machine :
    (s : Shape) (cs : Children) (ps : List String)
    → s.behavior_parameters ≡ some ps
    → as_behavior (machine s cs) ≡ some (subjob s cs ps s.class_name)
unfolding as_behavior
as_behavior-machine s cs ps is_subjob =
    ap (elim [ none ↦ none | some qs ↦ some (subjob s cs qs s.class_name) ]) is_subjob

as_behavior-plain :
    (s : Shape) (cs : Children) (ps : List String)
    → s.behavior_parameters ≡ some ps
    → as_behavior (plain (machine s cs))
      ≡ some (subjob s cs ps (machine_kind_name s.behavior_parameters))
unfolding plain as_behavior
as_behavior-plain s cs ps is_subjob =
    as_behavior-machine (record s { class_name = machine_kind_name s.behavior_parameters })
      (plain_children cs) ps is_subjob
    ∙ ap
        (λ children. some (record {
          class_name = machine_kind_name s.behavior_parameters;
          behavior_parameters = ps;
          machine = as_machine s children;
        }))
        (behave_children-plain cs)

pub run_state-as_behavior :
    (t : State) (b : Behavior) (args : RunArgs) (w : World)
    → as_behavior t ≡ some b
    → run_state t args w ≡ run b args w
unfolding run_state
run_state-as_behavior t b args w is_subjob =
    ap (elim [ none ↦ (raise attribute_error, w) | some c ↦ run c args w ]) is_subjob

run_state-plain :
    (env : Env) (s : Shape) (cs : Children) (ps : List String) (id : String)
    → (bp ud : Dict Value) (w : World) → s.behavior_parameters ≡ some ps
    → (id == "") ≡ false
    → run_state (plain (machine s cs)) (run_args env id bp ud) w
      ≡ run_state (machine s cs) (run_args env id bp ud) w
run_state-plain env s cs ps id bp ud w is_subjob named =
    run_state-as_behavior _ _ (run_args env id bp ud) w (as_behavior-plain s cs ps is_subjob)
    ∙ run-class_name (subjob s cs ps s.class_name) (machine_kind_name s.behavior_parameters) id env
        bp ud w named
    ∙ sym (
        run_state-as_behavior _ _ (run_args env id bp ud) w (as_behavior-machine s cs ps is_subjob))

build_loaded-to_spec :
    (env : Env) (text : String) (s : Shape) (cs : Children) (ps : List String)
    → env.loads text ≡ some (to_spec (machine s cs))
    → IsRebuildable env.classes true (machine s cs)
    → s.behavior_parameters ≡ some ps
    → build_loaded env text ≡ ok (some (plain (machine s cs)))
unfolding build_loaded load_spec
build_loaded-to_spec env text s cs ps parsed rebuildable is_subjob =
    rw (parsed, build_loaded)
      (rw (build-to_spec env.classes true (machine s cs) rebuildable, load_spec)
        (rw (as_behavior-plain s cs ps is_subjob) refl))

-- An id that no class is registered under, and that the repository answers in time with the text of
-- the spec of a rebuildable `BehaviorSM`, is built into a SubJob that runs under this id exactly like
-- the one the spec was written from, with any parameters and userdata, in every world.
pub stored_runs :
    (env : Env) (id text : String) (s : Shape) (cs : Children) (ps : List String) (ready : Option ℕ)
    → lookup env.classes id ≡ none
    → env.service_up ≡ true
    → env.reply id ≡ (ready, ok (some (record { success = true; xml_content = text })))
    → poll_reply load_polls ready ≡ true
    → env.loads text ≡ some (to_spec (machine s cs))
    → IsRebuildable env.classes true (machine s cs)
    → s.behavior_parameters ≡ some ps
    → (id == "") ≡ false
    → (t : State) × (build_subjob env id ≡ ok t)
      × ((bp ud : Dict Value) (w : World)
          → run_state t (run_args env id bp ud) w
            ≡ run_state (machine s cs) (run_args env id bp ud) w)
unfolding build_subjob loaded
stored_runs env id text s cs ps ready unregistered up replied in_time parsed rebuildable is_subjob
      named =
    (
      plain (machine s cs),
      rw (unregistered, build_subjob, resolve)
          (rw (up, replied, in_time, load_spec_from_repository)
            (rw (build_loaded-to_spec env text s cs ps parsed rebuildable is_subjob) refl)),
      λ bp ud w. run_state-plain env s cs ps id bp ud w is_subjob named,
    )
