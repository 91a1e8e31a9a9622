-- ===== src/Executor/Saved.antt =====
-- From a save in the repository to the run of the saved SubJob: the repository, the executor, the spec
-- loader and the engine together.
use ss_prep.Base.{
  ℕ, ◌≡◌, refl, ◌∙◌, ap, arith, String, true, false, Option, none, some, List, Dict, eq_refl,
  lookup, Value, to_dict, ok, ◌==◌,
}
use ss_prep.Engine.World.{World}
use ss_prep.Engine.Tree.{State, machine, Shape, Children}
use ss_prep.Engine.SubJob.{run_state}
use ss_prep.Engine.Spec.Write.{to_spec, machine_spec}
use ss_prep.Engine.Spec.Rebuildable.{IsRebuildable}
use ss_prep.Executor.Builder.{Env, LoadResponse, load_polls, poll_reply, build_subjob}
use ss_prep.Executor.Dispatch.{run_args}
use ss_prep.Executor.Stored.{stored_runs}
use ss_prep.Repository.{Tools, SaveRequest, is_safe, has_kind, write}
use ss_prep.Repository.Laws.{load_path-write}
use ss_prep.Repository.Node.{
  Git, Store, LoadTaskResponse, load_cb, save_cb, store, stored_response, run_git,
}
use ss_prep.Repository.Node.History.{both_succeed}

-- What the executor reads of a response.
unfoldable pub received : LoadTaskResponse → LoadResponse
received p = record { success = p.success; xml_content = p.xml_content }

has_kind-machine_spec : (s : Shape) (cs : Children) → has_kind (to_spec (machine s cs)) ≡ true
unfolding has_kind to_spec machine_spec to_dict lookup
has_kind-machine_spec s cs = refl

save_succeeds :
    (g : Git) (t : Tools) (r : SaveRequest) (s : Store) (spec : Value)
    → is_safe r.task_id ≡ true
    → (t.strip r.xml_content == "") ≡ false
    → t.loads (t.strip r.xml_content) ≡ some spec
    → has_kind spec ≡ true
    → both_succeed g r s.calls ≡ true
    → ((save_cb g t r s).0 ≡ record { success = true; message = "saved" })
      × ((save_cb g t r s).1.files ≡ write r.task_id r.xml_content s.files)
unfolding save_cb store stored_response run_git both_succeed
save_succeeds g t r s spec safe full parsed kind both = (ground arith, ground arith)

load_cb-write :
    (g : Git) (t : Tools) (id content : String) (s s' : Store)
    → is_safe id ≡ true
    → s'.files ≡ write id content s.files
    → load_cb g t id s' ≡ record { success = true; xml_content = t.read content; message = "ok" }
unfolding load_cb
load_cb-write g t id content s s' safe written =
    ground (arith, written, load_path-write s.files id content id, eq_refl id)

-- A client saves a text that JSON reads as the spec of a rebuildable `BehaviorSM`, under a safe id that no
-- class is registered under, and both calls of git succeed. The reading of the stored file gives the text
-- back. Then the save is answered with success; and where the executor gets the answer of the repository
-- in time, a goal with this id is built into a SubJob that runs exactly like the one the spec was
-- written from, with any parameters and userdata, in every world.
pub saved_runs :
    (g : Git) (t : Tools) (env : Env) (s : Store) (r : SaveRequest) (shape : Shape)
    → (children : Children) (parameters : List String) (ready : Option ℕ) → is_safe r.task_id ≡ true
    → lookup env.classes r.task_id ≡ none
    → (t.strip r.xml_content == "") ≡ false
    → t.loads (t.strip r.xml_content) ≡ some (to_spec (machine shape children))
    → env.loads r.xml_content ≡ some (to_spec (machine shape children))
    → t.read r.xml_content ≡ r.xml_content
    → both_succeed g r s.calls ≡ true
    → IsRebuildable env.classes true (machine shape children)
    → shape.behavior_parameters ≡ some parameters
    → env.service_up ≡ true
    → env.reply r.task_id
      ≡ (ready, ok (some (received (load_cb g t r.task_id (save_cb g t r s).1))))
    → poll_reply load_polls ready ≡ true
    → ((save_cb g t r s).0.success ≡ true)
      × (b : State) × (build_subjob env r.task_id ≡ ok b)
      × ((bp ud : Dict Value) (w : World)
          → run_state b (run_args env r.task_id bp ud) w
            ≡ run_state (machine shape children) (run_args env r.task_id bp ud) w)
unfolding received is_safe
saved_runs g t env s r shape children parameters ready safe unregistered full saved parsed same both
      rebuildable is_subjob up replied in_time =
    let (answered, written) =
      save_succeeds g t r s _ safe full saved (has_kind-machine_spec shape children) both in
    let answer = load_cb-write g t r.task_id r.xml_content s (save_cb g t r s).1 safe written in
    let named : (r.task_id == "") ≡ false = ground (arith, safe) in
    let (b, built, runs) =
      stored_runs env r.task_id r.xml_content shape children parameters ready unregistered up
        (replied
          ∙ ap (λ p. (ready, ok (some (received p)))) answer
          ∙ ap (λ x. (ready, ok (some (record { success = true; xml_content = x })))) same)
        in_time parsed rebuildable is_subjob named in
    (ap (λ p. p.success) answered, b, built, runs)
