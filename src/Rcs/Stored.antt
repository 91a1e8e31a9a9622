-- ===== src/Rcs/Stored.antt =====
-- From a save in the repository over an order to the state that shows how it ended.
use ss_prep.Base.{
  ℕ, ◌≡◌, ◌∙◌, ap, String, true, false, Option, none, some, List, Dict, lookup, Value, ok, ◌==◌,
  if◌then◌else◌,
}
use ss_prep.Engine.World.{World}
use ss_prep.Engine.Tree.{State, machine, Shape, Children}
use ss_prep.Engine.SubJob.{run_state}
use ss_prep.Engine.Spec.Write.{to_spec}
use ss_prep.Engine.Spec.Rebuildable.{IsRebuildable}
use ss_prep.Executor.Node.{Executor, publish_status}
use ss_prep.Executor.Builder.{Env, load_polls, poll_reply, safe_json_loads, dumps, build_subjob}
use ss_prep.Executor.Dispatch.{run_args}
use ss_prep.Executor.Saved.{received, saved_runs}
use ss_prep.Executor.Verdict.{ran_well, built_well}
use ss_prep.Repository.{Tools, SaveRequest, is_safe}
use ss_prep.Repository.Node.{Git, Store, load_cb, save_cb}
use ss_prep.Repository.Node.History.{both_succeed}
use ss_prep.Rcs.Schema.{OrderRequest}
use ss_prep.Rcs.Bridge.{SentGoal, Bridge, Outside, on_status, encode, submit_order, snapshot}
use ss_prep.Rcs.Ordered.{handle_goal, report, order_answered}

built_well-built :
    (env : Env) (id : String) (bp ud : Dict Value) (w : World) (t original : State)
    → build_subjob env id ≡ ok t
    → run_state t (run_args env id bp ud) w ≡ run_state original (run_args env id bp ud) w
    → built_well env id bp ud w (build_subjob env id)
      ≡ ran_well (run_state original (run_args env id bp ud) w).0
built_well-built env id bp ud w t original built same = rw (built) (ap (λ p. ran_well p.0) same)

-- A client saves a text that JSON reads as the spec of a rebuildable `BehaviorSM`, under a safe id
-- that no class is registered under; both calls of git succeed, the stored file is read back as it
-- was, and the executor gets the answer of the repository in time. Then an order for this id goes to
-- a server that is up: the executor, which is not busy, has JSON texts for every userdata and reads
-- those of the order back as they were. After the status message at the end the bridge shows success
-- exactly if a run of the original `BehaviorSM`, with the parameters and the userdata of the order,
-- returns a success outcome, and failure otherwise.
pub saved_order :
    (g : Git) (t : Tools) (env : Env) (s : Store) (saved : SaveRequest) (shape : Shape)
    → (children : Children) (parameters : List String) (ready : Option ℕ)
    → is_safe saved.task_id ≡ true
    → lookup env.classes saved.task_id ≡ none
    → (t.strip saved.xml_content == "") ≡ false
    → t.loads (t.strip saved.xml_content) ≡ some (to_spec (machine shape children))
    → env.loads saved.xml_content ≡ some (to_spec (machine shape children))
    → t.read saved.xml_content ≡ saved.xml_content
    → both_succeed g saved s.calls ≡ true
    → IsRebuildable env.classes true (machine shape children)
    → shape.behavior_parameters ≡ some parameters
    → env.service_up ≡ true
    → env.reply saved.task_id
      ≡ (ready, ok (some (received (load_cb g t saved.task_id (save_cb g t saved s).1))))
    → poll_reply load_polls ready ≡ true
    → (o : Outside) (order : OrderRequest) (goal : SentGoal) (b : Bridge) (e : Executor) (now : ℕ)
    → ((d : Dict Value) → (x : String) × (dumps env d ≡ ok x))
    → o.server_up ≡ true
    → e.busy ≡ false
    → order.subjob_id ≡ saved.task_id
    → encode o order ≡ ok goal
    → safe_json_loads env goal.behavior_parameter_json ≡ order.behavior_parameter
    → safe_json_loads env goal.userdata_in_json ≡ order.userdata_in
    → let e1 = (handle_goal env goal e).1 in
      (snapshot o (on_status (report (publish_status now e1)) (submit_order o order b).1)).status
      ≡ (if ran_well
            (run_state
              (machine shape children)
              (run_args env saved.task_id order.behavior_parameter order.userdata_in)
              e.world).0
          then "success"
          else "failure")
saved_order g t env s saved shape children parameters ready safe unregistered full parsed loaded
      same both rebuildable is_subjob up replied in_time o order goal b e now encodes server free
      named encoded parameters_read userdata_read =
    let (_, built, is_built, runs) =
      saved_runs g t env s saved shape children parameters ready safe unregistered full parsed
        loaded same both rebuildable is_subjob up replied in_time in
    let (_, result, _, reported, verdict) =
      order_answered o env order goal b e now encodes server free encoded parameters_read
        userdata_read in
    reported.ending
    ∙ ap (λ v. if v then "success" else "failure")
        (verdict
          ∙ ap
              (λ id.
                built_well env id order.behavior_parameter order.userdata_in e.world
                  (build_subjob env id))
              named
          ∙ built_well-built env saved.task_id order.behavior_parameter order.userdata_in e.world
              built (machine shape children) is_built
              (runs order.behavior_parameter order.userdata_in e.world))
