-- ===== src/Rcs/Tests.antt =====
-- A bridge with one order.
use ss_prep.Base.{◌≡◌, refl, true, some, [], ◌∷◌, ok}
use ss_prep.Rcs.Schema.{OrderRequest}
use ss_prep.Rcs.Bridge.{SentGoal, Outside, chosen_id, encode, submit_order, cancel_order}
use ss_prep.Rcs.Server.{do_post}
use ss_prep.Rcs.Orders.{submit_all, AllOther, Changed, cancel_order-submit_order, do_post-Changed}
use ss_prep.Base.{to_dict}
use ss_prep.Rcs.Schema.{StateSnapshot}
use ss_prep.Rcs.Bridge.{on_status, snapshot}
use ss_prep.Rcs.Ordered.{handle_goal, report, IsReported, order_answered}
use ss_prep.Executor.Node.{GoalResult, publish_status}
use ss_prep.Executor.Builder.{safe_json_loads}
use ss_prep.Executor.Samples.{encoding, waiting, quiet_world}
use ss_prep.Base.{false}
use ss_prep.Executor.Node.{Executor, goal_callback}
use ss_prep.Executor.Verdict.{built_well}
use ss_prep.Executor.Builder.{build_subjob}
use ss_prep.Rcs.Busy.{busy_order_lost}
use ss_prep.Rcs.Samples.{outside, idle_bridge, order}

abbrev demo_goal : SentGoal
demo_goal = record { subjob_id = "demo"; behavior_parameter_json = "{}"; userdata_in_json = "{}" }

encoded : encode outside (order "a") ≡ ok demo_goal
unfolding encode
encoded = refl

other_id : AllOther outside (chosen_id outside (order "a")) (order "b" ∷ [])
unfolding chosen_id
other_id = (refl, tt)

cancel_order-submit_order_example :
    let first = submit_order outside (order "a") idle_bridge in
    let later = submit_all outside (order "b" ∷ []) first.1 in
    (first.0
      ≡ ok (record {
        accepted = true;
        order_id = chosen_id outside (order "a");
        message = "dispatched";
      }))
    × (first.1.sent ≡ demo_goal ∷ [])
    × (cancel_order outside (chosen_id outside (order "a")) later ≡ (
      ok (record { accepted = true; message = "cancel requested" }),
      record later { cancels = 0 ∷ later.cancels },
    ))
cancel_order-submit_order_example =
    cancel_order-submit_order outside (order "a") demo_goal (order "b" ∷ []) idle_bridge refl
      encoded other_id refl

do_post-Changed_example :
    Changed idle_bridge
      (do_post outside "/order" "{}" idle_bridge).0
      (do_post outside "/order" "{}" idle_bridge).1
do_post-Changed_example = do_post-Changed outside "/order" "{}" idle_bridge

-- An order that a node with `Demo` runs, and the state once the status message at 7 has come.
abbrev demo_order : OrderRequest
demo_order = record (order "a") { subjob_id = "Demo" }

abbrev sent_goal : SentGoal
sent_goal = record { subjob_id = "Demo"; behavior_parameter_json = "{}"; userdata_in_json = "{}" }

demo_encoded : encode outside demo_order ≡ ok sent_goal
unfolding encode
demo_encoded = refl

nothing_given : safe_json_loads encoding "{}" ≡ []
unfolding safe_json_loads to_dict
nothing_given = refl

abbrev demo_state : StateSnapshot
demo_state = snapshot outside (
    on_status (report (publish_status 7 (handle_goal encoding sent_goal waiting).1))
      (submit_order outside demo_order idle_bridge).1)

order_answered_example :
    ((submit_order outside demo_order idle_bridge).0
      ≡ ok (record {
        accepted = true;
        order_id = chosen_id outside demo_order;
        message = "dispatched";
      }))
    × (result : GoalResult) × ((handle_goal encoding sent_goal waiting).0 ≡ some (ok result))
    × IsReported outside demo_order result demo_state
    × (result.succeeded
        ≡ built_well encoding "Demo" [] [] quiet_world (build_subjob encoding "Demo"))
order_answered_example =
    order_answered outside encoding demo_order sent_goal idle_bridge waiting 7 (λ d. ("{}", refl))
      refl refl demo_encoded nothing_given nothing_given

-- The node while it runs another SubJob, and a bridge whose goals are rejected.
abbrev working : Executor
working = record waiting { busy = true; subjob_id = "Other" }

abbrev refusing : Outside
refusing = record outside { handle = λ n. ok (some false) }

refusing_encoded : encode refusing demo_order ≡ ok sent_goal
unfolding encode
refusing_encoded = refl

busy_order_lost_example :
    let (answer, b1) = submit_order refusing demo_order idle_bridge in
    let b2 = on_status (report (publish_status 7 working)) b1 in
    (goal_callback working ≡ false)
    × (answer
        ≡ ok (record {
          accepted = true;
          order_id = chosen_id refusing demo_order;
          message = "dispatched";
        }))
    × ((snapshot refusing b2).order_id ≡ chosen_id refusing demo_order)
    × ((snapshot refusing b2).subjob_id ≡ "Other")
    × (cancel_order refusing (chosen_id refusing demo_order) b2
        ≡ (ok (record { accepted = false; message = "goal handle not yet accepted" }), b2))
busy_order_lost_example =
    busy_order_lost refusing demo_order sent_goal idle_bridge working 7 refl refusing_encoded refl
      refl
