-- ===== src/Rcs/StoredTests.antt =====
-- An order for the SubJob that was saved.
use ss_prep.Base.{◌≡◌, refl, some, [], ok, if◌then◌else◌, to_dict}
use ss_prep.Engine.SubJob.{run_state}
use ss_prep.Executor.Node.{publish_status}
use ss_prep.Executor.Builder.{safe_json_loads}
use ss_prep.Executor.Dispatch.{run_args}
use ss_prep.Executor.Verdict.{ran_well}
use ss_prep.Executor.Samples.{demo, demo_shape, demo_steps, waiting, quiet_world}
use ss_prep.Executor.StoredSamples.{
  serving, all_well, plain_tools, empty_store, demo_save, saved_is_safe, saved_is_new, both_calls,
  demo-IsRebuildable, stored_in_time,
}
use ss_prep.Rcs.Schema.{OrderRequest}
use ss_prep.Rcs.Bridge.{SentGoal, on_status, encode, submit_order, snapshot}
use ss_prep.Rcs.Ordered.{handle_goal, report}
use ss_prep.Rcs.Stored.{saved_order}
use ss_prep.Rcs.Samples.{outside, idle_bridge, order}

abbrev saved_demo : OrderRequest
saved_demo = record (order "a") { subjob_id = "Saved" }

abbrev saved_goal : SentGoal
saved_goal = record { subjob_id = "Saved"; behavior_parameter_json = "{}"; userdata_in_json = "{}" }

saved_encoded : encode outside saved_demo ≡ ok saved_goal
unfolding encode
saved_encoded = refl

reads_nothing : safe_json_loads serving "{}" ≡ []
unfolding safe_json_loads to_dict
reads_nothing = refl

saved_order_example :
    (snapshot outside (
      on_status
        (report (publish_status 9 (handle_goal serving saved_goal waiting).1))
        (submit_order outside saved_demo idle_bridge).1)).status
    ≡ (if ran_well (run_state demo (run_args serving "Saved" [] []) quiet_world).0
        then "success"
        else "failure")
saved_order_example =
    saved_order all_well plain_tools serving empty_store demo_save demo_shape demo_steps [] (some 3)
      saved_is_safe saved_is_new refl refl refl refl both_calls demo-IsRebuildable refl refl refl
      stored_in_time outside saved_demo saved_goal idle_bridge waiting 9 (λ d. ("{}", refl)) refl
      refl refl saved_encoded reads_nothing reads_nothing
