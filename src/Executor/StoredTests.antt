-- ===== src/Executor/StoredTests.antt =====
-- A SubJob that was saved in the repository.
use ss_prep.Base.{◌≡◌, refl, true, some, [], Dict, Value, ok}
use ss_prep.Engine.World.{World}
use ss_prep.Engine.Tree.{State}
use ss_prep.Engine.SubJob.{run_state}
use ss_prep.Executor.Builder.{build_subjob}
use ss_prep.Executor.Dispatch.{run_args}
use ss_prep.Executor.Samples.{demo_shape, demo_steps, demo}
use ss_prep.Repository.Node.{save_cb}
use ss_prep.Executor.Saved.{saved_runs}
use ss_prep.Executor.StoredSamples.{
  demo-IsRebuildable, stored_in_time, all_well, plain_tools, empty_store, demo_save, serving,
  saved_is_safe, saved_is_new, both_calls,
}

saved_runs_example :
    ((save_cb all_well plain_tools demo_save empty_store).0.success ≡ true)
    × (b : State) × (build_subjob serving "Saved" ≡ ok b)
    × ((bp ud : Dict Value) (w : World)
        → run_state b (run_args serving "Saved" bp ud) w
          ≡ run_state demo (run_args serving "Saved" bp ud) w)
saved_runs_example =
    saved_runs all_well plain_tools serving empty_store demo_save demo_shape demo_steps [] (some 3)
      saved_is_safe saved_is_new refl refl refl refl both_calls demo-IsRebuildable refl refl refl
      stored_in_time
