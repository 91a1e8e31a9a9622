-- ===== src/Executor/StoredSamples.antt =====
-- A repository with the spec of `demo`, and a node that gets it from there.
use ss_prep.Base.{
  dict, end, ◌==◌, if◌then◌else◌, ◌≡◌, refl, true, false, some, none, [], ◌∷◌, ok, lookup,
}
use ss_prep.Engine.Registry.{Class}
use ss_prep.Engine.Tree.{State}
use ss_prep.Executor.Builder.{Env, poll_reply, load_polls}
use ss_prep.Engine.Spec.Write.{to_spec}
use ss_prep.Engine.Spec.Rebuildable.{IsRebuildable}
use ss_prep.Engine.Spec.Build.{construct}
use ss_prep.Executor.Samples.{say_done, demo, encoding}
use ss_prep.Repository.{Tools, SaveRequest, is_safe}
use ss_prep.Repository.Node.{Git, Store, load_cb, save_cb}
use ss_prep.Repository.Node.History.{both_succeed}
use ss_prep.Executor.Saved.{received}

abbrev pub say_done_class : Class State
say_done_class = record {
  name = "SayDone";
  is_state = true;
  is_behavior = false;
  construct = λ node kwargs. ok say_done;
}

-- The repository answers every id with the spec of `demo`, after three polls.
abbrev pub stored : Env
stored = record encoding {
  loads = λ text. some (if text == "{}" then dict end else to_spec demo);
  classes = ("SayDone", say_done_class) ∷ [];
  service_up = true;
  reply = λ id. (some 3, ok (some (record { success = true; xml_content = "spec" })));
}

pub demo-IsRebuildable : IsRebuildable stored.classes true demo
unfolding IsRebuildable lookup construct
demo-IsRebuildable = (
  "A",
  refl,
  refl,
  (refl, tt),
  (refl, tt),
  (refl, tt),
  ((say_done_class, refl, refl, refl, refl), tt),
)

pub stored_in_time : poll_reply load_polls (some 3) ≡ true
unfolding poll_reply
stored_in_time = refl

-- A repository with the tools of `stored`, and a save of the spec of `demo`.
abbrev pub all_well : Git
all_well = record {
  succeeds = λ calls args. true;
  has_git = λ calls. true;
  repr = λ s. s;
  decode_error = λ s. "";
  call_error = λ args. "";
}

abbrev pub plain_tools : Tools
plain_tools = record { strip = λ s. s; loads = stored.loads; read = λ s. s }

abbrev pub empty_store : Store
empty_store = record { files = record { json_files = []; xml_files = [] }; calls = [] }

abbrev pub demo_save : SaveRequest
demo_save = record { task_id = "Saved"; xml_content = "spec"; commit_message = "" }

abbrev pub serving : Env
serving = record stored {
  reply = λ id. (
    some 3,
    ok (
        some (
          received (
            load_cb all_well plain_tools id
              (save_cb all_well plain_tools demo_save empty_store).1))),
  );
}

pub saved_is_safe : is_safe "Saved" ≡ true
unfolding is_safe
saved_is_safe = refl

pub saved_is_new : lookup stored.classes "Saved" ≡ none
unfolding lookup
saved_is_new = refl

pub both_calls : both_succeed all_well demo_save [] ≡ true
unfolding both_succeed
both_calls = refl
