-- ===== src/Repository/Tests.antt =====
-- A save into an empty directory.
use ss_prep.Base.{
  ◌≡◌, refl, ◌⊎◌, true, false, some, none, [], ◌∷◌, ok, raise, runtime_error, ◌==◌, if◌then◌else◌,
  contains, dict, field, end, str, lookup, to_dict,
}
use ss_prep.Repository.{Files, Tools, SaveRequest, is_safe}
use ss_prep.Repository.Dispatch.{Outside, Host, main}
use ss_prep.Repository.Dispatch.Runs.{main-save}
use ss_prep.Repository.Laws.{failed_save}
use ss_prep.Base.{Bool, not, ◌||◌, ◌&&◌, List}
use ss_prep.Repository.{has_kind}
use ss_prep.Repository.Node.{Git, GitCall, Store, save_cb, store, run_git, commit_text}
use ss_prep.Repository.Node.History.{
  both_succeed, message_in, log_of, serve, reported, log_of-serve,
}
use ss_prep.Repository.Node.{load_cb}

abbrev no_files : Files
no_files = record { json_files = []; xml_files = [] }

abbrev tools : Tools
tools = record {
  strip = λ s. s;
  loads = λ s. some (dict (field "kind" (str "State") end));
  read = λ s. s;
}

abbrev first_save : SaveRequest
first_save = record { task_id = "demo"; xml_content = "{}"; commit_message = "first" }

abbrev second_save : SaveRequest
second_save = record { task_id = "demo"; xml_content = "{}"; commit_message = "again" }

-- Git, where setting the user's email fails, and a commit with the message "again".
abbrev is_init : GitCall → Bool
is_init c = elim c.arguments [ [] ↦ false | command ∷ rest ↦ c.succeeded && command == "init" ]

abbrev started : List GitCall → Bool
started [] = false
started (c ∷ calls) = is_init c || started calls

abbrev flaky : Git
flaky = record {
  succeeds = λ calls args. not (contains args "user.email" || contains args "again");
  has_git = started;
  repr = λ s. s;
  decode_error = λ s. "";
  call_error = λ args. "";
}

abbrev new_store : Store
new_store = record { files = no_files; calls = [] }

first_succeeds : (save_cb flaky tools first_save new_store).0.success ≡ true
unfolding save_cb store run_git is_safe has_kind commit_text lookup to_dict
first_succeeds = refl

second_fails : (save_cb flaky tools second_save new_store).0.success ≡ false
unfolding save_cb store run_git is_safe has_kind commit_text lookup to_dict
second_fails = refl

failed_save_example :
    ((save_cb flaky tools second_save new_store).1 ≡ new_store)
    ⊎ ((both_succeed flaky second_save [] ≡ false)
        × (load_cb flaky tools "demo" (save_cb flaky tools second_save new_store).1
            ≡ record { success = true; xml_content = "{}"; message = "ok" }))
failed_save_example = failed_save flaky tools second_save new_store second_fails

abbrev outside : Outside
outside = record {
  service_up = true;
  answers = true;
  fresh = λ files. "/tmp/new.xml";
  call = λ path text. elim text [
    | none ↦ raise runtime_error
    | some x ↦ ok (if x == "{}" then 0 else 1)
  ];
}

abbrev host : Host
host = record { files = ("/tmp/other", "kept") ∷ []; calls = [] }

main-save_example :
    (outside.service_up ≡ true
      → outside.answers ≡ true
      → main outside tools (save_cb flaky tools first_save new_store).1.files "demo" host
        ≡ (ok 0, record host { calls = "/tmp/new.xml" ∷ [] }))
    × (outside.service_up ≡ false
        → main outside tools (save_cb flaky tools first_save new_store).1.files "demo" host
          ≡ (ok 2, host))
    × (outside.answers ≡ false
        → main outside tools (save_cb flaky tools first_save new_store).1.files "demo" host
          ≡ (ok 2, host))
unfolding lookup
main-save_example = main-save outside flaky tools first_save new_store host first_succeeds refl

log_of-serve_example :
    log_of (serve flaky tools (first_save ∷ second_save ∷ []) new_store).1.calls
    ≡ reported
        (first_save ∷ second_save ∷ [])
        (serve flaky tools (first_save ∷ second_save ∷ []) new_store).0
        []
unfolding log_of
log_of-serve_example = log_of-serve flaky tools (first_save ∷ second_save ∷ []) new_store

-- The first commit is in the log, the second is not.
logged_once :
    log_of (serve flaky tools (first_save ∷ second_save ∷ []) new_store).1.calls ≡ "first" ∷ []
unfolding log_of serve save_cb store run_git is_safe has_kind message_in commit_text to_dict lookup
logged_once = refl
