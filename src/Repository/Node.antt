-- ===== src/Repository/Node.antt =====
-- mw_task_repository/mw_task_repository/repo_node.py: the callbacks with their responses, and what they
-- run git for. Git itself is a parameter.
pub mod History
pub mod Latest
use Prim.Native.String
use ss_prep.Base.{String, Bool, true, false, Option, none, some, List, [], ◌∷◌, ◌==◌, if◌then◌else◌}
use ss_prep.Repository.{Files, Tools, SaveRequest, is_safe, load_path, has_kind, write, list_tasks}

-- A call of git, with its arguments and whether it ended without an error.
pub record GitCall : Type 0 where
  pub arguments : List String
  pub succeeded : Bool

-- The directory: its specs, and the calls of git that were run in it, the latest first.
pub record Store : Type 0 where
  pub files : Files
  pub calls : List GitCall

-- What an `except` clause catches: the `ValueError` of `_safe_id`, with the id, or the error of a call of
-- git.
pub data Failure : Type 0 where
  invalid_task_id : String → Failure
  git_failed : List String → Failure

-- Given the calls before it, whether a call of git succeeds, and whether there is a `.git`; the texts of
-- errors are those of `repr`, of `json` and of `subprocess`.
pub record Git : Type 0 where
  pub succeeds : List GitCall → List String → Bool
  pub has_git : List GitCall → Bool
  pub repr : String → String
  pub decode_error : String → String
  pub call_error : List String → String

pub record LoadTaskResponse : Type 0 where
  pub success : Bool
  pub xml_content : String
  pub message : String

pub record SaveTaskResponse : Type 0 where
  pub success : Bool
  pub message : String

abbrev pub init_arguments : List String
init_arguments = "init" ∷ "-q" ∷ "-b" ∷ "main" ∷ []

abbrev pub email_arguments : List String
email_arguments = "config" ∷ "user.email" ∷ "task-repo@mw.local" ∷ []

abbrev pub name_arguments : List String
name_arguments = "config" ∷ "user.name" ∷ "mw-task-repo" ∷ []

-- `req.commit_message or f'save {req.task_id}'`.
unfoldable pub commit_text : SaveRequest → String
commit_text r = if r.commit_message == "" then String.◌++◌ "save " r.task_id else r.commit_message

abbrev pub add_arguments : String → List String
add_arguments id = "add" ∷ String.◌++◌ id ".json" ∷ []

abbrev pub commit_arguments : String → List String
commit_arguments message = "commit" ∷ "-q" ∷ "-m" ∷ message ∷ "--allow-empty" ∷ []

module _ (g : Git) where
  -- `subprocess.run(['git', ...], check=True)`.
  unfoldable pub run_git : List String → Store → Option Failure × Store
  run_git args s =
      let succeeded = g.succeeds s.calls args in
      (
        if succeeded then none else some (git_failed args),
        record s { calls = record { arguments = args; succeeded = succeeded } ∷ s.calls },
      )

  -- The next statement, unless an exception is on its way.
  abbrev pub and_then :
      Option Failure × Store → (Store → Option Failure × Store) → Option Failure × Store
  and_then (none, s) f = f s
  and_then (some x, s) f = (some x, s)

  unfoldable pub str_of : Failure → String
  str_of (invalid_task_id id) = String.◌++◌ "invalid task_id: " (g.repr id)
  str_of (git_failed args) = g.call_error args

  -- `_ensure_repo`.
  unfoldable pub ensure_repo : Store → Option Failure × Store
  unfolding run_git
  ensure_repo s =
      if g.has_git s.calls
      then (none, s)
      else and_then (run_git init_arguments s)
          (λ s1. and_then (run_git email_arguments s1) (run_git name_arguments))

  module _ (t : Tools) where
    -- `_load_cb`.
    unfoldable pub load_cb : String → Store → LoadTaskResponse
    unfolding is_safe load_path str_of
    load_cb id s =
        if is_safe id
        then elim (load_path s.files id) [
          | none ↦ record {
            success = false;
            xml_content = "";
            message = String.◌++◌ "not found: " id;
          }
          | some text ↦ record { success = true; xml_content = t.read text; message = "ok" }
        ]
        else record { success = false; xml_content = ""; message = str_of (invalid_task_id id) }

    -- From the path of the file on.
    unfoldable pub store : SaveRequest → Store → Option Failure × Store
    unfolding is_safe write run_git commit_text
    store r s =
        if is_safe r.task_id
        then and_then
            (run_git (add_arguments r.task_id)
              (record s { files = write r.task_id r.xml_content s.files }))
            (run_git (commit_arguments (commit_text r)))
        else (some (invalid_task_id r.task_id), s)

    unfoldable pub stored_response : Option Failure → SaveTaskResponse
    unfolding str_of
    stored_response none = record { success = true; message = "saved" }
    stored_response (some x) = record { success = false; message = str_of x }

    -- `_save_cb`.
    unfoldable pub save_cb : SaveRequest → Store → SaveTaskResponse × Store
    unfolding has_kind store stored_response
    save_cb r s =
        let content = t.strip r.xml_content in
        if content == ""
        then (record { success = false; message = "empty spec" }, s)
        else elim (t.loads content) [
          | none ↦ (
            record {
              success = false;
              message = String.◌++◌ "invalid JSON: " (g.decode_error content);
            },
            s,
          )
          | some parsed ↦
              if has_kind parsed
              then (let (failure, s') = store r s in (stored_response failure, s'))
              else (
                record {
                  success = false;
                  message = "spec must be a JSON object with a \"kind\" field";
                },
                s,
              )
        ]
