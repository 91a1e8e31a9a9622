-- ===== src/Repository/Node/History.antt =====
-- Saves and the history that git has of them.
use ss_prep.Base.{
  String, Bool, true, false, ◌&&◌, Option, none, some, List, [], ◌∷◌, ◌≡◌, refl, ◌∙◌, ap, arith,
  ◌==◌, if◌then◌else◌, Bool-cases, inl, inr,
}
use ss_prep.Repository.{Tools, SaveRequest}
use ss_prep.Repository.Node.{
  GitCall, Store, Git, SaveTaskResponse, run_git, commit_text, add_arguments, commit_arguments,
  store, stored_response, save_cb, init_arguments, email_arguments, ensure_repo, git_failed,
}

-- The calls of a save succeed.
unfoldable pub both_succeed : Git → SaveRequest → List GitCall → Bool
both_succeed g r calls =
    g.succeeds calls (add_arguments r.task_id)
    && g.succeeds (record { arguments = add_arguments r.task_id; succeeded = true } ∷ calls)
        (commit_arguments (commit_text r))

-- The message of a call that commits.
unfoldable pub message_in : List String → Option String
message_in (command ∷ quiet ∷ option ∷ message ∷ rest) =
    if command == "commit" then some message else none
message_in _ = none

abbrev pub logged : Option String → List String → List String
logged none log = log
logged (some message) log = message ∷ log

-- `git log`: the messages of the commits, the latest first.
unfoldable pub log_of : List GitCall → List String
unfolding message_in
log_of [] = []
log_of (c ∷ calls) =
    let log = log_of calls in if c.succeeded then logged (message_in c.arguments) log else log

-- Requests to save, one after the other.
unfoldable pub serve : Git → Tools → List SaveRequest → Store → List SaveTaskResponse × Store
unfolding save_cb
serve g t [] s = ([], s)
serve g t (r ∷ rs) s =
    let (response, s1) = save_cb g t r s in
    let (responses, s2) = serve g t rs s1 in (response ∷ responses, s2)

-- The messages of the requests whose response says that they were saved, on top of a log.
unfoldable pub reported : List SaveRequest → List SaveTaskResponse → List String → List String
unfolding commit_text
reported (r ∷ rs) (p ∷ ps) log = reported rs ps (if p.success then commit_text r ∷ log else log)
reported _ _ log = log

log_of-save_cb :
    (g : Git) (t : Tools) (r : SaveRequest) (s : Store)
    → log_of (save_cb g t r s).1.calls
      ≡ (if (save_cb g t r s).0.success then commit_text r ∷ log_of s.calls else log_of s.calls)
unfolding save_cb store stored_response run_git log_of message_in
log_of-save_cb g t r s = ground arith

-- Whatever git and the requests do, after some requests to save git's log has exactly one commit more
-- for each response that says that it was saved, in their order, with the message of the request or
-- else the default one.
pub log_of-serve :
    (g : Git) (t : Tools) (rs : List SaveRequest) (s : Store)
    → log_of (serve g t rs s).1.calls ≡ reported rs (serve g t rs s).0 (log_of s.calls)
unfolding serve reported
log_of-serve g t [] s = refl
log_of-serve g t (r ∷ rs) s =
    log_of-serve g t rs (save_cb g t r s).1
    ∙ ap (reported rs (serve g t rs (save_cb g t r s).1).0) (log_of-save_cb g t r s)

ensure_repo_there : (g : Git) (s : Store) → g.has_git s.calls ≡ true → ensure_repo g s ≡ (none, s)
unfolding ensure_repo
ensure_repo_there g s there = rw (there, ensure_repo) refl

-- `git init` makes a `.git` where it succeeds, and no later call of git takes it away: then a start of the
-- node after a start whose `git init` succeeded runs nothing, and ends without an error. This is so too
-- where the first start failed to set the user, which is left unset then.
pub ensure_repo_once :
    (g : Git) (s : Store)
    → ((calls : List GitCall)
        → g.has_git (record { arguments = init_arguments; succeeded = true } ∷ calls) ≡ true)
    → ((calls : List GitCall) (c : GitCall) → g.has_git calls ≡ true → g.has_git (c ∷ calls) ≡ true)
    → g.has_git s.calls ≡ false
    → g.succeeds s.calls init_arguments ≡ true
    → (ensure_repo g (ensure_repo g s).1 ≡ (none, (ensure_repo g s).1))
      × (g.succeeds
              (record { arguments = init_arguments; succeeded = true } ∷ s.calls)
              email_arguments
            ≡ false
          → (ensure_repo g s).0 ≡ some (git_failed email_arguments))
unfolding ensure_repo run_git
ensure_repo_once g s makes stays fresh initialized =
    let init = record { arguments = init_arguments; succeeded = true } ∷ s.calls in
    let made = makes s.calls in
    let there : g.has_git (ensure_repo g s).1.calls ≡ true =
      elim (Bool-cases (g.succeeds init email_arguments)) [
        | inl set ↦ rw (fresh, initialized, set, ensure_repo) (stays _ _ (stays _ _ made))
        | inr unset ↦ rw (fresh, initialized, unset, ensure_repo) (stays _ _ made)
      ] in
    (ensure_repo_there g (ensure_repo g s).1 there, λ unset. ground arith)
