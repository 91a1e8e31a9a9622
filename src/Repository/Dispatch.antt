-- ===== src/Repository/Dispatch.antt =====
-- mw_task_repository/mw_task_repository/dispatch_cli.py: the command that runs a stored task.
pub mod Runs
use ss_prep.Base.{
  ℕ, String, Bool, true, false, Option, none, some, List, [], ◌∷◌, ◌==◌, if◌then◌else◌, Dict,
  lookup, insert, Result, ok, raise, runtime_error, Action,
}
use ss_prep.Repository.{Files, Tools, load}

-- The outside: whether the service of the repository is there and answers within the timeout, the path
-- that `NamedTemporaryFile` takes, given the temporary files that there are, and what `subprocess.call`
-- does with the file that the manager is told to read.
pub record Outside : Type 0 where
  pub service_up : Bool
  pub answers : Bool
  pub fresh : Dict String → String
  pub call : String → Option String → Result ℕ

-- The temporary files, and the calls of the manager, the latest first: each with its path.
pub record Host : Type 0 where
  pub files : Dict String
  pub calls : List String

-- `os.unlink`.
unfoldable pub unlink : String → Dict String → Dict String
unlink path [] = []
unlink path ((p, text) ∷ files) =
    let rest = unlink path files in if p == path then rest else (p, text) ∷ rest

module _ (o : Outside) (t : Tools) (stored : Files) where
  -- `DispatchClient.fetch`.
  unfoldable pub fetch : String → Result String
  unfolding load
  fetch id =
      if o.service_up
      then if o.answers
        then elim (load t stored id) [ none ↦ raise runtime_error | some xml ↦ ok xml ]
        else raise runtime_error
      else raise runtime_error

  -- From the temporary file on: the call, and the `finally` after it.
  unfoldable pub run_manager : String → Action Host ℕ
  unfolding unlink
  run_manager xml h =
      let path = o.fresh h.files in
      let written = insert path xml h.files in
      (
        o.call path (lookup written path),
        record { files = unlink path written; calls = path ∷ h.calls },
      )

  -- The exit code.
  unfoldable pub main : String → Action Host ℕ
  unfolding fetch run_manager
  main id h = elim (fetch id) [ raise e ↦ (ok 2, h) | ok xml ↦ run_manager xml h ]
