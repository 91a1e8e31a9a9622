-- ===== src/Repository/Dispatch/Runs.antt =====
-- From a save to the run of the saved task.
use ss_prep.Base.{
  ℕ, ◌≡◌, refl, ◌∙◌, ap, String, true, false, some, [], ◌∷◌, Dict, lookup, insert, lookup-insert,
  has_key, eq_refl, arith, ok, raise, Result,
}
use ss_prep.Repository.{Files, Tools, SaveRequest, load}
use ss_prep.Repository.Node.{Git, Store, save_cb}
use ss_prep.Repository.Laws.{load_saved}
use ss_prep.Repository.Dispatch.{Outside, Host, unlink, fetch, run_manager, main}

-- A file that was not there is gone again after it was written and removed.
unlink_missing :
    (path : String) (files : Dict String) → has_key files path ≡ false → unlink path files ≡ files
unfolding unlink lookup
unlink_missing path [] h = refl
unlink_missing path ((p, text) ∷ files) h = ground (arith, unlink_missing path files)

unlink-insert :
    (path text : String) (files : Dict String)
    → has_key files path ≡ false
    → unlink path (insert path text files) ≡ files
unfolding unlink insert lookup
unlink-insert path text [] h = ground (arith, eq_refl path)
unlink-insert path text ((p, other) ∷ files) h = ground (arith, unlink-insert path text files)

ran :
    (o : Outside) (t : Tools) (f : Files) (xml : String) (h : Host)
    → has_key h.files (o.fresh h.files) ≡ false
    → run_manager o t f xml h
      ≡ (o.call (o.fresh h.files) (some xml), record h { calls = o.fresh h.files ∷ h.calls })
unfolding run_manager
ran o t f xml h free =
    let there : lookup (insert (o.fresh h.files) xml h.files) (o.fresh h.files) ≡ some xml =
      ground (
        arith,
        lookup-insert (o.fresh h.files) (o.fresh h.files) xml h.files,
        eq_refl (o.fresh h.files),
      ) in
    rw (there, unlink-insert (o.fresh h.files) xml h.files free) refl

main_found :
    (o : Outside) (t : Tools) (stored : Files) (id xml : String) (h : Host)
    → o.service_up ≡ true
    → o.answers ≡ true
    → load t stored id ≡ some xml
    → main o t stored id h ≡ run_manager o t stored xml h
unfolding main fetch
main_found o t stored id xml h up answers loaded =
    let fetched : fetch o t stored id ≡ ok xml = ground arith in
    ap
      (λ r. (elim r as (λ _. Result ℕ × Host) [
        | raise e ↦ (ok 2, h)
        | ok x ↦ run_manager o t stored x h
      ]))
      fetched

-- A task that was saved, with the service up and answering in time: the command calls the manager once,
-- on a file that holds what reading the saved text gives, and gives its exit code or raises what the
-- call raises; no temporary file is left. A task that cannot be fetched makes it exit with code 2, with
-- nothing called and nothing written.
pub main-save :
    (o : Outside) (g : Git) (t : Tools) (r : SaveRequest) (s : Store) (h : Host)
    → (save_cb g t r s).0.success ≡ true
    → has_key h.files (o.fresh h.files) ≡ false
    → (o.service_up ≡ true
        → o.answers ≡ true
        → main o t (save_cb g t r s).1.files r.task_id h ≡ (
          o.call (o.fresh h.files) (some (t.read r.xml_content)),
          record h { calls = o.fresh h.files ∷ h.calls },
        ))
      × (o.service_up ≡ false → main o t (save_cb g t r s).1.files r.task_id h ≡ (ok 2, h))
      × (o.answers ≡ false → main o t (save_cb g t r s).1.files r.task_id h ≡ (ok 2, h))
unfolding main fetch run_manager
main-save o g t r s h saved free = (
  λ up answers.
      let loaded : load t (save_cb g t r s).1.files r.task_id ≡ some (t.read r.xml_content) =
        load_saved g t r s saved in
      main_found o t (save_cb g t r s).1.files r.task_id (t.read r.xml_content) h up answers loaded
      ∙ ran o t (save_cb g t r s).1.files (t.read r.xml_content) h free,
  λ down. rw (down) refl,
  λ late. ground arith,
)
