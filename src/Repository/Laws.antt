-- ===== src/Repository/Laws.antt =====
-- What a save promises.
use ss_prep.Base.{
  String, ◌≡◌, refl, ◌⊎◌, inl, inr, true, false, ◌&&◌, Bool-cases, some, List, [], ◌∷◌, ◌++◌, ◌||◌,
  ◌==◌, arith, if◌then◌else◌, contains, lookup-insert, eq_refl,
}
use ss_prep.Repository.{Files, Tools, SaveRequest, is_safe, is_spec, load_path, load, write}
use ss_prep.Repository.Node.History.{both_succeed}
use ss_prep.Repository.Node.{Git, Store, store, stored_response, run_git, load_cb, save_cb}

pub contains-append :
    (xs ys : List String) (k : String) → contains (xs ++ ys) k ≡ (contains xs k || contains ys k)
contains-append [] ys k = refl
contains-append (x ∷ xs) ys k = ground (arith, contains-append xs ys k)

pub load_path-write :
    (f : Files) (id content k : String)
    → load_path (write id content f) k ≡ (if id == k then some content else load_path f k)
unfolding load_path write
load_path-write f id content k = ground (arith, lookup-insert id k content f.json_files)

-- A save that succeeds has written the text, under a safe id.
pub saved_files :
    (g : Git) (t : Tools) (r : SaveRequest) (s : Store)
    → (save_cb g t r s).0.success ≡ true
    → ((save_cb g t r s).1.files ≡ write r.task_id r.xml_content s.files)
      × (is_safe r.task_id ≡ true)
unfolding save_cb store stored_response run_git
saved_files g t r s h = elim (Bool-cases (is_safe r.task_id)) [
  | inl safe ↦ (ground arith, safe)
  | inr unsafe ↦ absurd (ground arith)
]

-- After a save that succeeds, the id loads what reading the saved text gives.
pub load_saved :
    (g : Git) (t : Tools) (r : SaveRequest) (s : Store)
    → (save_cb g t r s).0.success ≡ true
    → load t (save_cb g t r s).1.files r.task_id ≡ some (t.read r.xml_content)
unfolding load
load_saved g t r s h =
    let (files, safe) = saved_files g t r s h in
    rw (files, safe)
      (ground (arith, load_path-write s.files r.task_id r.xml_content r.task_id, eq_refl r.task_id))

-- A save that fails has changed nothing, neither the files nor git's history; or git has failed: then the
-- text is stored and `load_task` answers it with success, though the response says that the save failed.
pub failed_save :
    (g : Git) (t : Tools) (r : SaveRequest) (s : Store)
    → (save_cb g t r s).0.success ≡ false
    → ((save_cb g t r s).1 ≡ s)
      ⊎ ((both_succeed g r s.calls ≡ false)
          × (load_cb g t r.task_id (save_cb g t r s).1
              ≡ record { success = true; xml_content = t.read r.xml_content; message = "ok" }))
unfolding save_cb is_spec store stored_response run_git both_succeed load_cb
failed_save g t r s h = elim (Bool-cases (is_spec t r.xml_content && is_safe r.task_id)) [
  | inr refused ↦ inl (ground arith)
  | inl taken ↦ inr (
    ground arith,
    ground (arith, load_path-write s.files r.task_id r.xml_content r.task_id, eq_refl r.task_id),
  )
]
