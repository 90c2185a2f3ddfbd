-- ===== src/Store/Runs/OneActive.antt =====
-- One active run for a project (internal/store/run.go and the index idx_runs_one_active).
use vibe_forge.Base.{◌≡◌, Bool, Option, none, some, Text}
use vibe_forge.Store.Model.{Key, Run, Db, Env}
use vibe_forge.Store.Runs.{
  active_run_of, refuse_found, refuse_active, create_run_checks, create_run_body,
}
use vibe_forge.Store.Versions.{restore_version_body}
use vibe_forge.Store.Files.{write_file_checks, write_file_body}
use vibe_forge.Store.Tx.{Tx, in_tx, ◌>>=◌}
use vibe_forge.Store.Tx.Keeps.{Keeps-query, Keeps-or_fail, Keeps-fail_if}
use vibe_forge.Store.Tx.Triple.{Triple, after, after_keeps, after_query, in_tx-refused, on_fail}

Busy : Key → Run → Db → Type 0
Busy project r db = active_run_of project db ≡ some r

none_not_some : (r : Run) → ◌≡◌ {A = Option Run} none (some r) → ⊥
none_not_some r e = cc

refuse_found-never :
    (P : Db → Type 0) (msg : Text) (o : Option Run) (r : Run)
    → ((db : Db) → P db → o ≡ some r)
    → Triple P (refuse_found msg o) (λ _ _. ⊥)
refuse_found-never P msg none r h = record { at = λ db p u db' e. none_not_some r (h db p) }
refuse_found-never P msg (some q) r h = on_fail _

refuse_active-never :
    (project : Key) (r : Run) (msg : Text)
    → Triple (Busy project r) (refuse_active msg project) (λ _ _. ⊥)
unfolding refuse_active Busy
refuse_active-never project r msg =
    after_query _ _ λ found. refuse_found-never _ msg found r λ db h. cc

-- The checks before that of an active run write nothing.
module _ (project : Key) (r : Run) where
  then_never :
      {A B : Type 0} (m : Tx A) (f : A → Tx B)
      → Triple (Busy project r) m (λ _ _. ⊥)
      → Triple (Busy project r) (m >>= f) (λ _ _. ⊥)
  then_never m f t = after m f t λ a. record { at = λ db h b db' e. absurd h }

  create_run_checks-never :
      (prompt : Text) (base : Option Key)
      → Triple (Busy project r) (create_run_checks project prompt base) (λ _ _. ⊥)
  unfolding create_run_checks
  create_run_checks-never prompt base = after_keeps _ _ (Keeps-fail_if _ _) λ _.
      after_keeps _ _ (Keeps-query _) λ found. after_keeps _ _ (Keeps-or_fail _ found) λ p.
        after_keeps _ _ (Keeps-fail_if _ _) λ _. then_never _ _ (refuse_active-never project r _)

  write_file_checks-never :
      (content : Text) (base : Option Key)
      → Triple (Busy project r) (write_file_checks project content base) (λ _ _. ⊥)
  unfolding write_file_checks
  write_file_checks-never content base = after_keeps _ _ (Keeps-fail_if _ _) λ _.
      after_keeps _ _ (Keeps-query _) λ found.
        after_keeps _ _ (Keeps-or_fail _ found)
          λ p. then_never _ _ (refuse_active-never project r _)

  create_run_body-never :
      (env : Env) (prompt : Text) (base : Option Key) (can_start : Bool)
      → Triple (Busy project r) (create_run_body env project prompt base can_start) (λ _ _. ⊥)
  unfolding create_run_body
  create_run_body-never env prompt base can_start = then_never _ _ (create_run_checks-never _ base)

  write_file_body-never :
      (env : Env) (content : Text) (base : Option Key)
      → Triple (Busy project r) (write_file_body env project content base) (λ _ _. ⊥)
  unfolding write_file_body
  write_file_body-never env content base = then_never _ _ (write_file_checks-never content base)

  restore_version_body-never :
      (env : Env) (version : Key)
      → Triple (Busy project r) (restore_version_body env project version) (λ _ _. ⊥)
  unfolding restore_version_body
  restore_version_body-never env version = after_keeps _ _ (Keeps-query _) λ found.
      after_keeps _ _ (Keeps-or_fail _ found) λ v.
        after_keeps _ _ (Keeps-fail_if _ _) λ _. then_never _ _ (refuse_active-never project r _)

-- While a project has a queued or running run, the handlers' bodies that create a run, edit a file
-- and restore a version of that project are refused: each transaction leaves the tables as they
-- were.
pub busy_project-refuses :
    (env : Env) (project version : Key) (prompt content : Text) (base : Option Key)
    (can_start : Bool) (r : Run) (db : Db)
    → active_run_of project db ≡ some r
    → ((in_tx (create_run_body env project prompt base can_start) db).1 ≡ db)
      × ((in_tx (write_file_body env project content base) db).1 ≡ db)
      × ((in_tx (restore_version_body env project version) db).1 ≡ db)
unfolding Busy
busy_project-refuses env project version prompt content base can_start r db h = (
  in_tx-refused _ (create_run_body-never project r env prompt base can_start) db h,
  in_tx-refused _ (write_file_body-never project r env content base) db h,
  in_tx-refused _ (restore_version_body-never project r env version) db h,
)
