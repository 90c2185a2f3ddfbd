-- ===== src/Store/Versions.antt =====
-- internal/store/version.go: the atomic success transaction, failed versions, and restoring.
pub mod Swap
pub mod Restoring
pub mod Success
pub mod Failing
use vibe_forge.Base.{ℕ, Bool, ◌&&◌, not, Option, none, some, List, [], ◌∷◌, Text, codes, ◌==◌}
use vibe_forge.Contract.{not_found, conflict}
use vibe_forge.Store.Model.{
  Key, Time, Run, RunStatus, Iteration, Kind, Version, VersionStatus, FileSnapshot, WorkflowStatus,
  Body, Endpoint, Env, Error, no_details, coded, database, is_stable,
}
use vibe_forge.Store.Table.{first_where}
use vibe_forge.Store.Rows.{
  project_of, iteration_of, version_of, is_some, insert_iteration, set_iteration_result,
  insert_version, insert_files, update_run, update_attempts, cas_stable,
}
use vibe_forge.Store.Pointer.{bump_workflow_for_run}
use vibe_forge.Store.Runs.{refuse_active}
use vibe_forge.Store.Hash.{files_hash}
use vibe_forge.Store.Ledger.{run_idempotent, IdempotentResult}
use vibe_forge.Store.Tx.{Tx, pure, query, or_fail, fail, fail_if, ◌>>=◌, ◌>>◌}

-- The points of failPoint, at which the tests break off the transaction.
pub data FailPoint : Type 0 where
  fail_none fail_after_version_insert fail_after_files_insert fail_after_iteration_update :
      FailPoint

pub record CommitInput : Type 0 where
  pub project_id : Key
  pub iteration_id : Key
  pub run_id : Option Key
  pub attempt_id : Option Key
  pub files : List FileSnapshot

abbrev pub iteration_missing : Error
iteration_missing = coded not_found (codes "iteration not found") no_details

abbrev pub project_missing : Error
project_missing = coded not_found (codes "project not found") no_details

abbrev pub base_moved : Error
base_moved = coded conflict (codes "baseVersionId no longer matches stable version") no_details

unfoldable pub fetch_version : Key → Tx Version
fetch_version id = do
  found ← query λ db. version_of db id
  or_fail (coded not_found (codes "version not found") no_details) found

abbrev pub new_version : Env → Key → Key → VersionStatus → Option Text → Version
new_version env project iteration status hash = record {
  id = env.new_id 0;
  project_id = project;
  iteration_id = iteration;
  status = status;
  files_hash = hash;
  created_at = env.now;
}

abbrev pub end_run : RunStatus → Time → Run → Run
end_run status now r = record r { status = status; active_attempt_id = none; updated_at = now }

abbrev set_run : RunStatus → Time → Option Key → Tx (Unit {0})
set_run status now none = pure tt
set_run status now (some run) = update_run run (end_run status now)

abbrev set_attempt : RunStatus → Option Key → Tx (Unit {0})
set_attempt status none = pure tt
set_attempt status (some attempt) =
    update_attempts (λ a. a.id == attempt) (λ a. record a { status = status })

abbrev bump_run : WorkflowStatus → Time → Option Key → Tx (Unit {0})
bump_run status now none = pure tt
bump_run status now (some run) = bump_workflow_for_run run status now

-- The last writes of the four transactions that settle a version: the run, its attempt and the
-- workflow, each where an identifier is given.
unfoldable pub settle_run :
    RunStatus → WorkflowStatus → Time → Option Key → Option Key → Tx (Unit {0})
settle_run status workflow now run attempt = do
  set_run status now run
  set_attempt status attempt
  bump_run workflow now run

abbrev pub break_at : FailPoint → FailPoint → Tx (Unit {0})
break_at fail_after_version_insert fail_after_version_insert = fail database
break_at fail_after_files_insert fail_after_files_insert = fail database
break_at fail_after_iteration_update fail_after_iteration_update = fail database
break_at _ _ = pure tt

-- A new version that becomes the stable one.
unfoldable pub commit_new_version : Env → CommitInput → Option Key → FailPoint → Tx Version
commit_new_version env input base point = do
  exists ← query λ db. is_some (project_of db input.project_id)
  fail_if (not exists) project_missing
  let v : Version =
      new_version env input.project_id input.iteration_id VersionStatus.stable
        (some (files_hash env input.files))
  insert_version v
  break_at point fail_after_version_insert
  insert_files env 1 v.id input.files
  break_at point fail_after_files_insert
  set_iteration_result v.id input.iteration_id
  break_at point fail_after_iteration_update
  swapped ← cas_stable env.now input.project_id base v.id
  fail_if (not swapped) base_moved
  settle_run RunStatus.succeeded WorkflowStatus.completed env.now input.run_id input.attempt_id
  pure v

-- An iteration that has its version already replays it.
abbrev pub replay_or : Option Key → Tx Version → Tx Version
replay_or none fresh = fresh
replay_or (some version) fresh = fetch_version version

unfoldable pub commit_version_steps : Env → CommitInput → FailPoint → Tx Version
commit_version_steps env input point = do
  found ← query λ db. iteration_of db input.iteration_id
  i ← or_fail iteration_missing found
  replay_or i.result_version_id (commit_new_version env input i.base_version_id point)

unfoldable pub commit_version : Env → CommitInput → Tx Version
commit_version env input = commit_version_steps env input fail_none

abbrev history_hash : Env → List FileSnapshot → Option Text
history_hash env [] = none
history_hash env (f ∷ files) = some (files_hash env (f ∷ files))

-- A version that is recorded as failed; the project's stable version is not written.
unfoldable pub fail_new_version : Env → CommitInput → Tx Version
fail_new_version env input = do
  let v : Version =
      new_version env input.project_id input.iteration_id VersionStatus.failed
        (history_hash env input.files)
  insert_version v
  insert_files env 1 v.id input.files
  set_iteration_result v.id input.iteration_id
  settle_run RunStatus.failed WorkflowStatus.failed env.now input.run_id input.attempt_id
  pure v

unfoldable pub fail_version : Env → CommitInput → Tx Version
fail_version env input = do
  found ← query λ db. iteration_of db input.iteration_id
  i ← or_fail iteration_missing found
  replay_or i.result_version_id (fail_new_version env input)

abbrev pub is_version_of : Key → Key → Version → Bool
is_version_of project version v = v.id == version && v.project_id == project

abbrev restore_iteration : Env → Key → Key → Option Key → Iteration
restore_iteration env project version stable = record {
  id = env.new_id 0;
  project_id = project;
  run_id = none;
  kind = Kind.restore;
  base_version_id = stable;
  result_version_id = some version;
  prompt = none;
  created_at = env.now;
}

unfoldable pub restore_version_body : Env → Key → Key → Tx (ℕ × Body)
restore_version_body env project version = do
  found ← query λ db. first_where (is_version_of project version) db.versions
  v ← or_fail (coded not_found (codes "version not found") no_details) found
  fail_if (not (is_stable v.status))
      (coded conflict (codes "only stable versions can be restored") no_details)
  refuse_active (codes "project has an active run") project
  owner ← query λ db. project_of db project
  p ← or_fail project_missing owner
  let i : Iteration = restore_iteration env project version p.stable_version_id
  insert_iteration i
  swapped ← cas_stable env.now project p.stable_version_id version
  fail_if (not swapped) (coded conflict (codes "stable version changed during restore") no_details)
  pure (202, Body.iteration_body i)

unfoldable pub restore_version : Env → Key → Key → ℕ → Tx IdempotentResult
restore_version env project version key =
    run_idempotent env Endpoint.restore_version key (restore_version_body env project version)
