-- ===== src/Store/Drafts.antt =====
-- internal/store/draft.go: the version that the agent loop writes first as a draft, and the
-- attempts of its run.
pub mod Promotion
pub mod Settling
pub mod Rows
use vibe_forge.Base.{
  ℕ, Bool, true, false, ◌&&◌, not, Option, none, some, List, codes, ◌==◌, if◌then◌else◌,
}
use vibe_forge.Contract.{not_found}
use vibe_forge.Store.Model.{
  Key, Run, RunStatus, Attempt, Iteration, Version, VersionStatus, FileSnapshot, WorkflowStatus,
  Env, Error, no_details, coded, database, is_active, is_draft,
}
use vibe_forge.Store.Table.{first_where}
use vibe_forge.Store.Rows.{
  project_of, run_of, attempt_of, iteration_of, version_of, is_some, opt_is, insert_version,
  insert_files, set_version_status, set_iteration_result, update_run, update_attempts, cas_stable,
}
use vibe_forge.Store.Pointer.{bump_workflow_for_run}
use vibe_forge.Store.Runs.{start_attempt}
use vibe_forge.Store.Hash.{files_hash}
use vibe_forge.Store.Versions.{new_version, iteration_missing, base_moved, end_run, settle_run}
use vibe_forge.Store.Tx.{Tx, pure, query, or_fail, fail, fail_if, ◌>>=◌, ◌>>◌}

unfoldable pub create_draft_version : Env → Key → Key → List FileSnapshot → Tx Version
create_draft_version env project iteration files = do
  exists ← query λ db. is_some (iteration_of db iteration)
  fail_if (not exists) iteration_missing
  let v : Version =
      new_version env project iteration VersionStatus.draft (some (files_hash env files))
  insert_version v
  insert_files env 1 v.id files
  pure v

abbrev pub draft_missing : Error
draft_missing = coded not_found (codes "draft version not found") no_details

unfoldable pub find_draft : Key → Tx Version
find_draft draft = do found ← query λ db. version_of db draft; or_fail draft_missing found

-- The writes of the promotion; the swap is based on the iteration's base.
unfoldable pub promote_from : Env → Version → Option Key → Option Key → Option Key → Tx Version
promote_from env v base run attempt = do
  set_version_status VersionStatus.stable v.id
  set_iteration_result v.id v.iteration_id
  swapped ← cas_stable env.now v.project_id base v.id
  fail_if (not swapped) base_moved
  settle_run RunStatus.succeeded WorkflowStatus.completed env.now run attempt
  pure (record v { status = VersionStatus.stable })

-- The promotion of a version that is still a draft.
unfoldable pub promote : Env → Version → Option Key → Option Key → Tx Version
promote env v run attempt = do
  found ← query λ db. iteration_of db v.iteration_id
  i ← or_fail iteration_missing found
  promote_from env v i.base_version_id run attempt

-- A draft that is promoted or failed already is returned as it is.
unfoldable pub promote_draft_version : Env → Key → Option Key → Option Key → Tx Version
promote_draft_version env draft run attempt = do
  v ← find_draft draft
  if is_draft v.status then promote env v run attempt else pure v

unfoldable pub fail_draft : Env → Version → Option Key → Option Key → Tx Version
fail_draft env v run attempt = do
  set_version_status VersionStatus.failed v.id
  set_iteration_result v.id v.iteration_id
  settle_run RunStatus.failed WorkflowStatus.failed env.now run attempt
  pure (record v { status = VersionStatus.failed })

unfoldable pub fail_draft_version : Env → Key → Option Key → Option Key → Tx Version
fail_draft_version env draft run attempt = do
  v ← find_draft draft
  if is_draft v.status then fail_draft env v run attempt else pure v

abbrev is_queued : RunStatus → Bool
is_queued RunStatus.queued = true
is_queued _ = false

unfoldable pub begin_attempt : Env → Key → Key → Tx (Unit {0})
begin_attempt env run attempt = do
  update_attempts (λ a. a.id == attempt && is_queued a.status)
      (λ a. record a { status = RunStatus.running })
  update_run run (λ r. record r { status = RunStatus.running; updated_at = env.now })
  bump_workflow_for_run run WorkflowStatus.running env.now

unfoldable pub fail_run : Env → Key → Tx (Unit {0})
fail_run env run = do
  update_attempts (λ a. a.run_id == run && is_active a.status)
      (λ a. record a { status = RunStatus.failed })
  update_run run (end_run RunStatus.failed env.now)
  bump_workflow_for_run run WorkflowStatus.failed env.now

abbrev pub run_missing : Error
run_missing = coded not_found (codes "run not found") no_details

unfoldable pub new_attempt : Env → Key → ℕ → Tx Attempt
new_attempt env run round = do
  exists ← query λ db. is_some (run_of db run)
  fail_if (not exists) run_missing
  start_attempt env run round

unfoldable pub get_run : Key → Tx Run
get_run run = do found ← query λ db. run_of db run; or_fail run_missing found

abbrev attempt_missing : Error
attempt_missing = coded not_found (codes "attempt not found") no_details

unfoldable pub get_attempt : Key → Tx Attempt
get_attempt attempt = do found ← query λ db. attempt_of db attempt; or_fail attempt_missing found

-- A NULL cannot be scanned into the string.
abbrev pub active_id : Option Key → Tx Key
active_id none = fail database
active_id (some attempt) = pure attempt

unfoldable pub get_active_attempt : Key → Tx Attempt
get_active_attempt run = do
  found ← query λ db. run_of db run
  r ← or_fail run_missing found
  attempt ← active_id r.active_attempt_id
  get_attempt attempt

abbrev is_sequence : Key → ℕ → Attempt → Bool
is_sequence run sequence a = a.run_id == run && a.sequence == sequence

unfoldable pub get_attempt_by_sequence : Key → ℕ → Tx Attempt
get_attempt_by_sequence run sequence = do
  found ← query λ db. first_where (is_sequence run sequence) db.attempts
  or_fail attempt_missing found

-- ORDER BY created_at LIMIT 1; a run has one iteration.
unfoldable pub get_run_iteration : Key → Tx Iteration
get_run_iteration run = do
  found ← query λ db. first_where (λ (i : Iteration). opt_is i.run_id run) db.iterations
  or_fail (coded not_found (codes "iteration not found for run") no_details) found

unfoldable pub get_project_stable : Key → Tx (Option Key)
get_project_stable project = do
  found ← query λ db. project_of db project
  p ← or_fail (coded not_found (codes "project not found") no_details) found
  pure p.stable_version_id
