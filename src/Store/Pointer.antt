-- ===== src/Store/Pointer.antt =====
-- internal/store/workflow_state.go: the pointer of a project to its latest workflow, and its
-- version. The writes run in the transaction of the run, version or event that they belong to.
use vibe_forge.Base.{◌+◌, Bool, Option, none, some, [], ◌∷◌, ◌++◌, ltb, if◌then◌else◌}
use vibe_forge.Store.Model.{Key, Time, Run, RunStatus, WorkflowStatus, WorkflowState, Db, database}
use vibe_forge.Store.Table.{by_key, update_key, update_where, count_where}
use vibe_forge.Store.Rows.{opt_is, run_of, is_some}
use vibe_forge.Store.Tx.{Tx, pure, query, modify, or_fail, ◌>>=◌, ◌>>◌}

unfoldable pub run_workflow_status : RunStatus → WorkflowStatus
run_workflow_status RunStatus.queued = WorkflowStatus.running
run_workflow_status RunStatus.running = WorkflowStatus.running
run_workflow_status RunStatus.succeeded = WorkflowStatus.completed
run_workflow_status RunStatus.failed = WorkflowStatus.failed
run_workflow_status RunStatus.interrupted = WorkflowStatus.cancelled

abbrev pub workflow_of : Db → Key → Option WorkflowState
workflow_of db project = by_key (λ (w : WorkflowState). w.project_id) project db.workflows

abbrev init_row : Key → Time → WorkflowState
init_row project now = record {
  project_id = project;
  workflow_run_id = none;
  status = WorkflowStatus.draft;
  state_version = 1;
  updated_at = now;
}

-- INSERT … ON CONFLICT DO NOTHING
unfoldable pub init_project_workflow : Key → Time → Tx (Unit {0})
init_project_workflow project now = modify λ db. record db {
  workflows =
      if is_some (workflow_of db project)
      then db.workflows
      else db.workflows ++ init_row project now ∷ [];
}

abbrev advanced : Key → WorkflowStatus → Time → WorkflowState → WorkflowState
advanced run status now w = record w {
  workflow_run_id = some run;
  status = status;
  state_version = w.state_version + 1;
  updated_at = now;
}

-- INSERT … ON CONFLICT(project_id) DO UPDATE
unfoldable pub point_project_workflow : Key → Key → WorkflowStatus → Time → Tx (Unit {0})
point_project_workflow project run status now = modify λ db. record db {
  workflows =
      if is_some (workflow_of db project)
      then update_key (λ (w : WorkflowState). w.project_id) project (advanced run status now)
          db.workflows
      else db.workflows
        ++ record {
          project_id = project;
          workflow_run_id = some run;
          status = status;
          state_version = 1;
          updated_at = now;
        }
          ∷ [];
}

abbrev pub follows : Key → WorkflowState → Bool
follows run w = opt_is w.workflow_run_id run

abbrev bumped : WorkflowStatus → Time → WorkflowState → WorkflowState
bumped status now w = record w {
  status = status;
  state_version = w.state_version + 1;
  updated_at = now;
}

-- A run that no pointer follows: it becomes the project's latest if the project has no row, and a
-- late write of an older run changes nothing.
abbrev point_unless_known : Key → Run → WorkflowStatus → Time → Tx (Unit {0})
point_unless_known run r status now = do
  known ← query λ db. is_some (workflow_of db r.project_id)
  if known then pure tt else point_project_workflow r.project_id run status now

-- UPDATE project_workflow_states SET … WHERE workflow_run_id = ?
unfoldable pub bump_followers : Key → WorkflowStatus → Time → Tx (Unit {0})
bump_followers run status now =
    modify
      λ db. record db { workflows = update_where (follows run) (bumped status now) db.workflows }

unfoldable pub bump_workflow_for_run : Key → WorkflowStatus → Time → Tx (Unit {0})
bump_workflow_for_run run status now = do
  affected ← query λ db. count_where (follows run) db.workflows
  bump_followers run status now
  if ltb 0 affected then pure tt else do
    found ← query λ db. run_of db run
    r ← or_fail database found
    point_unless_known run r status now

unfoldable pub bump_project_workflow_snapshot : Key → Time → Tx (Unit {0})
bump_project_workflow_snapshot project now = modify λ db. record db {
  workflows =
      update_key (λ (w : WorkflowState). w.project_id) project
        (λ w. record w { state_version = w.state_version + 1; updated_at = now }) db.workflows;
}
