-- ===== src/Store/Tests/Snapshot.antt =====
-- internal/store: instances of the theorems on the snapshot of a workflow and its recovery.
use vibe_forge.Base.{◌≡◌, ◌↔◌, refl, Option, none, some, List, [], codes}
use vibe_forge.Contract.{Stage}
use vibe_forge.Store.Model.{Attempt, Run, RunStatus, WorkflowStatus, WorkflowState, StageRun, Db}
use vibe_forge.Store.Pointer.{workflow_of}
use vibe_forge.Store.Operation.{Operation, perform}
use vibe_forge.Store.Provenance.{preview_workflow_run}
use vibe_forge.Store.Provenance.Lineage.{Lineage}
use vibe_forge.Store.Recovery.{attempt_id, recover_run}
use vibe_forge.Store.Recovery.Artifacts.{Latest, LeftArtifact}
use vibe_forge.Store.Recovery.Completed.{recover_run-completed}
use vibe_forge.Store.Reconcile.{reconcile_consistency}
use vibe_forge.Store.Snapshot.{load_latest_stages}
use vibe_forge.Store.Tx.{ok, in_tx}
use vibe_forge.Store.Scenario.{env_at, committed, store_code}

preview_is_200 : preview_workflow_run (some 300) committed ≡ some 200
unfolding store_code
preview_is_200 = refl

-- The tables of an older release: no workflow is kept.
abbrev legacy : Db
legacy = record committed { workflows = []; stage_runs = [] }

abbrev viewed : Db
viewed = perform (env_at 500) (Operation.get_project 100) legacy

abbrev recovering_state : WorkflowState
recovering_state = record {
  project_id = 100;
  workflow_run_id = some 200;
  status = WorkflowStatus.recovering;
  state_version = 1;
  updated_at = 500;
}

viewed_workflow : workflow_of viewed 100 ≡ some recovering_state
unfolding store_code
viewed_workflow = refl

abbrev finished : Run
finished = record {
  id = 200;
  project_id = 100;
  status = RunStatus.succeeded;
  prompt = codes "a counter";
  base_version_id = none;
  active_attempt_id = none;
  created_at = 200;
  updated_at = 300;
}

abbrev recovered : Db
recovered = (in_tx (recover_run (env_at 500) 100 finished) legacy).1

run_recovered : recover_run (env_at 500) 100 finished legacy ≡ ok (recovering_state, recovered)
unfolding store_code
run_recovered = refl

recover_run-completed_example :
    (last : Option Attempt) × Latest 200 legacy.attempts last
    × ((recovering_state.status ≡ WorkflowStatus.completed)
        ↔ ((s : Stage) → LeftArtifact 200 (attempt_id last) legacy s))
recover_run-completed_example =
    recover_run-completed (env_at 500) 100 finished legacy recovered recovering_state refl
      run_recovered

abbrev stages : List StageRun
stages = load_latest_stages (some 200) recovered

abbrev compared : Db
compared =
    (in_tx (reconcile_consistency (env_at 600) 100 (some 300) recovering_state stages (some 200))
      recovered).1
