-- ===== src/Store/Recovery.antt =====
-- internal/store/workflow_state.go: recoverWorkflowTx, which rebuilds the workflow of a project from
-- the evidence that older data holds.
pub mod Artifacts
pub mod Completed
use vibe_forge.Base.{
  ℕ, Bool, true, false, ◌&&◌, ◌||◌, not, Option, none, some, List, [], ◌∷◌, ◌++◌, Text, ltb, ◌==◌,
  if◌then◌else◌,
}
use vibe_forge.Contract.{Stage, stage_order}
use vibe_forge.Store.Model.{
  Key, Time, Run, RunStatus, Attempt, StageArtifact, Event, EventType, WorkflowStatus,
  WorkflowState, StageStatus, StageRun, Db, Env, database,
}
use vibe_forge.Store.Table.{select_where, sort_by, first_where}
use vibe_forge.Store.Rows.{is_some}
use vibe_forge.Store.Pointer.{run_workflow_status, workflow_of}
use vibe_forge.Store.Stages.{stage_number, is_stage_run}
use vibe_forge.Store.Runs.{is_event_of}
use vibe_forge.Store.Events.{sort_by_seq}
use vibe_forge.Store.Tx.{Tx, pure, query, or_fail, write_if, ◌>>=◌, ◌>>◌}

-- ORDER BY updated_at DESC, created_at DESC: whether `a` goes before `b`.
abbrev pub is_later : Run → Run → Bool
is_later a b =
    ltb b.updated_at a.updated_at
    || (a.updated_at == b.updated_at && not (ltb a.created_at b.created_at))

abbrev later_run : Run → Option Run → Run
later_run a none = a
later_run a (some b) = if is_later a b then a else b

-- The run of the project that was written last.
unfoldable pub latest_run : Key → List Run → Option Run
latest_run project [] = none
latest_run project (r ∷ runs) =
    let more = latest_run project runs in
    if r.project_id == project then some (later_run r more) else more

abbrev higher_attempt : Attempt → Option Attempt → Attempt
higher_attempt a none = a
higher_attempt a (some b) = if ltb a.sequence b.sequence then b else a

-- ORDER BY sequence DESC LIMIT 1
unfoldable pub last_attempt : Key → List Attempt → Option Attempt
last_attempt run [] = none
last_attempt run (a ∷ attempts) =
    let more = last_attempt run attempts in
    if a.run_id == run then some (higher_attempt a more) else more

pub record StageEvidence : Type 0 where
  pub started_at : Option Time
  pub artifact_at : Option Time

-- What the events and the artifacts of a run show of its stages.
pub record Evidence : Type 0 where
  pub of_stage : Stage → StageEvidence
  pub failure_stage : Option Stage
  pub failure_code : Option Text

abbrev pub same_stage : Stage → Stage → Bool
same_stage a b = stage_number a == stage_number b

abbrev pub at_stage : Stage → (StageEvidence → StageEvidence) → Evidence → Evidence
at_stage s f ev = record ev {
  of_stage = λ t. if same_stage s t then f (ev.of_stage t) else ev.of_stage t;
}

-- An event without a stage that is known writes to none of the four.
abbrev start_seen : Option Stage → Time → Evidence → Evidence
start_seen none now ev = ev
start_seen (some s) now ev = at_stage s (λ e. record e { started_at = some now }) ev

abbrev event_seen : EventType → Event → Evidence → Evidence
event_seen EventType.stage_started e ev = start_seen e.payload.stage e.created_at ev
event_seen EventType.run_failed e ev = record ev {
  failure_stage = e.payload.stage;
  failure_code = e.payload.code;
}
event_seen _ e ev = ev

unfoldable pub events_seen : List Event → Evidence → Evidence
events_seen [] ev = ev
events_seen (e ∷ events) ev = events_seen events (event_seen e.type e ev)

unfoldable pub artifacts_seen : List StageArtifact → Evidence → Evidence
artifacts_seen [] ev = ev
artifacts_seen (a ∷ artifacts) ev =
    artifacts_seen artifacts
      (at_stage a.stage (λ e. record e { artifact_at = some a.created_at }) ev)

abbrev pub no_evidence : Evidence
no_evidence = record {
  of_stage = λ s. record { started_at = none; artifact_at = none };
  failure_stage = none;
  failure_code = none;
}

-- The artifacts of the attempt, or of the run where no attempt is known.
abbrev pub is_evidence : Key → Option Key → StageArtifact → Bool
is_evidence run none a = a.run_id == run
is_evidence run (some attempt) a = a.run_id == run && a.attempt_id == attempt

unfoldable pub historical_evidence : Key → Option Key → Db → Evidence
historical_evidence run attempt db =
    artifacts_seen
      (sort_by (λ (a : StageArtifact). a.created_at)
        (select_where (is_evidence run attempt) db.artifacts))
      (events_seen (sort_by_seq (select_where (is_event_of run) db.events)) no_evidence)

abbrev pub shown : StageEvidence → StageStatus
shown ev =
    if is_some ev.artifact_at
    then StageStatus.succeeded
    else (if is_some ev.started_at then StageStatus.running else StageStatus.waiting)

abbrev pub if_succeeded : StageStatus → StageStatus
if_succeeded StageStatus.succeeded = StageStatus.succeeded
if_succeeded _ = StageStatus.recovering

abbrev pub is_failure : Option Stage → Stage → Bool
is_failure none s = false
is_failure (some f) s = same_stage f s

abbrev cancel_running : StageStatus → StageStatus
cancel_running StageStatus.running = StageStatus.cancelled
cancel_running s = s

-- The status of a stage, from what its evidence shows and the status of the run.
unfoldable pub recovered_status : RunStatus → Bool → StageStatus → StageStatus
recovered_status RunStatus.succeeded failure s = if_succeeded s
recovered_status RunStatus.failed failure s = if failure then StageStatus.failed else s
recovered_status RunStatus.interrupted failure s = cancel_running s
recovered_status _ failure s = s

abbrev finish_time : StageStatus → StageEvidence → Run → Option Time
finish_time StageStatus.succeeded ev r = ev.artifact_at
finish_time StageStatus.failed ev r = some r.updated_at
finish_time StageStatus.cancelled ev r = some r.updated_at
finish_time _ ev r = none

abbrev failed_code : StageStatus → Option Text → Option Text
failed_code StageStatus.failed code = code
failed_code _ code = none

abbrev pub attempt_id : Option Attempt → Option Key
attempt_id none = none
attempt_id (some a) = some a.id

abbrev attempt_sequence : Option Attempt → ℕ
attempt_sequence none = 0
attempt_sequence (some a) = a.sequence

abbrev pub recovered_row : Run → Option Attempt → Evidence → Stage → StageRun
recovered_row r a ev s =
    let e = ev.of_stage s in
    let status = recovered_status r.status (is_failure ev.failure_stage s) (shown e) in
    record {
      workflow_run_id = r.id;
      attempt = attempt_sequence a;
      attempt_id = attempt_id a;
      stage_key = s;
      status = status;
      started_at = e.started_at;
      finished_at = finish_time status e r;
      updated_at = r.updated_at;
      error_code = failed_code status ev.failure_code;
    }

-- INSERT INTO workflow_stage_runs, under its primary key.
unfoldable pub insert_stage_run : StageRun → Tx (Unit {0})
insert_stage_run s =
    write_if
      (λ db. not (
        is_some (first_where (is_stage_run s.workflow_run_id s.attempt s.stage_key) db.stage_runs)))
      (λ db. record db { stage_runs = db.stage_runs ++ s ∷ [] })

unfoldable pub insert_workflow : WorkflowState → Tx (Unit {0})
insert_workflow w =
    write_if (λ db. not (is_some (workflow_of db w.project_id)))
      (λ db. record db { workflows = db.workflows ++ w ∷ [] })

abbrev pub is_recovering : StageStatus → Bool
is_recovering StageStatus.recovering = true
is_recovering _ = false

-- The rows of the stages; whether one of them recovers.
unfoldable pub backfill_stages : Run → Option Attempt → Evidence → List Stage → Tx Bool
backfill_stages r a ev [] = pure false
backfill_stages r a ev (s ∷ stages) = do
  let row = recovered_row r a ev s
  insert_stage_run row
  more ← backfill_stages r a ev stages
  pure (is_recovering row.status || more)

abbrev pub load_project_workflow : Key → Tx WorkflowState
load_project_workflow project = do
  found ← query λ db. workflow_of db project
  or_fail database found

abbrev no_run_status : Option Key → WorkflowStatus
no_run_status none = WorkflowStatus.draft
no_run_status (some v) = WorkflowStatus.recovering

abbrev pub first_state : Env → Key → Option Key → WorkflowStatus → WorkflowState
first_state env project run status = record {
  project_id = project;
  workflow_run_id = run;
  status = status;
  state_version = 1;
  updated_at = env.now;
}

unfoldable pub recover_run : Env → Key → Run → Tx WorkflowState
recover_run env project r = do
  a ← query λ db. last_attempt r.id db.attempts
  ev ← query (historical_evidence r.id (attempt_id a))
  recovers ← backfill_stages r a ev stage_order
  insert_workflow (
      first_state env project (some r.id)
        (if recovers then WorkflowStatus.recovering else run_workflow_status r.status))
  load_project_workflow project

abbrev pub recover_latest : Env → Key → Option Key → Option Run → Tx WorkflowState
recover_latest env project stable none = do
  insert_workflow (first_state env project none (no_run_status stable))
  load_project_workflow project
recover_latest env project stable (some r) = recover_run env project r

unfoldable pub recover_workflow : Env → Key → Option Key → Tx WorkflowState
recover_workflow env project stable = do
  latest ← query λ db. latest_run project db.runs
  recover_latest env project stable latest
