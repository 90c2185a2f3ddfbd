-- ===== src/Store/Stages.antt =====
-- internal/store/workflow_state.go: the rows of the stages of a run's attempts, and what an event
-- writes to them.
use vibe_forge.Base.{
  ℕ, Bool, true, false, ◌&&◌, Option, none, some, List, [], ◌∷◌, ◌++◌, Text, leb, ◌==◌,
  if◌then◌else◌,
}
use vibe_forge.Contract.{Stage, pm, architect, engineer, qa, stage_order}
use vibe_forge.Store.Model.{
  Key, Time, Attempt, WorkflowStatus, StageStatus, StageRun, EventType, Payload, is_active,
  database,
}
use vibe_forge.Store.Table.{update_where, first_where}
use vibe_forge.Store.Rows.{is_some}
use vibe_forge.Store.Pointer.{bump_workflow_for_run}
use vibe_forge.Store.Tx.{Tx, pure, query, modify, or_fail, ◌>>=◌, ◌>>◌}

abbrev pub stage_number : Stage → ℕ
stage_number pm = 1
stage_number architect = 2
stage_number engineer = 3
stage_number qa = 4

-- The primary key of workflow_stage_runs.
abbrev pub is_stage_run : Key → ℕ → Stage → StageRun → Bool
is_stage_run run attempt stage s =
    s.workflow_run_id == run
    && s.attempt == attempt
    && stage_number s.stage_key == stage_number stage

abbrev waiting_row : Key → Key → ℕ → Time → Stage → StageRun
waiting_row run attempt_id attempt now stage = record {
  workflow_run_id = run;
  attempt = attempt;
  attempt_id = some attempt_id;
  stage_key = stage;
  status = StageStatus.waiting;
  started_at = none;
  finished_at = none;
  updated_at = now;
  error_code = none;
}

-- The INSERT … ON CONFLICT DO NOTHING of each stage.
unfoldable pub add_waiting : Key → Key → ℕ → Time → List Stage → List StageRun → List StageRun
add_waiting run attempt_id attempt now [] rows = rows
add_waiting run attempt_id attempt now (stage ∷ stages) rows =
    add_waiting run attempt_id attempt now stages (
      if is_some (first_where (is_stage_run run attempt stage) rows)
      then rows
      else rows ++ waiting_row run attempt_id attempt now stage ∷ [])

unfoldable pub init_attempt_stages : Key → Key → ℕ → Time → Tx (Unit {0})
init_attempt_stages run attempt_id attempt now = modify λ db. record db {
  stage_runs = add_waiting run attempt_id attempt now stage_order db.stage_runs;
}

-- ORDER BY CASE WHEN status IN ('queued','running') THEN 0 ELSE 1 END, sequence DESC: whether `a`
-- goes before `b`.
abbrev pub goes_first : Attempt → Attempt → Bool
goes_first a b =
    if is_active a.status
    then (if is_active b.status then leb b.sequence a.sequence else true)
    else (if is_active b.status then false else leb b.sequence a.sequence)

abbrev pub better : Attempt → Option Attempt → Attempt
better a none = a
better a (some b) = if goes_first a b then a else b

unfoldable pub latest_attempt : Key → List Attempt → Option Attempt
latest_attempt run [] = none
latest_attempt run (a ∷ attempts) =
    let more = latest_attempt run attempts in if a.run_id == run then some (better a more) else more

unfoldable pub active_attempt : Key → Tx Attempt
active_attempt run = do found ← query λ db. latest_attempt run db.attempts; or_fail database found

abbrev started_now : StageStatus → Time → Option Time
started_now StageStatus.running now = some now
started_now _ now = none

abbrev finished_now : StageStatus → Time → Option Time
finished_now StageStatus.succeeded now = some now
finished_now StageStatus.failed now = some now
finished_now StageStatus.cancelled now = some now
finished_now _ now = none

abbrev coalesce : Option Time → Option Time → Option Time
coalesce none b = b
coalesce (some a) b = some a

abbrev pub stage_moved : StageStatus → Time → Option Text → StageRun → StageRun
stage_moved status now error_code s = record s {
  status = status;
  started_at = coalesce s.started_at (started_now status now);
  finished_at = coalesce (finished_now status now) s.finished_at;
  updated_at = now;
  error_code = error_code;
}

-- INSERT … ON CONFLICT(workflow_run_id, attempt, stage_key) DO UPDATE
unfoldable pub set_stage_state_for_attempt :
    Key → Key → ℕ → Stage → StageStatus → Time → Option Text → Tx (Unit {0})
set_stage_state_for_attempt run attempt_id attempt stage status now error_code = modify λ db.
    record db {
      stage_runs =
          if is_some (first_where (is_stage_run run attempt stage) db.stage_runs)
          then update_where (is_stage_run run attempt stage) (stage_moved status now error_code)
              db.stage_runs
          else db.stage_runs
            ++ record {
              workflow_run_id = run;
              attempt = attempt;
              attempt_id = some attempt_id;
              stage_key = stage;
              status = status;
              started_at = started_now status now;
              finished_at = finished_now status now;
              updated_at = now;
              error_code = error_code;
            }
              ∷ [];
    }

unfoldable pub set_stage_state : Key → Stage → StageStatus → Time → Option Text → Tx (Unit {0})
set_stage_state run stage status now error_code = do
  a ← active_attempt run
  set_stage_state_for_attempt run a.id a.sequence stage status now error_code

abbrev pub stage_then :
    Key → Option Stage → StageStatus → Time → Option Text → Tx (Unit {0}) → Tx (Unit {0})
stage_then run none status now code rest = rest
stage_then run (some stage) status now code rest = do
  set_stage_state run stage status now code
  rest

abbrev pub only_with_stage : Key → Option Stage → StageStatus → Time → Tx (Unit {0})
only_with_stage run none status now = pure tt
only_with_stage run (some stage) status now = do
  set_stage_state run stage status now none
  bump_workflow_for_run run WorkflowStatus.running now

-- An event's lifecycle facts, stored with it.
unfoldable pub apply_workflow_event : Key → EventType → Time → Payload → Tx (Unit {0})
apply_workflow_event run EventType.run_started now payload =
    bump_workflow_for_run run WorkflowStatus.running now
apply_workflow_event run EventType.stage_started now payload =
    only_with_stage run payload.stage StageStatus.running now
apply_workflow_event run EventType.stage_artifact now payload =
    only_with_stage run payload.stage StageStatus.succeeded now
apply_workflow_event run EventType.run_failed now payload =
    stage_then run payload.stage StageStatus.failed now payload.code
      (bump_workflow_for_run run WorkflowStatus.failed now)
apply_workflow_event run EventType.run_completed now payload =
    bump_workflow_for_run run WorkflowStatus.completed now
apply_workflow_event run _ now payload = pure tt
