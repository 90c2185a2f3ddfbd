-- ===== src/Store/Events.antt =====
-- internal/store/run.go: messages, stage artifacts, events, and the status of a run.
pub mod Listing
pub mod Order
pub mod Interrupt
use mathlib.Core.Option
use vibe_forge.Base.{
  ℕ, Bool, true, false, ◌&&◌, Option, none, some, List, [], ◌∷◌, Text, codes, leb, ltb, ◌==◌,
  if◌then◌else◌, text_eq,
}
use vibe_forge.Contract.{not_found, Stage, qa}
use vibe_forge.Store.Model.{
  Key, Time, Message, Role, Run, RunStatus, Attempt, StageArtifact, ArtifactType, Event, EventType,
  Payload, WorkflowStatus, StageStatus, StageRun, Db, Env, no_details, coded, is_active,
}
use vibe_forge.Store.Table.{first_where, select_where, update_where, count_where, max_where}
use vibe_forge.Store.Rows.{
  run_of, is_some, insert_message, insert_event, insert_artifact, update_attempts, update_run,
}
use vibe_forge.Store.Pointer.{run_workflow_status, bump_workflow_for_run}
use vibe_forge.Store.Stages.{set_stage_state_for_attempt, apply_workflow_event}
use vibe_forge.Store.Runs.{next_seq, active_run_of}
use vibe_forge.Store.Tx.{Tx, pure, query, modify, or_fail, ◌>>=◌, ◌>>◌}

unfoldable pub get_active_run : Key → Tx (Option Key)
get_active_run project = query λ db. Option.map (λ (r : Run). r.id) (active_run_of project db)

-- Every role of the model is one that the source accepts.
unfoldable pub append_message : Env → Key → Role → Text → Tx Message
append_message env project role content = do
  let m : Message = record {
    id = env.new_id 0;
    project_id = project;
    role = role;
    content = content;
    created_at = env.now;
  }
  insert_message m
  pure m

-- WHERE id = ? AND run_id = ?
abbrev pub is_attempt : Key → Key → Attempt → Bool
is_attempt run attempt a = a.id == attempt && a.run_id == run

unfoldable pub record_stage_artifact :
    Env → Key → Key → Stage → ArtifactType → Text → Tx StageArtifact
record_stage_artifact env run attempt stage type ref = do
  let a : StageArtifact = record {
    id = env.new_id 0;
    run_id = run;
    attempt_id = attempt;
    stage = stage;
    artifact_type = type;
    artifact_ref = ref;
    created_at = env.now;
  }
  found ← query λ db. first_where (is_attempt run attempt) db.attempts
  row ← or_fail (coded not_found (codes "attempt not found for run") no_details) found
  insert_artifact a
  set_stage_state_for_attempt run attempt row.sequence stage StageStatus.succeeded env.now none
  bump_workflow_for_run run WorkflowStatus.running env.now
  pure a

abbrev is_qa : Stage → Bool
is_qa Stage.qa = true
is_qa _ = false

abbrev is_compile : ArtifactType → Bool
is_compile ArtifactType.compile_result = true
is_compile _ = false

abbrev pub is_compile_result : Key → Key → Text → StageArtifact → Bool
is_compile_result run attempt ref a =
    a.run_id == run
    && a.attempt_id == attempt
    && is_qa a.stage
    && is_compile a.artifact_type
    && text_eq a.artifact_ref ref

abbrev pub record_once : Option StageArtifact → Tx StageArtifact → Tx StageArtifact
record_once none record_it = record_it
record_once (some a) record_it = pure a

-- The result of a callback is recorded once.
unfoldable pub record_compile_result : Env → Key → Key → Text → Tx StageArtifact
record_compile_result env run attempt ref = do
  existing ← query λ db. first_where (is_compile_result run attempt ref) db.artifacts
  record_once existing (record_stage_artifact env run attempt qa ArtifactType.compile_result ref)

abbrev pub new_event : Env → Key → EventType → Payload → ℕ → Event
new_event env run type payload seq = record {
  id = env.new_id 0;
  run_id = run;
  seq = seq;
  type = type;
  payload = payload;
  created_at = env.now;
}

unfoldable pub append_event : Env → Key → EventType → Payload → Tx Event
append_event env run type payload = do
  seq ← query (next_seq run)
  insert_event (new_event env run type payload seq)
  apply_workflow_event run type env.now payload
  pure (new_event env run type payload seq)

abbrev pub is_event_after : Key → ℕ → Event → Bool
is_event_after run after e = e.run_id == run && ltb after e.seq

-- ORDER BY seq ASC
unfoldable pub insert_by_seq : Event → List Event → List Event
insert_by_seq e [] = e ∷ []
insert_by_seq e (d ∷ events) =
    let more = insert_by_seq e events in if leb e.seq d.seq then e ∷ d ∷ events else d ∷ more

unfoldable pub sort_by_seq : List Event → List Event
sort_by_seq [] = []
sort_by_seq (e ∷ events) = insert_by_seq e (sort_by_seq events)

unfoldable pub list_events : Key → ℕ → Db → List Event
list_events run after db = sort_by_seq (select_where (is_event_after run after) db.events)

-- `f` in SetRunStatus sets the status alone; a run that is not there is an error.
unfoldable pub set_run_status : Env → Key → RunStatus → Tx (Unit {0})
set_run_status env run status = do
  exists ← query λ db. run_of db run
  update_run run (λ r. record r { status = status; updated_at = env.now })
  r ← or_fail (coded not_found (codes "run not found") no_details) exists
  bump_workflow_for_run run (run_workflow_status status) env.now

-- MAX(attempt) of a run's stage rows.
abbrev is_stage_of : Key → StageRun → Bool
is_stage_of run s = s.workflow_run_id == run

abbrev is_running_stage : StageStatus → Bool
is_running_stage StageStatus.running = true
is_running_stage _ = false

abbrev pub is_interrupted_stage : Key → ℕ → StageRun → Bool
is_interrupted_stage run attempt s =
    s.workflow_run_id == run && s.attempt == attempt && is_running_stage s.status

unfoldable pub cancel_stages : Key → Time → Tx (Unit {0})
cancel_stages run now = modify λ db.
    let latest = max_where (is_stage_of run) (λ (s : StageRun). s.attempt) db.stage_runs in
    record db {
      stage_runs =
          update_where (is_interrupted_stage run latest)
            (λ s. record s {
              status = StageStatus.cancelled;
              finished_at = some now;
              updated_at = now;
            })
            db.stage_runs;
    }

unfoldable pub cancel_workflows : List Run → Time → Tx (Unit {0})
cancel_workflows [] now = pure tt
cancel_workflows (r ∷ rs) now = do
  cancel_stages r.id now
  bump_workflow_for_run r.id WorkflowStatus.cancelled now
  cancel_workflows rs now

abbrev pub is_active_run : Run → Bool
is_active_run r = is_active r.status

-- status IN ('queued','running') AND run_id IN (SELECT id FROM runs WHERE …)
abbrev pub is_orphaned : List Run → Attempt → Bool
is_orphaned active a =
    is_active a.status && is_some (first_where (λ (r : Run). r.id == a.run_id) active)

abbrev pub interrupt : Time → Run → Run
interrupt now r = record r {
  status = RunStatus.interrupted;
  active_attempt_id = none;
  updated_at = now;
}

-- UPDATE runs SET status = 'interrupted' … ; no row becomes active, so the index cannot be violated.
unfoldable pub interrupt_runs : Time → Tx (Unit {0})
interrupt_runs now =
    modify λ db. record db { runs = update_where is_active_run (interrupt now) db.runs }

-- MarkActiveRunsInterrupted. The source lists the runs in the order of their ids.
unfoldable pub mark_active_runs_interrupted : Env → Tx ℕ
mark_active_runs_interrupted env = do
  active ← query λ db. select_where is_active_run db.runs
  cancel_workflows active env.now
  update_attempts (is_orphaned active) (λ a. record a { status = RunStatus.interrupted })
  count ← query λ db. count_where is_active_run db.runs
  interrupt_runs env.now
  pure count
