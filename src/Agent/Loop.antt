-- ===== src/Agent/Loop.antt =====
-- internal/agent/agent.go: the pipeline of a run (run) and its end (Run, failInfra, classifyError).
pub mod Pipeline
pub mod Gate
pub mod Ends
pub mod Bounds
use vibe_forge.Base.{
  Bool, true, false, Option, none, some, List, [], Text, codes, leb, ◌==◌, if◌then◌else◌,
}
use vibe_forge.Contract.{Stage, pm, architect, engineer}
use vibe_forge.Store.Model.{Key, Db, EventType, ArtifactType}
use vibe_forge.Store.Drafts.{
  get_run, get_run_iteration, get_active_attempt, begin_attempt, fail_draft_version, fail_run,
}
use vibe_forge.Agent.Client.{
  Prompt, pm_turn, architect_turn, Turn, Failure, context_ended, api_error, other_failure, Outside,
}
use vibe_forge.Agent.Runner.{
  World, Outcome, done, failed, Step, return, quietly, change, store_call, emit, emit_payload,
  of_stage, persist_assistant, record_artifact, ◌>>=◌, ◌>>◌,
}
use vibe_forge.Agent.Turns.{text_turn}
use vibe_forge.Agent.Rounds.{Job, set_stage, failure, engineer_qa}

-- An error of a cancelled or overdue context, or any error behind the watchdog, is a timeout;
-- every failure may be retried.
unfoldable pub classify_error : Bool → Failure → Text
classify_error true f = codes "TIMEOUT"
classify_error false context_ended = codes "TIMEOUT"
classify_error false (api_error status) =
    if status == 429
    then codes "RATE_LIMITED"
    else (if leb 500 status then codes "UPSTREAM_ERROR" else codes "INTERNAL")
classify_error false other_failure = codes "INTERNAL"

-- The runner before its run, on these tables.
abbrev pub start_world : Db → World
start_world db = record {
  db = db;
  calls = 0;
  streams = 0;
  stage = none;
  attempt_id = none;
  current_draft = none;
  msg_seq = 0;
}

module _ (out : Outside) where
  abbrev pub start_stage : Key → Stage → Step (Unit {0})
  start_stage run s = do set_stage s; emit_payload out run EventType.stage_started (of_stage s)

  -- A stage without tools: its turn, its message and its artifact.
  unfoldable pub text_stage :
      Job → Stage → ArtifactType → Prompt → List Turn → Step (Text × List Turn)
  text_stage job s type prompt messages = do
    start_stage job.run_id s
    (content, heard) ← text_turn out job.run_id messages prompt
    persist_assistant out job.project_id content
    record_artifact out job.run_id job.attempt_id s type content
    return (content, heard)

  -- The stages, once the run is known.
  unfoldable pub run_stages : Job → Text → Step (Unit {0})
  run_stages job idea = do
    emit out job.run_id EventType.run_started
    store_call out λ env. begin_attempt env job.run_id job.attempt_id
    (spec, after_pm) ← text_stage job pm ArtifactType.spec (pm_turn idea) []
    (plan, after_architect) ←
        text_stage job architect ArtifactType.structure_plan (architect_turn spec) after_pm
    start_stage job.run_id engineer
    engineer_qa out job idea plan after_architect

  -- The pipeline of a run.
  unfoldable pub run_pipeline : Key → Step (Unit {0})
  run_pipeline run = do
    row ← store_call out λ env. get_run run
    iter ← store_call out λ env. get_run_iteration run
    att ← store_call out λ env. get_active_attempt run
    change λ w. record w { attempt_id = some att.id }
    run_stages
        (record {
          run_id = run;
          project_id = row.project_id;
          iteration_id = iter.id;
          attempt_id = att.id;
        })
        row.prompt

  abbrev pub fail_draft_or_run : Key → Option Key → Option Key → Step (Unit {0})
  fail_draft_or_run run attempt (some draft) =
      quietly (store_call out λ env. fail_draft_version env draft (some run) attempt)
  fail_draft_or_run run attempt none = quietly (store_call out λ env. fail_run env run)

  unfoldable pub fail_infra : Key → Step (Unit {0})
  fail_infra run w = fail_draft_or_run run w.attempt_id w.current_draft w

  abbrev pub report : Key → Failure → Step (Unit {0})
  report run f w =
      emit_payload out run EventType.run_failed
        (failure w.stage (classify_error out.watchdog_fired f)) w

  abbrev pub end_run : Key → Outcome (Unit {0}) × World → World
  end_run run (done u, w) = w
  end_run run (failed f, w) = if out.shut_down then w else ((do fail_infra run; report run f) w).1

  -- Run: the world behind a run of the loop.
  unfoldable pub loop_run : Key → World → World
  loop_run run w = end_run run (run_pipeline run w)
