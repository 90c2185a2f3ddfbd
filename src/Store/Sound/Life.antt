-- ===== src/Store/Sound/Life.antt =====
-- The invariant of the stable version and the operations on projects, runs and events
-- (internal/store/project.go and run.go).
use vibe_forge.Base.{ℕ, ◌≡◌, Bool, Option, none, some, List, [], ◌∷◌, Text}
use vibe_forge.Contract.{Stage}
use vibe_forge.Store.Model.{
  Key, Time, Project, Role, Run, RunStatus, ArtifactType, EventType, Payload, StageArtifact, Env,
  Endpoint,
}
use vibe_forge.Store.Rows.{insert_project}
use vibe_forge.Store.Projects.{create_project_writes, create_project_body, create_project}
use vibe_forge.Store.Runs.{
  create_run_checks, create_run_writes, create_run_body, create_run, retry_run_body, retry_run,
}
use vibe_forge.Store.Events.{
  append_message, record_stage_artifact, record_once, record_compile_result, append_event,
  set_run_status, cancel_stages, cancel_workflows, interrupt_runs, mark_active_runs_interrupted,
}
use vibe_forge.Store.Tx.{Tx}
use vibe_forge.Store.Frame.{
  On, message-Keeps, run-Keeps, attempt-Keeps, artifact-Keeps, iteration-Keeps, event-Keeps,
  update_run-Keeps, update_attempts-Keeps, init_workflow-Keeps, point-Keeps, bump-Keeps,
  init_stages-Keeps, stage_for_attempt-Keeps, apply-Keeps, refuse-Keeps, unstarted-Keeps,
  start_attempt-Keeps, idempotent-Keeps,
}
use vibe_forge.Store.Tx.Keeps.{Keeps, Keeps-modify, keeps_rules}
use vibe_forge.Store.Tx.Triple.{to_keeps, on_write_if}
use vibe_forge.Store.Sound.Tables.{Kept, add_project-IsSound}
use vibe_forge.Store.Sound.Steps.{Tables, Sound}

module _ {K : Kept} where
  insert_project-Sound :
      (p : Project) → p.stable_version_id ≡ none → Keeps (On (Sound K)) (insert_project p)
  unfolding insert_project
  insert_project-Sound p e = to_keeps (on_write_if _ _ λ db t h. add_project-IsSound h p e)

  create_project_writes-Sound :
      (env : Env) (title prompt : Text)
      → Keeps (On (Sound K)) (create_project_writes env title prompt)
  unfolding create_project_writes
  create_project_writes-Sound env title prompt =
      search (keeps_rules, insert_project-Sound, init_workflow-Keeps, message-Keeps) depth 12

  create_project_body-Sound :
      (env : Env) (title prompt : Text)
      → Keeps (On (Sound K)) (create_project_body env title prompt)
  unfolding create_project_body
  create_project_body-Sound env title prompt = search (keeps_rules, create_project_writes-Sound)

  pub create_project-Sound :
      (env : Env) (title prompt : Text) (key : ℕ)
      → Keeps (On (Sound K)) (create_project env title prompt key)
  unfolding create_project
  create_project-Sound env title prompt key =
      idempotent-Keeps (Sound K) env Endpoint.create_project key _
        (create_project_body-Sound env title prompt)

module _ (P : Tables) where
  create_run_checks-Keeps :
      (project : Key) (prompt : Text) (base : Option Key)
      → Keeps (On P) (create_run_checks project prompt base)
  unfolding create_run_checks
  create_run_checks-Keeps project prompt base = search (keeps_rules, refuse-Keeps) depth 14

  create_run_writes-Keeps :
      (env : Env) (project : Key) (prompt : Text) (stable : Option Key) (can_start : Bool)
      → Keeps (On P) (create_run_writes env project prompt stable can_start)
  unfolding create_run_writes
  create_run_writes-Keeps env project prompt stable can_start =
      search
        (
          keeps_rules, run-Keeps, attempt-Keeps, update_run-Keeps, init_stages-Keeps, point-Keeps,
          iteration-Keeps, message-Keeps, unstarted-Keeps,
        )
        depth 20

  create_run_body-Keeps :
      (env : Env) (project : Key) (prompt : Text) (base : Option Key) (can_start : Bool)
      → Keeps (On P) (create_run_body env project prompt base can_start)
  unfolding create_run_body
  create_run_body-Keeps env project prompt base can_start =
      search (keeps_rules, create_run_checks-Keeps, create_run_writes-Keeps)

  pub create_run-Keeps :
      (env : Env) (project : Key) (prompt : Text) (base : Option Key) (key : ℕ) (can_start : Bool)
      → Keeps (On P) (create_run env project prompt base key can_start)
  unfolding create_run
  create_run-Keeps env project prompt base key can_start =
      idempotent-Keeps P env Endpoint.create_run key _
        (create_run_body-Keeps env project prompt base can_start)

  retry_run_body-Keeps : (env : Env) (run : Key) → Keeps (On P) (retry_run_body env run)
  unfolding retry_run_body
  retry_run_body-Keeps env run = search (keeps_rules, start_attempt-Keeps) depth 12

  pub retry_run-Keeps : (env : Env) (run : Key) (key : ℕ) → Keeps (On P) (retry_run env run key)
  unfolding retry_run
  retry_run-Keeps env run key =
      idempotent-Keeps P env Endpoint.retry_run key _ (retry_run_body-Keeps env run)

  pub append_message-Keeps :
      (env : Env) (project : Key) (role : Role) (content : Text)
      → Keeps (On P) (append_message env project role content)
  unfolding append_message
  append_message-Keeps env project role content = search (keeps_rules, message-Keeps)

  pub record_stage_artifact-Keeps :
      (env : Env) (run attempt : Key) (stage : Stage) (type : ArtifactType) (ref : Text)
      → Keeps (On P) (record_stage_artifact env run attempt stage type ref)
  unfolding record_stage_artifact
  record_stage_artifact-Keeps env run attempt stage type ref =
      search (keeps_rules, artifact-Keeps, stage_for_attempt-Keeps, bump-Keeps) depth 14

  once-Keeps :
      (o : Option StageArtifact) (record_it : Tx StageArtifact)
      → Keeps (On P) record_it
      → Keeps (On P) (record_once o record_it)
  once-Keeps none record_it k = k
  once-Keeps (some a) record_it k = search keeps_rules

  pub record_compile_result-Keeps :
      (env : Env) (run attempt : Key) (ref : Text)
      → Keeps (On P) (record_compile_result env run attempt ref)
  unfolding record_compile_result
  record_compile_result-Keeps env run attempt ref =
      search (keeps_rules, once-Keeps, record_stage_artifact-Keeps)

  pub append_event-Keeps :
      (env : Env) (run : Key) (type : EventType) (payload : Payload)
      → Keeps (On P) (append_event env run type payload)
  unfolding append_event
  append_event-Keeps env run type payload = search (keeps_rules, event-Keeps, apply-Keeps) depth 12

  pub set_run_status-Keeps :
      (env : Env) (run : Key) (status : RunStatus) → Keeps (On P) (set_run_status env run status)
  unfolding set_run_status
  set_run_status-Keeps env run status = search (keeps_rules, update_run-Keeps, bump-Keeps) depth 12

  cancel_stages-Keeps : (run : Key) (now : Time) → Keeps (On P) (cancel_stages run now)
  unfolding cancel_stages
  cancel_stages-Keeps run now = Keeps-modify _ (λ db h. h)

  cancel_workflows-Keeps : (runs : List Run) (now : Time) → Keeps (On P) (cancel_workflows runs now)
  unfolding cancel_workflows
  cancel_workflows-Keeps [] now = search keeps_rules
  cancel_workflows-Keeps (r ∷ runs) now =
      search (keeps_rules, cancel_stages-Keeps, bump-Keeps, cancel_workflows-Keeps runs)

  interrupt_runs-Keeps : (now : Time) → Keeps (On P) (interrupt_runs now)
  unfolding interrupt_runs
  interrupt_runs-Keeps now = Keeps-modify _ (λ db h. h)

  pub mark_interrupted-Keeps : (env : Env) → Keeps (On P) (mark_active_runs_interrupted env)
  unfolding mark_active_runs_interrupted
  mark_interrupted-Keeps env =
      search (keeps_rules, cancel_workflows-Keeps, update_attempts-Keeps, interrupt_runs-Keeps)
        depth 14
