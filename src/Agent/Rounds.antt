-- ===== src/Agent/Rounds.antt =====
-- internal/agent/agent.go: engineerQA, its rounds of writing and checking with bounded repairs.
pub mod Checked
pub mod Held
pub mod Ending
use vibe_forge.Base.{
  ℕ, zero, suc, Bool, true, false, Option, none, some, List, Text, codes, ◌==◌, if◌then◌else◌,
}
use vibe_forge.Contract.{Stage, engineer, qa, max_auto_fix_rounds}
use vibe_forge.Compile.Validate.{CompileResult, validate}
use vibe_forge.Store.Model.{Key, Version, Payload, EventType, ArtifactType}
use vibe_forge.Store.Drafts.{create_draft_version, promote_draft_version, fail_draft_version}
use vibe_forge.Store.Events.{record_stage_artifact}
use vibe_forge.Agent.Client.{Prompt, engineer_turn, repair_turn, Turn, Outside}
use vibe_forge.Agent.Scaffold.{build_files_map, to_snapshots}
use vibe_forge.Agent.Runner.{
  Step, return, quietly, change, store_call, emit, emit_payload, of_stage, record_artifact, ◌>>=◌,
  ◌>>◌,
}
use vibe_forge.Agent.Turns.{text_turn}
use vibe_forge.Agent.Turns

-- The identifiers that the runner keeps.
pub record Job : Type 0 where
  pub run_id : Key
  pub project_id : Key
  pub iteration_id : Key
  pub attempt_id : Key

-- A round of engineerQA: the draft, the gate's verdict on it, and the conversation.
pub record Round : Type 0 where
  pub draft : Version
  pub result : CompileResult
  pub messages : List Turn

abbrev pub set_stage : Stage → Step (Unit {0})
set_stage s = change λ w. record w { stage = some s }

abbrev pub failure : Option Stage → Text → Payload
failure stage code = record { stage = stage; code = some code }

abbrev pub unless : Bool → Step (Unit {0}) → Step (Unit {0})
unless true m = return tt
unless false m = m

-- CompileResult with its FilesHash, as JSON.
abbrev pub compile_ref : Outside → Round → Text
compile_ref out r = out.result_json r.result r.draft.files_hash

module _ (out : Outside) where
  abbrev pub fail_previous : Key → Option Key → Step (Unit {0})
  fail_previous draft none = return tt
  fail_previous draft (some previous) =
      unless (previous == draft)
        (quietly (store_call out λ env. fail_draft_version env previous none none))

  -- The draft before, where there is another one, fails; the run goes on.
  unfoldable pub replace_draft : Key → Step (Unit {0})
  replace_draft draft w =
      (do fail_previous draft w.current_draft; change λ x. record x { current_draft = some draft })
        w

  -- The two flags say whether the engineer's artifact and the start of qa are recorded.
  unfoldable pub qa_round : Job → Prompt → Bool → Bool → List Turn → Step Round
  qa_round job prompt recorded started messages = do
    set_stage engineer
    (app_tsx, heard) ← Turns.engineer_turn out job.run_id messages prompt
    draft ← store_call out λ env.
        create_draft_version env job.project_id job.iteration_id
          (to_snapshots (build_files_map out.embedded app_tsx))
    replace_draft draft.id
    emit out job.run_id EventType.file_written
    unless recorded (
        record_artifact out job.run_id job.attempt_id engineer ArtifactType.file_ref
          (out.file_ref draft.id))
    set_stage qa
    unless started (emit_payload out job.run_id EventType.stage_started (of_stage qa))
    return (record { draft = draft; result = validate app_tsx; messages = heard })

  -- The gate passed: the draft becomes the stable version.
  unfoldable pub complete : Job → Round → Step (Unit {0})
  complete job r = do
    quietly (
        store_call out λ env.
          record_stage_artifact env job.run_id job.attempt_id qa ArtifactType.compile_result
            (compile_ref out r))
    emit_payload out job.run_id EventType.stage_artifact (of_stage qa)
    v ←
        store_call out
          λ env. promote_draft_version env r.draft.id (some job.run_id) (some job.attempt_id)
    emit out job.run_id EventType.preview_ready
    emit out job.run_id EventType.run_completed

  -- The last repair failed as well.
  unfoldable pub give_up : Job → Round → Step (Unit {0})
  give_up job r = do
    quietly (
        store_call out
          λ env. fail_draft_version env r.draft.id (some job.run_id) (some job.attempt_id))
    emit_payload out job.run_id EventType.run_failed (failure (some qa) (codes "COMPILE_FAILED"))

  -- The rounds of engineerQA, with the number of repairs that are left.
  unfoldable pub repair_loop : ℕ → Job → Prompt → Bool → Bool → List Turn → Step (Unit {0})
  repair_loop zero job prompt recorded started messages = do
    r ← qa_round job prompt recorded started messages
    if r.result.pass then complete job r else give_up job r
  repair_loop (suc n) job prompt recorded started messages = do
    r ← qa_round job prompt recorded started messages
    if r.result.pass
        then complete job r
        else repair_loop n job (repair_turn r.result.errors) true true r.messages

  unfoldable pub engineer_qa : Job → Text → Text → List Turn → Step (Unit {0})
  engineer_qa job idea plan messages =
      repair_loop max_auto_fix_rounds job (engineer_turn idea plan) false false messages
