-- ===== src/Store/Follow.antt =====
-- What the writes of the workflow tables leave alone: every property of the other tables.
use vibe_forge.Base.{ℕ, Option, none, some, List, Text}
use vibe_forge.Contract.{Stage}
use vibe_forge.Store.Model.{
  StageRun, Key, Time, EventType, Payload, WorkflowState, WorkflowStatus, StageStatus, Db,
}
use vibe_forge.Store.Pointer.{point_project_workflow, bump_workflow_for_run, bump_followers}
use vibe_forge.Store.Stages.{
  active_attempt, set_stage_state_for_attempt, set_stage_state, apply_workflow_event,
  only_with_stage, stage_then,
}
use vibe_forge.Store.Tx.{Tx}
use vibe_forge.Store.Tx.Keeps.{Keeps, Keeps-modify, Keeps-bind, keeps_rules}

module _ {ℓ} (P : Db → Type ℓ)
    (workflows_free : (db : Db) (w : List WorkflowState) → P db → P (record db { workflows = w }))
    (stages_free : (db : Db) (s : List StageRun) → P db → P (record db { stage_runs = s })) where
  point-Keeps :
      (p r : Key) (s : WorkflowStatus) (now : Time) → Keeps P (point_project_workflow p r s now)
  unfolding point_project_workflow
  point-Keeps p r s now = Keeps-modify _ (λ db. workflows_free db _)

  followers-Keeps : (r : Key) (s : WorkflowStatus) (now : Time) → Keeps P (bump_followers r s now)
  unfolding bump_followers
  followers-Keeps r s now = Keeps-modify _ (λ db. workflows_free db _)

  pub bump-Keeps :
      (r : Key) (s : WorkflowStatus) (now : Time) → Keeps P (bump_workflow_for_run r s now)
  unfolding bump_workflow_for_run
  bump-Keeps r s now = search (keeps_rules, point-Keeps, followers-Keeps) depth 12

  pub stage_for_attempt-Keeps :
      (r a : Key) (n : ℕ) (st : Stage) (s : StageStatus) (now : Time) (code : Option Text)
      → Keeps P (set_stage_state_for_attempt r a n st s now code)
  unfolding set_stage_state_for_attempt
  stage_for_attempt-Keeps r a n st s now code = Keeps-modify _ (λ db. stages_free db _)

  active_attempt-Keeps : (r : Key) → Keeps P (active_attempt r)
  unfolding active_attempt
  active_attempt-Keeps r = search keeps_rules

  stage-Keeps :
      (r : Key) (st : Stage) (s : StageStatus) (now : Time) (code : Option Text)
      → Keeps P (set_stage_state r st s now code)
  unfolding set_stage_state
  stage-Keeps r st s now code = search (keeps_rules, active_attempt-Keeps, stage_for_attempt-Keeps)

  only_with-Keeps :
      (r : Key) (o : Option Stage) (s : StageStatus) (now : Time)
      → Keeps P (only_with_stage r o s now)
  only_with-Keeps r none s now = search keeps_rules
  only_with-Keeps r (some st) s now = search (keeps_rules, stage-Keeps, bump-Keeps)

  then-Keeps :
      (r : Key) (o : Option Stage) (s : StageStatus) (now : Time) (code : Option Text)
      (rest : Tx (Unit {0}))
      → Keeps P rest
      → Keeps P (stage_then r o s now code rest)
  then-Keeps r none s now code rest k = k
  then-Keeps r (some st) s now code rest k = Keeps-bind _ _ (stage-Keeps r st s now code) (λ _. k)

  pub apply-Keeps :
      (r : Key) (type : EventType) (now : Time) (payload : Payload)
      → Keeps P (apply_workflow_event r type now payload)
  unfolding apply_workflow_event
  apply-Keeps r EventType.run_started now payload = bump-Keeps r _ now
  apply-Keeps r EventType.stage_started now payload = only_with-Keeps r payload.stage _ now
  apply-Keeps r EventType.stage_artifact now payload = only_with-Keeps r payload.stage _ now
  apply-Keeps r EventType.run_failed now payload =
      then-Keeps r payload.stage _ now payload.code _ (bump-Keeps r _ now)
  apply-Keeps r EventType.run_completed now payload = bump-Keeps r _ now
  apply-Keeps r _ now payload = search keeps_rules
