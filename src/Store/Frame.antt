-- ===== src/Store/Frame.antt =====
-- The writes that leave the projects, the versions and the files alone: they keep every property
-- of those three tables.
use vibe_forge.Base.{ℕ, suc, Bool, Option, none, some, List, [], ◌∷◌, ◌++◌, Text}
use vibe_forge.Contract.{Stage}
use vibe_forge.Store.Model.{
  Key, Time, Project, Version, File, FileSnapshot, Run, RunStatus, Attempt, Message, Iteration,
  StageArtifact, LedgerRow, Event, EventType, Payload, WorkflowStatus, StageStatus, Body, Endpoint,
  Db, Env,
}
use vibe_forge.Store.Rows.{
  insert_message, insert_run, update_run, insert_attempt, update_attempts, insert_artifact,
  insert_iteration, set_iteration_result, insert_event, insert_file, insert_files,
}
use vibe_forge.Store.Pointer.{
  init_project_workflow, point_project_workflow, bump_workflow_for_run, bump_followers,
  bump_project_workflow_snapshot,
}
use vibe_forge.Store.Stages.{
  init_attempt_stages, active_attempt, set_stage_state_for_attempt, set_stage_state,
  apply_workflow_event, only_with_stage, stage_then,
}
use vibe_forge.Store.Ledger.{
  run_fresh, on_hit, run_idempotent, record_result, evict, gc_idempotency,
}
use vibe_forge.Store.Runs.{refuse_found, refuse_active, record_unstarted, start_attempt}
use vibe_forge.Store.Versions.{settle_run, fetch_version}
use vibe_forge.Store.Tx.{Tx}
use vibe_forge.Store.Tx.Keeps.{Keeps, Keeps-modify, Keeps-write_if, Keeps-bind, keeps_rules}

abbrev pub On {ℓ} : (List Project → List Version → List File → Type ℓ) → Db → Type ℓ
On P db = P db.projects db.versions db.files

module _ {ℓ} (P : List Project → List Version → List File → Type ℓ) where
  pub message-Keeps : (m : Message) → Keeps (On P) (insert_message m)
  unfolding insert_message
  message-Keeps m = Keeps-write_if _ _ (λ db t h. h)

  pub run-Keeps : (r : Run) → Keeps (On P) (insert_run r)
  unfolding insert_run
  run-Keeps r = Keeps-write_if _ _ (λ db t h. h)

  pub update_run-Keeps : (id : Key) (f : Run → Run) → Keeps (On P) (update_run id f)
  unfolding update_run
  update_run-Keeps id f = Keeps-write_if _ _ (λ db t h. h)

  pub attempt-Keeps : (a : Attempt) → Keeps (On P) (insert_attempt a)
  unfolding insert_attempt
  attempt-Keeps a = Keeps-write_if _ _ (λ db t h. h)

  pub update_attempts-Keeps :
      (test : Attempt → Bool) (f : Attempt → Attempt) → Keeps (On P) (update_attempts test f)
  unfolding update_attempts
  update_attempts-Keeps test f = Keeps-modify _ (λ db h. h)

  pub artifact-Keeps : (a : StageArtifact) → Keeps (On P) (insert_artifact a)
  unfolding insert_artifact
  artifact-Keeps a = Keeps-write_if _ _ (λ db t h. h)

  pub iteration-Keeps : (i : Iteration) → Keeps (On P) (insert_iteration i)
  unfolding insert_iteration
  iteration-Keeps i = Keeps-write_if _ _ (λ db t h. h)

  pub result-Keeps : (v i : Key) → Keeps (On P) (set_iteration_result v i)
  unfolding set_iteration_result
  result-Keeps v i = Keeps-modify _ (λ db h. h)

  pub event-Keeps : (e : Event) → Keeps (On P) (insert_event e)
  unfolding insert_event
  event-Keeps e = Keeps-write_if _ _ (λ db t h. h)

  pub init_workflow-Keeps : (p : Key) (now : Time) → Keeps (On P) (init_project_workflow p now)
  unfolding init_project_workflow
  init_workflow-Keeps p now = Keeps-modify _ (λ db h. h)

  pub point-Keeps :
      (p r : Key) (s : WorkflowStatus) (now : Time)
      → Keeps (On P) (point_project_workflow p r s now)
  unfolding point_project_workflow
  point-Keeps p r s now = Keeps-modify _ (λ db h. h)

  followers-Keeps :
      (r : Key) (s : WorkflowStatus) (now : Time) → Keeps (On P) (bump_followers r s now)
  unfolding bump_followers
  followers-Keeps r s now = Keeps-modify _ (λ db h. h)

  pub bump-Keeps :
      (r : Key) (s : WorkflowStatus) (now : Time) → Keeps (On P) (bump_workflow_for_run r s now)
  unfolding bump_workflow_for_run
  bump-Keeps r s now = search (keeps_rules, point-Keeps, followers-Keeps) depth 12

  pub snapshot-Keeps : (p : Key) (now : Time) → Keeps (On P) (bump_project_workflow_snapshot p now)
  unfolding bump_project_workflow_snapshot
  snapshot-Keeps p now = Keeps-modify _ (λ db h. h)

  pub init_stages-Keeps :
      (r a : Key) (n : ℕ) (now : Time) → Keeps (On P) (init_attempt_stages r a n now)
  unfolding init_attempt_stages
  init_stages-Keeps r a n now = Keeps-modify _ (λ db h. h)

  pub stage_for_attempt-Keeps :
      (r a : Key) (n : ℕ) (st : Stage) (s : StageStatus) (now : Time) (code : Option Text)
      → Keeps (On P) (set_stage_state_for_attempt r a n st s now code)
  unfolding set_stage_state_for_attempt
  stage_for_attempt-Keeps r a n st s now code = Keeps-modify _ (λ db h. h)

  active_attempt-Keeps : (r : Key) → Keeps (On P) (active_attempt r)
  unfolding active_attempt
  active_attempt-Keeps r = search keeps_rules

  stage-Keeps :
      (r : Key) (st : Stage) (s : StageStatus) (now : Time) (code : Option Text)
      → Keeps (On P) (set_stage_state r st s now code)
  unfolding set_stage_state
  stage-Keeps r st s now code = search (keeps_rules, active_attempt-Keeps, stage_for_attempt-Keeps)

  only_with-Keeps :
      (r : Key) (o : Option Stage) (s : StageStatus) (now : Time)
      → Keeps (On P) (only_with_stage r o s now)
  only_with-Keeps r none s now = search keeps_rules
  only_with-Keeps r (some st) s now = search (keeps_rules, stage-Keeps, bump-Keeps)

  then-Keeps :
      (r : Key) (o : Option Stage) (s : StageStatus) (now : Time) (code : Option Text)
      (rest : Tx (Unit {0}))
      → Keeps (On P) rest
      → Keeps (On P) (stage_then r o s now code rest)
  then-Keeps r none s now code rest k = k
  then-Keeps r (some st) s now code rest k = Keeps-bind _ _ (stage-Keeps r st s now code) (λ _. k)

  pub apply-Keeps :
      (r : Key) (type : EventType) (now : Time) (payload : Payload)
      → Keeps (On P) (apply_workflow_event r type now payload)
  unfolding apply_workflow_event
  apply-Keeps r EventType.run_started now payload = bump-Keeps r _ now
  apply-Keeps r EventType.stage_started now payload = only_with-Keeps r payload.stage _ now
  apply-Keeps r EventType.stage_artifact now payload = only_with-Keeps r payload.stage _ now
  apply-Keeps r EventType.run_failed now payload =
      then-Keeps r payload.stage _ now payload.code _ (bump-Keeps r _ now)
  apply-Keeps r EventType.run_completed now payload = bump-Keeps r _ now
  apply-Keeps r _ now payload = search keeps_rules

  pub record-Keeps :
      (key : ℕ) (e : Endpoint) (status : ℕ) (body : Body) (now : Time)
      → Keeps (On P) (record_result key e status body now)
  unfolding record_result
  record-Keeps key e status body now = Keeps-write_if _ _ (λ db t h. h)

  pub evict-Keeps : (key : ℕ) (e : Endpoint) → Keeps (On P) (evict key e)
  unfolding evict
  evict-Keeps key e = Keeps-modify _ (λ db h. h)

  pub gc-Keeps : (now : Time) → Keeps (On P) (gc_idempotency now)
  unfolding gc_idempotency
  gc-Keeps now = Keeps-modify _ (λ db h. h)

  fresh-Keeps :
      (env : Env) (e : Endpoint) (key : ℕ) (fn : Tx (ℕ × Body))
      → Keeps (On P) fn
      → Keeps (On P) (run_fresh env e key fn)
  unfolding run_fresh
  fresh-Keeps env e key fn k = search (keeps_rules, record-Keeps)

  hit-Keeps :
      (env : Env) (e : Endpoint) (key : ℕ) (fn : Tx (ℕ × Body)) (o : Option LedgerRow)
      → Keeps (On P) fn
      → Keeps (On P) (on_hit env e key fn o)
  unfolding on_hit
  hit-Keeps env e key fn none k = search (keeps_rules, fresh-Keeps)
  hit-Keeps env e key fn (some r) k = search (keeps_rules, fresh-Keeps, evict-Keeps)

  -- A call under an idempotency key keeps what its body keeps.
  pub idempotent-Keeps :
      (env : Env) (e : Endpoint) (key : ℕ) (fn : Tx (ℕ × Body))
      → Keeps (On P) fn
      → Keeps (On P) (run_idempotent env e key fn)
  unfolding run_idempotent
  idempotent-Keeps env e key fn k = search (keeps_rules, hit-Keeps)

  refuse_found-Keeps : (msg : Text) (o : Option Run) → Keeps (On P) (refuse_found msg o)
  refuse_found-Keeps msg none = search keeps_rules
  refuse_found-Keeps msg (some r) = search keeps_rules

  pub refuse-Keeps : (msg : Text) (p : Key) → Keeps (On P) (refuse_active msg p)
  unfolding refuse_active
  refuse-Keeps msg p = search (keeps_rules, refuse_found-Keeps)

  pub unstarted-Keeps : (env : Env) → Keeps (On P) (record_unstarted env)
  unfolding record_unstarted
  unstarted-Keeps env = search (keeps_rules, event-Keeps)

  pub start_attempt-Keeps : (env : Env) (r : Key) (n : ℕ) → Keeps (On P) (start_attempt env r n)
  unfolding start_attempt
  start_attempt-Keeps env r n =
      search (keeps_rules, attempt-Keeps, update_run-Keeps, init_stages-Keeps, bump-Keeps) depth 14

  pub settle-Keeps :
      (s : RunStatus) (w : WorkflowStatus) (now : Time) (run attempt : Option Key)
      → Keeps (On P) (settle_run s w now run attempt)
  unfolding settle_run
  settle-Keeps s w now none none = search keeps_rules
  settle-Keeps s w now none (some a) = search (keeps_rules, update_attempts-Keeps)
  settle-Keeps s w now (some r) none = search (keeps_rules, update_run-Keeps, bump-Keeps)
  settle-Keeps s w now (some r) (some a) =
      search (keeps_rules, update_run-Keeps, update_attempts-Keeps, bump-Keeps)

  pub fetch-Keeps : (v : Key) → Keeps (On P) (fetch_version v)
  unfolding fetch_version
  fetch-Keeps v = search keeps_rules

  -- A property that does not ask for the files is kept by their INSERT.
  module _
      (grow : (ps : List Project) (vs : List Version) (fs : List File) (f : File)
        → P ps vs fs
        → P ps vs (fs ++ f ∷ [])) where
    pub file-Keeps : (f : File) → Keeps (On P) (insert_file f)
    unfolding insert_file
    file-Keeps f = Keeps-write_if _ _ (λ db t h. grow db.projects db.versions db.files f h)

    pub files-Keeps :
        (env : Env) (n : ℕ) (v : Key) (files : List FileSnapshot)
        → Keeps (On P) (insert_files env n v files)
    unfolding insert_files
    files-Keeps env n v [] = search keeps_rules
    files-Keeps env n v (s ∷ files) =
        Keeps-bind _ _ (file-Keeps _) (λ _. files-Keeps env (suc n) v files)
