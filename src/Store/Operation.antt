-- ===== src/Store/Operation.antt =====
-- The operations of internal/store that the HTTP handlers and the agent loop call, as the steps of
-- a history: each is one transaction, which commits or rolls back.
use vibe_forge.Base.{ℕ, Bool, Option, List, Text}
use vibe_forge.Contract.{Stage}
use vibe_forge.Store.Model.{
  Key, Role, RunStatus, ArtifactType, EventType, Payload, FileSnapshot, Db, Env,
}
use vibe_forge.Store.Tx.{in_tx}
use vibe_forge.Store.Ledger.{gc_idempotency}
use vibe_forge.Store.Projects
use vibe_forge.Store.Runs
use vibe_forge.Store.Events
use vibe_forge.Store.Versions.{FailPoint, CommitInput}
use vibe_forge.Store.Versions
use vibe_forge.Store.Drafts
use vibe_forge.Store.Files
use vibe_forge.Store.Snapshot

pub data Operation : Type 0 where
  create_project : Text → Text → ℕ → Operation
  create_run : Key → Text → Option Key → ℕ → Bool → Operation
  retry_run : Key → ℕ → Operation
  append_message : Key → Role → Text → Operation
  record_stage_artifact : Key → Key → Stage → ArtifactType → Text → Operation
  record_compile_result : Key → Key → Text → Operation
  append_event : Key → EventType → Payload → Operation
  set_run_status : Key → RunStatus → Operation
  mark_active_runs_interrupted : Operation
  commit_version : CommitInput → FailPoint → Operation
  fail_version : CommitInput → Operation
  restore_version : Key → Key → ℕ → Operation
  create_draft_version : Key → Key → List FileSnapshot → Operation
  promote_draft_version : Key → Option Key → Option Key → Operation
  fail_draft_version : Key → Option Key → Option Key → Operation
  begin_attempt : Key → Key → Operation
  fail_run : Key → Operation
  new_attempt : Key → ℕ → Operation
  write_file : Key → Text → Option Key → ℕ → Operation
  get_project : Key → Operation
  gc_idempotency_keys : Operation

abbrev pub after {ℓ} : {A : Type ℓ} {B : Type 0} → A × B → B
after r = r.1

-- The tables behind an operation.
unfoldable pub perform : Env → Operation → Db → Db
perform env (Operation.create_project title prompt key) db =
    after (in_tx (Projects.create_project env title prompt key) db)
perform env (Operation.create_run project prompt base key can_start) db =
    after (in_tx (Runs.create_run env project prompt base key can_start) db)
perform env (Operation.retry_run run key) db = after (in_tx (Runs.retry_run env run key) db)
perform env (Operation.append_message project role content) db =
    after (in_tx (Events.append_message env project role content) db)
perform env (Operation.record_stage_artifact run attempt stage type ref) db =
    after (in_tx (Events.record_stage_artifact env run attempt stage type ref) db)
perform env (Operation.record_compile_result run attempt ref) db =
    after (in_tx (Events.record_compile_result env run attempt ref) db)
perform env (Operation.append_event run type payload) db =
    after (in_tx (Events.append_event env run type payload) db)
perform env (Operation.set_run_status run status) db =
    after (in_tx (Events.set_run_status env run status) db)
perform env Operation.mark_active_runs_interrupted db =
    after (in_tx (Events.mark_active_runs_interrupted env) db)
perform env (Operation.commit_version input point) db =
    after (in_tx (Versions.commit_version_steps env input point) db)
perform env (Operation.fail_version input) db = after (in_tx (Versions.fail_version env input) db)
perform env (Operation.restore_version project version key) db =
    after (in_tx (Versions.restore_version env project version key) db)
perform env (Operation.create_draft_version project iteration files) db =
    after (in_tx (Drafts.create_draft_version env project iteration files) db)
perform env (Operation.promote_draft_version draft run attempt) db =
    after (in_tx (Drafts.promote_draft_version env draft run attempt) db)
perform env (Operation.fail_draft_version draft run attempt) db =
    after (in_tx (Drafts.fail_draft_version env draft run attempt) db)
perform env (Operation.begin_attempt run attempt) db =
    after (in_tx (Drafts.begin_attempt env run attempt) db)
perform env (Operation.fail_run run) db = after (in_tx (Drafts.fail_run env run) db)
perform env (Operation.new_attempt run round) db =
    after (in_tx (Drafts.new_attempt env run round) db)
perform env (Operation.write_file project content base key) db =
    after (in_tx (Files.write_file env project content base key) db)
perform env (Operation.get_project project) db = after (in_tx (Snapshot.get_project env project) db)
perform env Operation.gc_idempotency_keys db = after (in_tx (gc_idempotency env.now) db)

-- The tables reached from `start` by operations, each with its own clock and identifiers.
pub data Reached (start : Db) : Db → Type 0 where
  at_start : Reached start start
  next :
      {db : Db}
      → Reached start db
      → (env : Env) (op : Operation) → Reached start (perform env op db)
