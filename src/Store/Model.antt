-- ===== src/Store/Model.antt =====
-- internal/store/store.go and internal/db/migrations: the entities, the tables and the errors.
-- An identifier is a number, of which only equality matters; an empty string that stands for no
-- identifier is `none`. A time is its whole seconds, which is what RFC 3339 keeps.
use vibe_forge.Base.{ℕ, Bool, true, false, Option, List, [], Text}
use vibe_forge.Contract.{Stage, ErrorCode}
use vibe_forge.Compile.Report.{CompileError}

abbrev pub Key : Type 0
Key = ℕ

abbrev pub Time : Type 0
Time = ℕ

pub data ProjectStatus : Type 0 where
  draft active archived : ProjectStatus

pub data RunStatus : Type 0 where
  queued running succeeded failed interrupted : RunStatus

pub data VersionStatus : Type 0 where
  draft validating stable failed : VersionStatus

pub data WorkflowStatus : Type 0 where
  draft running completed failed cancelled recovering : WorkflowStatus

pub data StageStatus : Type 0 where
  waiting running succeeded failed cancelled recovering : StageStatus

pub data Role : Type 0 where
  user assistant : Role

pub data Kind : Type 0 where
  agent manual restore : Kind

pub data ArtifactType : Type 0 where
  spec structure_plan file_ref compile_result : ArtifactType

pub data EventType : Type 0 where
  run_started stage_started stage_artifact message_delta : EventType
  file_written preview_ready run_failed run_completed : EventType

pub record Project : Type 0 where
  pub id : Key
  pub title : Text
  pub status : ProjectStatus
  pub stable_version_id : Option Key
  pub created_at : Time
  pub updated_at : Time

pub record Message : Type 0 where
  pub id : Key
  pub project_id : Key
  pub role : Role
  pub content : Text
  pub created_at : Time

pub record Run : Type 0 where
  pub id : Key
  pub project_id : Key
  pub status : RunStatus
  pub prompt : Text
  pub base_version_id : Option Key
  pub active_attempt_id : Option Key
  pub created_at : Time
  pub updated_at : Time

pub record Attempt : Type 0 where
  pub id : Key
  pub run_id : Key
  pub sequence : ℕ
  pub status : RunStatus
  pub auto_fix_round : ℕ
  pub created_at : Time

pub record StageArtifact : Type 0 where
  pub id : Key
  pub run_id : Key
  pub attempt_id : Key
  pub stage : Stage
  pub artifact_type : ArtifactType
  pub artifact_ref : Text
  pub created_at : Time

pub record Iteration : Type 0 where
  pub id : Key
  pub project_id : Key
  pub run_id : Option Key
  pub kind : Kind
  pub base_version_id : Option Key
  pub result_version_id : Option Key
  pub prompt : Option Text
  pub created_at : Time

pub record Version : Type 0 where
  pub id : Key
  pub project_id : Key
  pub iteration_id : Key
  pub status : VersionStatus
  pub files_hash : Option Text
  pub created_at : Time

pub record FileSnapshot : Type 0 where
  pub path : Text
  pub content : Text
  pub readonly : Bool

pub record File : Type 0 where
  pub id : Key
  pub version_id : Key
  pub snapshot : FileSnapshot

-- Of an event's payload, the two keys that the store reads.
pub record Payload : Type 0 where
  pub stage : Option Stage
  pub code : Option Text

pub record Event : Type 0 where
  pub id : Key
  pub run_id : Key
  pub seq : ℕ
  pub type : EventType
  pub payload : Payload
  pub created_at : Time

-- A response body, before it is written as JSON.
pub data Body : Type 0 where
  no_body : Body
  project_body : Project → Body
  run_body : Key → Body
  attempt_body : Key → Body
  iteration_body : Iteration → Body
  compile_errors_body : List CompileError → Body

pub data Endpoint : Type 0 where
  create_project create_run retry_run write_file restore_version : Endpoint

pub record LedgerRow : Type 0 where
  pub key : ℕ
  pub endpoint : Endpoint
  pub status_code : ℕ
  pub response_body : Body
  pub created_at : Time

pub record WorkflowState : Type 0 where
  pub project_id : Key
  pub workflow_run_id : Option Key
  pub status : WorkflowStatus
  pub state_version : ℕ
  pub updated_at : Time

pub record StageRun : Type 0 where
  pub workflow_run_id : Key
  pub attempt : ℕ
  pub attempt_id : Option Key
  pub stage_key : Stage
  pub status : StageStatus
  pub started_at : Option Time
  pub finished_at : Option Time
  pub updated_at : Time
  pub error_code : Option Text

pub data ConflictCode : Type 0 where
  completed_without_stable_preview preview_workflow_mismatch : ConflictCode
  required_stage_missing required_stage_not_succeeded : ConflictCode
  succeeded_stage_without_artifact : ConflictCode

-- Of the details of a conflict, what they hold besides its other columns.
pub record Conflict : Type 0 where
  pub id : Key
  pub project_id : Key
  pub workflow_run_id : Key
  pub conflict_code : ConflictCode
  pub state_version : ℕ
  pub conflicts : List ConflictCode
  pub first_detected_at : Time
  pub resolved_at : Option Time

-- The tables, each in the order of insertion.
pub record Db : Type 0 where
  pub projects : List Project
  pub messages : List Message
  pub runs : List Run
  pub attempts : List Attempt
  pub artifacts : List StageArtifact
  pub iterations : List Iteration
  pub versions : List Version
  pub files : List File
  pub events : List Event
  pub ledger : List LedgerRow
  pub workflows : List WorkflowState
  pub stage_runs : List StageRun
  pub conflicts : List Conflict

abbrev pub empty_db : Db
empty_db = record {
  projects = [];
  messages = [];
  runs = [];
  attempts = [];
  artifacts = [];
  iterations = [];
  versions = [];
  files = [];
  events = [];
  ledger = [];
  workflows = [];
  stage_runs = [];
  conflicts = [];
}

-- The details of a contract error.
pub data Details : Type 0 where
  no_details : Details
  out_of_range : ℕ → ℕ → ℕ → Details
  too_large : ℕ → ℕ → Details
  base_mismatch : Option Key → Key → Details
  active_run : Key → Details
  not_retryable : RunStatus → Key → Details

-- store.Error, or any other error: one that the database reports.
pub data Error : Type 0 where
  coded : ErrorCode → Text → Details → Error
  database : Error

-- What an operation takes from outside: the clock (`s.now`), the identifiers that `newID` returns
-- in this call, in order, and SHA-256 in hexadecimal.
pub record Env : Type 0 where
  pub now : Time
  pub new_id : ℕ → Key
  pub sha256 : Text → Text

abbrev pub is_active : RunStatus → Bool
is_active RunStatus.queued = true
is_active RunStatus.running = true
is_active _ = false

abbrev pub is_stable : VersionStatus → Bool
is_stable VersionStatus.stable = true
is_stable _ = false

abbrev pub is_draft : VersionStatus → Bool
is_draft VersionStatus.draft = true
is_draft _ = false
