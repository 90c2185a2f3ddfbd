-- ===== src/Api/Handlers.antt =====
-- internal/api/handlers.go, and retryRun and compileResult of agent_handlers.go: what a request does
-- to the tables, what it answers and which run it starts the agent loop for. A request comes with its
-- body as the decoder gives it; the key of the header stands first. A key that is empty is `none`.
pub mod Launch
use vibe_forge.Base.{
  ℕ, Bool, true, false, ◌||◌, not, Option, none, some, List, ◌++◌, Text, codes, ltb, if◌then◌else◌,
}
use vibe_forge.Contract.{ErrorCode, validation_error, dependency_unavailable}
use vibe_forge.Compile.Report.{CompileError}
use vibe_forge.Store.Model.{Key, Attempt, Body, Project, Version, Db, Env, Error}
use vibe_forge.Store.Tx.{Result, ok, err, in_tx}
use vibe_forge.Store.Ledger.{IdempotentResult}
use vibe_forge.Store.Projects
use vibe_forge.Store.Runs
use vibe_forge.Store.Events.{record_compile_result}
use vibe_forge.Store.Versions
use vibe_forge.Store.Drafts.{get_attempt_by_sequence}
use vibe_forge.Store.Files.{FileTree}
use vibe_forge.Store.Files
use vibe_forge.Store.Snapshot.{ProjectDetail}
use vibe_forge.Store.Snapshot
use vibe_forge.Store.Reads
use vibe_forge.Api.Errors.{ErrorResponse, write_contract_error, write_store_err}

-- What the handlers read of the server, and the report of the browser's compiler as JSON.
pub record Server : Type 0 where
  pub has_store : Bool
  pub model_configured : Bool
  pub has_loop : Bool
  pub marshal_report : ℕ → List CompileError → Text → Text

-- A body as the decoder gives it, or the decoder's error.
pub data Decoded (A : Type 0) : Type 0 where
  decoded : A → Decoded A
  undecoded : Text → Decoded A

pub data Response : Type 0 where
  failure : ErrorResponse → Response
  stored_body : ℕ → Body → Response
  projects : List Project → Response
  project_detail : ProjectDetail → Response
  file_tree : FileTree → Response
  versions : List Version → Response
  path_contents : List (Text × Text) → Response
  recorded : Response

-- The run is the one that the agent loop is started for.
pub record Handled : Type 0 where
  pub response : Response
  pub db : Db
  pub launched : Option Key

abbrev pub respond : Response → Db → Handled
respond response db = record { response = response; db = db; launched = none }

abbrev pub refuse : ErrorCode → Text → Db → Handled
refuse code message db = respond (failure (write_contract_error code message)) db

-- requireStore
abbrev pub with_store : Server → Db → Handled → Handled
with_store server db rest =
    if server.has_store
    then rest
    else refuse dependency_unavailable (codes "database is not configured") db

abbrev pub with_body : {A : Type 0} → Decoded A → Db → (A → Handled) → Handled
with_body (decoded a) db rest = rest a
with_body (undecoded message) db rest = refuse validation_error message db

unfoldable pub idempotency_key : Option ℕ → Option ℕ → Option ℕ
idempotency_key none body_key = body_key
idempotency_key (some key) body_key = some key

-- requireKey
abbrev pub with_key : Option ℕ → Db → (ℕ → Handled) → Handled
with_key none db rest = refuse validation_error (codes "Idempotency-Key is required") db
with_key (some key) db rest = rest key

-- The response of the store, or its error; nothing is started.
abbrev pub answer : {A : Type 0} → (A → Response) → Result A × Db → Handled
answer show (ok a, db) = respond (show a) db
answer show (err e, db) = respond (failure (write_store_err e)) db

abbrev pub stored : IdempotentResult → Response
stored r = stored_body r.status r.body

pub record ProjectBody : Type 0 where
  pub title : Text
  pub initial_prompt : Text
  pub body_key : Option ℕ

-- POST /api/projects
unfoldable pub create_project : Server → Env → Option ℕ → Decoded ProjectBody → Db → Handled
create_project server env header body db = with_store server db (
    with_body body db λ b.
      with_key (idempotency_key header b.body_key) db
        λ key. answer stored (in_tx (Projects.create_project env b.title b.initial_prompt key) db))

-- GET /api/projects
unfoldable pub list_projects : Server → Db → Handled
list_projects server db = with_store server db (respond (projects (Snapshot.list_projects db)) db)

-- GET /api/projects/{id}
unfoldable pub get_project : Server → Env → Key → Db → Handled
get_project server env project db =
    with_store server db (answer project_detail (in_tx (Snapshot.get_project env project) db))

pub record RunBody : Type 0 where
  pub prompt : Text
  pub base_version_id : Option Key
  pub body_key : Option ℕ

abbrev pub run_named : Body → Option Key
run_named (Body.run_body run) = some run
run_named _ = none

abbrev pub launch_if : Bool → Bool → Option Key → Option Key
launch_if true has_loop run = none
launch_if false false run = none
launch_if false true run = run

-- Behind CreateRun: the loop is started for a run that is created here.
abbrev pub after_create : Server → Result IdempotentResult × Db → Handled
after_create server (err e, db) = respond (failure (write_store_err e)) db
after_create server (ok r, db) =
    if server.model_configured
    then record {
      response = stored r;
      db = db;
      launched = launch_if r.replayed server.has_loop (run_named r.body);
    }
    else refuse dependency_unavailable (codes "model is not configured") db

-- POST /api/projects/{id}/runs
unfoldable pub create_run : Server → Env → Key → Option ℕ → Decoded RunBody → Db → Handled
create_run server env project header body db = with_store server db (
    with_body body db λ b. with_key (idempotency_key header b.body_key) db λ key.
      after_create server (
        in_tx (Runs.create_run env project b.prompt b.base_version_id key server.model_configured)
          db))

-- Behind RetryRun: the loop is started for the run whose attempt is new.
abbrev pub after_retry : Server → Key → Result IdempotentResult × Db → Handled
after_retry server run (err e, db) = respond (failure (write_store_err e)) db
after_retry server run (ok r, db) = record {
  response = stored r;
  db = db;
  launched = launch_if r.replayed server.has_loop (some run);
}

-- POST /api/runs/{id}/retry; of the body the key alone is used.
unfoldable pub retry_run : Server → Env → Key → Option ℕ → Decoded (Option ℕ) → Db → Handled
retry_run server env run header body db = with_store server db (
    if server.model_configured
    then (with_body body db λ body_key.
        with_key (idempotency_key header body_key) db
          λ key. after_retry server run (in_tx (Runs.retry_run env run key) db))
    else refuse dependency_unavailable (codes "model is not configured") db)

-- PUT /api/projects/{id}/files/{path...}, for every other path
unfoldable pub write_file_illegal_path : Text → Db → Handled
write_file_illegal_path path db =
    refuse validation_error
      (codes "only /src/App.tsx is writable; path " ++ path ++ codes " is read-only or invalid") db

-- GET /api/projects/{id}/files
unfoldable pub list_files : Server → Key → Db → Handled
list_files server project db =
    with_store server db (answer file_tree (in_tx (Files.list_files project) db))

pub record FileBody : Type 0 where
  pub content : Text
  pub base_version_id : Option Key
  pub body_key : Option ℕ

-- PUT /api/projects/{id}/files/src/App.tsx
unfoldable pub write_file : Server → Env → Key → Option ℕ → Decoded FileBody → Db → Handled
write_file server env project header body db = with_store server db (
    with_body body db λ b. with_key (idempotency_key header b.body_key) db λ key.
      answer stored (in_tx (Files.write_file env project b.content b.base_version_id key) db))

-- GET /api/projects/{id}/versions
unfoldable pub list_versions : Server → Key → Db → Handled
list_versions server project db =
    with_store server db (respond (versions (Reads.list_versions project db)) db)

-- GET /api/projects/{id}/versions/{versionId}/files
unfoldable pub version_files : Server → Key → Key → Db → Handled
version_files server project version db =
    with_store server db (answer path_contents (in_tx (Reads.get_version_files project version) db))

abbrev key_in : Decoded (Option ℕ) → Option ℕ
key_in (decoded key) = key
key_in (undecoded message) = none

-- POST /api/projects/{id}/versions/{versionId}/restore; a body that does not parse has no key.
unfoldable pub restore_version :
    Server → Env → Key → Key → Option ℕ → Decoded (Option ℕ) → Db → Handled
restore_version server env project version header body db = with_store server db (
    with_key (idempotency_key header (key_in body)) db
      λ key. answer stored (in_tx (Versions.restore_version env project version key) db))

pub record ReportBody : Type 0 where
  pub attempt : ℕ
  pub errors : List CompileError
  pub files_hash : Text

abbrev after_attempt : Server → Env → Key → ReportBody → Result Attempt × Db → Handled
after_attempt server env run b (err e, db) = respond (failure (write_store_err e)) db
after_attempt server env run b (ok a, db) =
    answer (λ artifact. recorded)
      (in_tx
        (record_compile_result env run a.id (server.marshal_report b.attempt b.errors b.files_hash))
        db)

-- POST /api/runs/{id}/compile-result; an attempt that is negative stands as 0.
unfoldable pub compile_result : Server → Env → Key → Decoded ReportBody → Db → Handled
compile_result server env run body db = with_store server db (
    with_body body db λ b.
      if ltb b.attempt 1
      then refuse validation_error (codes "attempt (int >= 1) is required") db
      else after_attempt server env run b (in_tx (get_attempt_by_sequence run b.attempt) db))
