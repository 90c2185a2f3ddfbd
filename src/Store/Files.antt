-- ===== src/Store/Files.antt =====
-- internal/store/files.go: the manual edit behind the compile gate, and the file tree.
pub mod Gate
pub mod Override
use vibe_forge.Base.{
  ℕ, Bool, false, not, Option, none, some, List, [], ◌∷◌, Text, codes, text_eq, length, leb, ◌==◌,
  if◌then◌else◌,
}
use vibe_forge.Contract.{validation_error, conflict, file_content_max_bytes, writable_file_path}
use vibe_forge.Compile.Report.{CompileError}
use vibe_forge.Compile.Validate.{validate}
use vibe_forge.Store.Model.{
  Key, Iteration, Kind, Version, VersionStatus, FileSnapshot, File, Body, Endpoint, Db, Env,
  no_details, too_large, coded,
}
use vibe_forge.Store.Table.{select_where}
use vibe_forge.Store.Rows.{
  project_of, insert_iteration, set_iteration_result, insert_version, insert_files,
  set_version_status, cas_stable,
}
use vibe_forge.Store.Pointer.{bump_project_workflow_snapshot}
use vibe_forge.Store.Runs.{refuse_active, lock_fails, lock_details}
use vibe_forge.Store.Hash.{files_hash, sort_by_path}
use vibe_forge.Store.Versions.{project_missing, base_moved}
use vibe_forge.Store.Ledger.{run_idempotent, IdempotentResult}
use vibe_forge.Store.Tx.{Tx, pure, query, or_fail, fail_if, ◌>>=◌, ◌>>◌}

unfoldable pub apply_override : List FileSnapshot → Text → Text → Bool → List FileSnapshot
apply_override [] path content readonly =
    record { path = path; content = content; readonly = readonly } ∷ []
apply_override (f ∷ files) path content readonly =
    let more = apply_override files path content readonly in
    if text_eq f.path path
    then record { path = path; content = content; readonly = readonly } ∷ files
    else f ∷ more

abbrev pub is_file_of : Key → File → Bool
is_file_of version f = f.version_id == version

abbrev pub snapshots : List File → List FileSnapshot
snapshots [] = []
snapshots (f ∷ files) = f.snapshot ∷ snapshots files

-- ORDER BY path ASC
unfoldable pub read_version_files : Key → Db → List FileSnapshot
read_version_files version db =
    sort_by_path (snapshots (select_where (is_file_of version) db.files))

-- The checks of WriteFile, in order; the stable version that the edit is based on.
unfoldable pub write_file_checks : Key → Text → Option Key → Tx Key
write_file_checks project content base = do
  fail_if (not (leb (length content) file_content_max_bytes)) (
      coded validation_error (codes "file content too large")
        (too_large file_content_max_bytes (length content)))
  found ← query λ db. project_of db project
  p ← or_fail project_missing found
  refuse_active (codes "project has an active run") project
  stable ←
      or_fail (coded conflict (codes "manual edit requires a stable version") no_details)
        p.stable_version_id
  fail_if (lock_fails base (some stable)) (
      coded conflict (codes "baseVersionId does not match stable version")
        (lock_details base (some stable)))
  pure stable

abbrev pub manual_iteration : Env → Key → Key → Option Key → Iteration
manual_iteration env project stable result = record {
  id = env.new_id 0;
  project_id = project;
  run_id = none;
  kind = Kind.manual;
  base_version_id = some stable;
  result_version_id = result;
  prompt = none;
  created_at = env.now;
}

abbrev manual_version : Env → Key → List FileSnapshot → Version
manual_version env project files = record {
  id = env.new_id 1;
  project_id = project;
  iteration_id = env.new_id 0;
  status = VersionStatus.draft;
  files_hash = some (files_hash env files);
  created_at = env.now;
}

-- The manual iteration and its version, a draft for now.
unfoldable pub write_draft : Env → Key → Key → List FileSnapshot → Tx (Unit {0})
write_draft env project stable files = do
  insert_iteration (manual_iteration env project stable none)
  insert_version (manual_version env project files)
  insert_files env 2 (env.new_id 1) files
  set_iteration_result (env.new_id 1) (env.new_id 0)

-- The gate passed: the draft becomes the stable version.
unfoldable pub accept_edit : Env → Key → Key → Tx (ℕ × Body)
accept_edit env project stable = do
  set_version_status VersionStatus.stable (env.new_id 1)
  swapped ← cas_stable env.now project (some stable) (env.new_id 1)
  fail_if (not swapped) base_moved
  bump_project_workflow_snapshot project env.now
  pure (202, Body.iteration_body (manual_iteration env project stable (some (env.new_id 1))))

-- The gate failed: the version stays in the history as failed.
unfoldable pub reject_edit : Env → List CompileError → Tx (ℕ × Body)
reject_edit env errors = do
  set_version_status VersionStatus.failed (env.new_id 1)
  pure (422, Body.compile_errors_body errors)

unfoldable pub write_file_body : Env → Key → Text → Option Key → Tx (ℕ × Body)
write_file_body env project content base = do
  stable ← write_file_checks project content base
  files ← query (read_version_files stable)
  write_draft env project stable (apply_override files writable_file_path content false)
  let result = validate content
  if result.pass then accept_edit env project stable else reject_edit env result.errors

unfoldable pub write_file : Env → Key → Text → Option Key → ℕ → Tx IdempotentResult
write_file env project content base key =
    run_idempotent env Endpoint.write_file key (write_file_body env project content base)

pub record FileTree : Type 0 where
  pub stable_version_id : Option Key
  pub files : List FileSnapshot
  pub writable_file_path : Text

abbrev tree_files : Option Key → Db → List FileSnapshot
tree_files none db = []
tree_files (some version) db = read_version_files version db

unfoldable pub list_files : Key → Tx FileTree
list_files project = do
  found ← query λ db. project_of db project
  p ← or_fail project_missing found
  files ← query (tree_files p.stable_version_id)
  pure (record {
    stable_version_id = p.stable_version_id;
    files = files;
    writable_file_path = writable_file_path;
  })
