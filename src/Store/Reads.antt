-- ===== src/Store/Reads.antt =====
-- internal/store: the reads that list rows, ListVersions and GetVersionFiles of version.go,
-- ListStageArtifacts and GetVersionFilesSnapshot of draft.go.
pub mod Digest
use vibe_forge.Base.{Bool, not, List, [], ◌∷◌, Text, codes, ◌==◌}
use vibe_forge.Contract.{not_found}
use vibe_forge.Store.Model.{Key, Version, FileSnapshot, StageArtifact, Db, no_details, coded}
use vibe_forge.Store.Table.{first_where, select_where, sort_by}
use vibe_forge.Store.Rows.{is_some}
use vibe_forge.Store.Versions.{is_version_of}
use vibe_forge.Store.Files.{read_version_files}
use vibe_forge.Store.Tx.{Tx, pure, query, fail_if, ◌>>=◌, ◌>>◌}

-- ORDER BY created_at ASC
unfoldable pub list_versions : Key → Db → List Version
list_versions project db =
    sort_by (λ (v : Version). v.created_at)
      (select_where (λ (v : Version). v.project_id == project) db.versions)

-- The map from paths to contents, in the order of the paths.
abbrev contents : List FileSnapshot → List (Text × Text)
contents [] = []
contents (f ∷ files) = (f.path, f.content) ∷ contents files

unfoldable pub get_version_files : Key → Key → Tx (List (Text × Text))
get_version_files project version = do
  exists ← query λ db. is_some (first_where (is_version_of project version) db.versions)
  fail_if (not exists) (coded not_found (codes "version not found") no_details)
  query λ db. contents (read_version_files version db)

-- ORDER BY created_at ASC
unfoldable pub list_stage_artifacts : Key → Db → List StageArtifact
list_stage_artifacts run db =
    sort_by (λ (a : StageArtifact). a.created_at)
      (select_where (λ (a : StageArtifact). a.run_id == run) db.artifacts)

unfoldable pub get_version_files_snapshot : Key → Db → List FileSnapshot
get_version_files_snapshot version db = read_version_files version db
