-- ===== src/Store/Tests/Reads.antt =====
-- internal/store: a draft that is read back.
use vibe_forge.Base.{◌≡◌, refl, true, false, some, List, [], ◌∷◌, codes}
use vibe_forge.Store.Model.{FileSnapshot, Version, VersionStatus, Db}
use vibe_forge.Store.Hash.{sort_by_path, files_hash}
use vibe_forge.Store.Table.{select_where}
use vibe_forge.Store.Files.{is_file_of}
use vibe_forge.Store.Drafts.{create_draft_version}
use vibe_forge.Store.Operation.{Operation, perform}
use vibe_forge.Store.Tx.{ok}
use vibe_forge.Store.Scenario.{env_at, running, store_code}
use vibe_forge.Store.Reads.{get_version_files_snapshot}
use vibe_forge.Store.Reads.Digest.{create_draft_version-reads_back}

abbrev two_files : List FileSnapshot
two_files =
    record { path = codes "/b"; content = codes "x"; readonly = false }
    ∷ record { path = codes "/a"; content = []; readonly = true }
    ∷ []

abbrev drafted : Db
drafted = perform (env_at 400) (Operation.create_draft_version 100 202 two_files) running

abbrev draft : Version
draft = record {
  id = 400;
  project_id = 100;
  iteration_id = 202;
  status = VersionStatus.draft;
  files_hash = some (files_hash (env_at 400) two_files);
  created_at = 400;
}

draft_stored : create_draft_version (env_at 400) 100 202 two_files running ≡ ok (draft, drafted)
unfolding store_code
draft_stored = refl

no_file_yet : select_where (is_file_of 400) running.files ≡ []
unfolding store_code
no_file_yet = refl

create_draft_version-reads_back_example :
    (get_version_files_snapshot 400 drafted ≡ sort_by_path two_files)
    × (draft.files_hash ≡ some (files_hash (env_at 400) (get_version_files_snapshot 400 drafted)))
create_draft_version-reads_back_example =
    create_draft_version-reads_back (env_at 400) 100 202 two_files running drafted draft
      draft_stored no_file_yet
