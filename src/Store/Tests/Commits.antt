-- ===== src/Store/Tests/Commits.antt =====
-- internal/store: instances of the theorems on versions.
use vibe_forge.Base.{◌↔◌, ◌≡◌, refl, true, false, none, some, [], ◌∷◌, codes}
use vibe_forge.Store.Model.{ProjectStatus, Version, VersionStatus, Iteration, Kind, Body, Db}
use vibe_forge.Store.Rows.{iteration_of, project_of, version_of, base_holds}
use vibe_forge.Store.Versions.{commit_version, fail_version, restore_version_body}
use vibe_forge.Store.Versions.Failing.{failing-projects}
use vibe_forge.Store.Versions.Swap.{commit_version-swaps, commit_version-lost_update}
use vibe_forge.Store.Drafts.{fail_draft_version, fail_run}
use vibe_forge.Store.Operation.{Operation, perform, at_start, next}
use vibe_forge.Store.Sound.Tables.{serves, stable_of}
use vibe_forge.Store.Sound.History.{reached-serves, stable_version-lasts}
use vibe_forge.Store.Tx.{in_tx, ok}
use vibe_forge.Store.Scenario.{
  owner, row_of_100, env_at, running, commit_input, committed, reached_committed, store_code,
  committed_stable, first_version, committed_holds, first_iteration, running_iteration,
}
use vibe_forge.Store.Drafts.{promote_draft_version, fail_draft_version}
use vibe_forge.Store.Table.{first_where}
use vibe_forge.Store.Runs.{active_run_of}
use vibe_forge.Store.Versions.{is_version_of}
use vibe_forge.Store.Versions.Success.{
  Restores, Restorable, IsIdle-iff, restore_version_succeeds_iff,
}

reached-serves_example : serves (version_of committed 300) 100 ≡ true
reached-serves_example = reached-serves reached_committed 100 300 committed_stable

-- The version is made to fail afterwards, in vain.
abbrev failed_later : Db
failed_later = perform (env_at 400) (Operation.fail_draft_version 300 none none) committed

stable_version-lasts_example : version_of failed_later 300 ≡ some first_version
stable_version-lasts_example =
    stable_version-lasts reached_committed
      (next at_start (env_at 400) (Operation.fail_draft_version 300 none none)) first_version
      committed_holds refl

commit_runs : commit_version (env_at 300) commit_input running ≡ ok (first_version, committed)
unfolding store_code
commit_runs = refl

commit_version-swaps_example :
    (base_holds (project_of running 100) none ≡ true)
    × (stable_of 100 committed.projects ≡ some 300)
commit_version-swaps_example =
    commit_version-swaps (env_at 300) commit_input first_iteration running committed first_version
      running_iteration refl commit_runs

-- Another writer has set the stable version in the meantime.
abbrev overtaken : Db
overtaken = record running {
  projects =
      record {
        id = 100;
        title = codes "a counter";
        status = ProjectStatus.active;
        stable_version_id = some 299;
        created_at = 100;
        updated_at = 250;
      }
      ∷ [];
}

overtaken_iteration : iteration_of overtaken 202 ≡ some first_iteration
unfolding store_code
overtaken_iteration = refl

overtaken_base : base_holds (project_of overtaken 100) none ≡ false
unfolding store_code
overtaken_base = refl

commit_version-lost_update_example :
    (in_tx (commit_version (env_at 300) commit_input) overtaken).1 ≡ overtaken
commit_version-lost_update_example =
    commit_version-lost_update (env_at 300) commit_input first_iteration overtaken
      overtaken_iteration refl overtaken_base

failing-projects_example :
    ((in_tx (fail_version (env_at 300) commit_input) running).1.projects ≡ running.projects)
    × ((in_tx (fail_draft_version (env_at 300) 300 none none) running).1.projects
        ≡ running.projects)
    × ((in_tx (fail_run (env_at 300) 200) running).1.projects ≡ running.projects)
failing-projects_example = failing-projects (env_at 300) commit_input 300 200 none none running

-- The draft 300 of the iteration 202, and its promotion.
abbrev drafted : Db
drafted = perform (env_at 300) (Operation.create_draft_version 100 202 []) running

abbrev draft_version : Version
draft_version = record first_version { status = VersionStatus.draft }

drafted_holds : version_of drafted 300 ≡ some draft_version
unfolding store_code
drafted_holds = refl

drafted_iteration : iteration_of drafted 202 ≡ some first_iteration
unfolding store_code
drafted_iteration = refl

abbrev promoted : Db
promoted = perform (env_at 400) (Operation.promote_draft_version 300 (some 200) (some 201)) drafted

promotion_runs :
    promote_draft_version (env_at 400) 300 (some 200) (some 201) drafted
    ≡ ok (first_version, promoted)
unfolding store_code
promotion_runs = refl

abbrev restoring : Iteration
restoring = record {
  id = 400;
  project_id = 100;
  run_id = none;
  kind = Kind.restore;
  base_version_id = some 300;
  result_version_id = some 300;
  prompt = none;
  created_at = 400;
}

abbrev restored : Db
restored = (in_tx (restore_version_body (env_at 400) 100 300) committed).1

restore_runs :
    restore_version_body (env_at 400) 100 300 committed
    ≡ ok ((202, Body.iteration_body restoring), restored)
unfolding store_code
restore_runs = refl

restored_found : first_where (is_version_of 100 300) committed.versions ≡ some first_version
unfolding store_code
restored_found = refl

nothing_active : active_run_of 100 committed ≡ none
unfolding store_code
nothing_active = refl

unused_iteration : iteration_of committed 400 ≡ none
unfolding store_code
unused_iteration = refl

restore_version_succeeds_iff_example :
    Restores (env_at 400) 100 300 committed ↔ Restorable 100 300 committed
restore_version_succeeds_iff_example =
    restore_version_succeeds_iff (env_at 400) 100 300 committed unused_iteration

-- The right side holds there.
committed-Restorable : Restorable 100 300 committed
committed-Restorable = (
  (first_version, restored_found, refl),
  (IsIdle-iff 100 committed).0 nothing_active,
  (owner, row_of_100),
)
