-- ===== src/Store/Versions/Failing.antt =====
-- Versions that fail, and the projects (internal/store/version.go and draft.go).
use vibe_forge.Base.{◌≡◌, refl, Option, none, some, List, [], ◌∷◌, ◌++◌}
use vibe_forge.Store.Model.{Key, Project, Version, VersionStatus, File, Db, Env}
use vibe_forge.Store.Rows.{insert_version, set_version_status}
use vibe_forge.Store.Versions.{replay_or, CommitInput, fail_new_version, fail_version}
use vibe_forge.Store.Drafts.{find_draft, fail_draft, fail_draft_version, fail_run}
use vibe_forge.Store.Tx.{Tx, in_tx}
use vibe_forge.Store.Tx.Keeps.{Keeps, Keeps-write_if, Keeps-modify, keeps_rules, in_tx-keeps}
use vibe_forge.Store.Frame.{
  On, result-Keeps, files-Keeps, settle-Keeps, fetch-Keeps, update_run-Keeps, update_attempts-Keeps,
  bump-Keeps,
}

-- The projects are `before`.
abbrev pub SameProjects : List Project → List Project → List Version → List File → Type 0
SameProjects before projects versions files = projects ≡ before

module _ {before : List Project} where
  pub insert_version-Keeps : (v : Version) → Keeps (On (SameProjects before)) (insert_version v)
  unfolding insert_version
  insert_version-Keeps v = Keeps-write_if _ _ (λ db t h. h)

  pub set_status-Keeps :
      (s : VersionStatus) (v : Key) → Keeps (On (SameProjects before)) (set_version_status s v)
  unfolding set_version_status
  set_status-Keeps s v = Keeps-modify _ (λ db h. h)

pub files_grow :
    {before : List Project} (ps : List Project) (vs : List Version) (fs : List File) (f : File)
    → SameProjects before ps vs fs
    → SameProjects before ps vs (fs ++ f ∷ [])
files_grow ps vs fs f h = h

module _ (before : List Project) where
  abbrev Same : Db → Type 0
  Same = On (SameProjects before)

  fail_new_version-Keeps :
      (env : Env) (input : CommitInput) → Keeps Same (fail_new_version env input)
  unfolding fail_new_version
  fail_new_version-Keeps env input =
      search
        (
          keeps_rules,
          insert_version-Keeps,
          files-Keeps (SameProjects before) files_grow,
          result-Keeps (SameProjects before),
          settle-Keeps (SameProjects before),
        )
        depth 12

  replay-Keeps :
      (o : Option Key) (fresh : Tx Version) → Keeps Same fresh → Keeps Same (replay_or o fresh)
  replay-Keeps none fresh k = k
  replay-Keeps (some version) fresh k = fetch-Keeps (SameProjects before) version

  fail_version-Keeps : (env : Env) (input : CommitInput) → Keeps Same (fail_version env input)
  unfolding fail_version
  fail_version-Keeps env input = search (keeps_rules, replay-Keeps, fail_new_version-Keeps)

  pub find_draft-Keeps : (draft : Key) → Keeps Same (find_draft draft)
  unfolding find_draft
  find_draft-Keeps draft = search keeps_rules

  fail_draft-Keeps :
      (env : Env) (v : Version) (run attempt : Option Key)
      → Keeps Same (fail_draft env v run attempt)
  unfolding fail_draft
  fail_draft-Keeps env v run attempt = search (
    keeps_rules,
    set_status-Keeps,
    result-Keeps (SameProjects before),
    settle-Keeps (SameProjects before),
  )

  pub fail_draft_version-Keeps :
      (env : Env) (draft : Key) (run attempt : Option Key)
      → Keeps Same (fail_draft_version env draft run attempt)
  unfolding fail_draft_version
  fail_draft_version-Keeps env draft run attempt =
      search (keeps_rules, find_draft-Keeps, fail_draft-Keeps)

  fail_run-Keeps : (env : Env) (run : Key) → Keeps Same (fail_run env run)
  unfolding fail_run
  fail_run-Keeps env run = search (
    keeps_rules,
    update_attempts-Keeps (SameProjects before),
    update_run-Keeps (SameProjects before),
    bump-Keeps (SameProjects before),
  )

-- A failed version, a failed draft and a failed run leave every project as it was, and with it the
-- stable version, whether the transaction commits or rolls back.
pub failing-projects :
    (env : Env) (input : CommitInput) (draft run_id : Key) (run attempt : Option Key) (db : Db)
    → ((in_tx (fail_version env input) db).1.projects ≡ db.projects)
      × ((in_tx (fail_draft_version env draft run attempt) db).1.projects ≡ db.projects)
      × ((in_tx (fail_run env run_id) db).1.projects ≡ db.projects)
failing-projects env input draft run_id run attempt db = (
  in_tx-keeps _ (fail_version-Keeps db.projects env input) db refl,
  in_tx-keeps _ (fail_draft_version-Keeps db.projects env draft run attempt) db refl,
  in_tx-keeps _ (fail_run-Keeps db.projects env run_id) db refl,
)
