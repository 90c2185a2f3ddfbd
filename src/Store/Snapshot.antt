-- ===== src/Store/Snapshot.antt =====
-- internal/store/workflow_state.go and project.go: GetProject with the snapshot of its workflow, and
-- ListProjects.
use mathlib.Core.List.{reverse}
use vibe_forge.Base.{
  ℕ, Bool, false, ◌&&◌, Option, none, some, List, [], ◌∷◌, codes, ◌==◌, if◌then◌else◌,
}
use vibe_forge.Contract.{Stage, not_found}
use vibe_forge.Store.Model.{
  Key, Time, Project, Message, Run, Version, StageArtifact, StageRun, WorkflowStatus, WorkflowState,
  ConflictCode, Db, Env, no_details, coded, is_active,
}
use vibe_forge.Store.Table.{select_where, sort_by, max_where, update_key, first_where}
use vibe_forge.Store.Rows.{opt_is, project_of, run_of}
use vibe_forge.Store.Pointer.{workflow_of}
use vibe_forge.Store.Stages.{stage_number}
use vibe_forge.Store.Recovery.{same_stage, load_project_workflow, recover_workflow}
use vibe_forge.Store.Provenance.{preview_workflow_run}
use vibe_forge.Store.Reconcile.{reconcile_consistency}
use vibe_forge.Store.Tx.{Tx, pure, query, modify, or_fail, ◌>>=◌, ◌>>◌}

abbrev is_stage_of_run : Key → ℕ → StageRun → Bool
is_stage_of_run run attempt s = s.workflow_run_id == run && s.attempt == attempt

abbrev is_run_stage : Key → StageRun → Bool
is_run_stage run s = s.workflow_run_id == run

abbrev latest_stages_of : Db → Option Key → List StageRun
latest_stages_of db none = []
latest_stages_of db (some run) =
    let attempt = max_where (is_run_stage run) (λ (s : StageRun). s.attempt) db.stage_runs in
    sort_by (λ (s : StageRun). stage_number s.stage_key)
      (select_where (is_stage_of_run run attempt) db.stage_runs)

-- The rows of the run's last attempt, in the order of the stages.
unfoldable pub load_latest_stages : Option Key → Db → List StageRun
load_latest_stages run db = latest_stages_of db run

-- A stage with the artifact that it is shown with.
pub record StageView : Type 0 where
  pub stage_run : StageRun
  pub artifact : Option StageArtifact

abbrev first_attempt : List StageRun → Option Key
first_attempt [] = none
first_attempt (s ∷ stages) = s.attempt_id

abbrev is_shown : Key → Option Key → StageArtifact → Bool
is_shown run none a = a.run_id == run
is_shown run (some attempt) a = a.run_id == run && a.attempt_id == attempt

unfoldable pub artifacts_for_run_attempt :
    List StageArtifact → Key → List StageRun → List StageArtifact
artifacts_for_run_attempt all run stages = select_where (is_shown run (first_attempt stages)) all

abbrev later_of : StageArtifact → Option StageArtifact → StageArtifact
later_of a none = a
later_of a (some b) = b

-- The last of the artifacts is the one that stays.
unfoldable pub last_artifact : Stage → List StageArtifact → Option StageArtifact
last_artifact s [] = none
last_artifact s (a ∷ artifacts) =
    let more = last_artifact s artifacts in
    if same_stage a.stage s then some (later_of a more) else more

unfoldable pub hydrate : List StageArtifact → List StageRun → List StageView
hydrate out [] = []
hydrate out (s ∷ stages) =
    record { stage_run = s; artifact = last_artifact s.stage_key out } ∷ hydrate out stages

abbrev bare : List StageRun → List StageView
bare [] = []
bare (s ∷ stages) = record { stage_run = s; artifact = none } ∷ bare stages

-- The rows that GetProject reads.
pub record ProjectRows : Type 0 where
  pub messages : List Message
  pub runs : List Run
  pub versions : List Version
  pub artifacts : List StageArtifact

pub record ProjectDetail : Type 0 where
  pub project : Project
  pub rows : ProjectRows
  pub workflow_status : WorkflowStatus
  pub workflow_run_id : Option Key
  pub state_version : ℕ
  pub state_updated_at : Time
  pub response_updated_at : Time
  pub stages : List StageView
  pub preview_version : Option Key
  pub preview_run : Option Key
  pub conflict_codes : List ConflictCode
  pub latest_run : Option Run
  pub active_run : Option Run

abbrev of_project : Key → Db → ProjectRows
of_project project db = record {
  messages =
      sort_by (λ (m : Message). m.created_at)
        (select_where (λ (m : Message). m.project_id == project) db.messages);
  runs =
      sort_by (λ (r : Run). r.created_at)
        (select_where (λ (r : Run). r.project_id == project) db.runs);
  versions =
      sort_by (λ (v : Version). v.created_at)
        (select_where (λ (v : Version). v.project_id == project) db.versions);
  artifacts =
      sort_by (λ (a : StageArtifact). a.created_at)
        (select_where
          (λ a. elim (run_of db a.run_id) [ none ↦ false | some r ↦ r.project_id == project ])
          db.artifacts);
}

-- scanMessages, scanRuns, scanVersions and scanArtifacts.
unfoldable pub project_rows : Key → Db → ProjectRows
project_rows project db = of_project project db

abbrev is_followed : Option Key → Run → Bool
is_followed run r = opt_is run r.id

unfoldable pub last_run : List Run → Option Run
last_run [] = none
last_run (r ∷ []) = some r
last_run (r ∷ s ∷ runs) = last_run (s ∷ runs)

abbrev or_last : List Run → Option Run → Option Run
or_last runs none = last_run runs
or_last runs (some r) = some r

abbrev if_active : Option Run → Option Run
if_active none = none
if_active (some r) = if is_active r.status then some r else none

-- The stages are shown with artifacts where their run is one of the project's.
abbrev shown_stages : ProjectRows → List StageRun → Option Run → List StageView
shown_stages rows stages none = bare stages
shown_stages rows stages (some r) =
    hydrate (artifacts_for_run_attempt rows.artifacts r.id stages) stages

unfoldable pub detail :
    Env
    → Project
    → ProjectRows
    → WorkflowState
    → List StageRun
    → Option Key
    → List ConflictCode
    → WorkflowState
    → ProjectDetail
detail env p rows state stages preview conflicts refreshed =
    let followed = first_where (is_followed refreshed.workflow_run_id) rows.runs in
    let latest = or_last rows.runs followed in
    record {
      project = p;
      rows = rows;
      workflow_status = refreshed.status;
      workflow_run_id = refreshed.workflow_run_id;
      state_version = refreshed.state_version;
      state_updated_at = refreshed.updated_at;
      response_updated_at = env.now;
      stages = shown_stages rows stages followed;
      preview_version = p.stable_version_id;
      preview_run = preview;
      conflict_codes = conflicts;
      latest_run = latest;
      active_run = if_active latest;
    }

abbrev pub or_recover : Env → Project → Option WorkflowState → Tx WorkflowState
or_recover env p (some state) = pure state
or_recover env p none = recover_workflow env p.id p.stable_version_id

unfoldable pub load_workflow_snapshot : Env → Project → ProjectRows → Tx ProjectDetail
load_workflow_snapshot env p rows = do
  found ← query λ db. workflow_of db p.id
  state ← or_recover env p found
  stages ← query (load_latest_stages state.workflow_run_id)
  preview ← query (preview_workflow_run p.stable_version_id)
  conflicts ← reconcile_consistency env p.id p.stable_version_id state stages preview
  refreshed ← load_project_workflow p.id
  pure (detail env p rows state stages preview conflicts refreshed)

abbrev pub touched : Time → Project → Project
touched now p = record p { updated_at = now }

-- UPDATE projects SET updated_at = ? WHERE id = ?
unfoldable pub touch_project : Key → Time → Tx (Unit {0})
touch_project project now = modify λ db. record db {
  projects = update_key (λ (p : Project). p.id) project (touched now) db.projects;
}

-- Reading a project moves it to the top of the list.
unfoldable pub get_project : Env → Key → Tx ProjectDetail
get_project env project = do
  found ← query λ db. project_of db project
  p ← or_fail (coded not_found (codes "project not found") no_details) found
  touch_project project env.now
  rows ← query (project_rows project)
  load_workflow_snapshot env (touched env.now p) rows

-- ORDER BY updated_at DESC
unfoldable pub list_projects : Db → List Project
list_projects db = reverse (sort_by (λ (p : Project). p.updated_at) db.projects)
