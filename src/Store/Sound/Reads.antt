-- ===== src/Store/Sound/Reads.antt =====
-- GetProject under the invariant of the stable version: it writes the project's time of update, and
-- the workflow that it recovers and compares.
use vibe_forge.Base.{refl, Option, none, some, List, [], ◌∷◌, arith}
use vibe_forge.Contract.{Stage}
use vibe_forge.Store.Model.{
  Key, Time, Project, Version, Run, Attempt, StageRun, WorkflowState, ConflictCode, Env,
}
use vibe_forge.Store.Table.{update_key, by_key-update}
use vibe_forge.Store.Recovery.{
  Evidence, insert_stage_run, insert_workflow, backfill_stages, recover_run, recover_latest,
  recover_workflow,
}
use vibe_forge.Store.Reconcile.{
  resolve_conflicts, write_conflicts, settle_conflicts, reconcile_run, reconcile,
  reconcile_consistency,
}
use vibe_forge.Store.Snapshot.{
  ProjectRows, or_recover, load_workflow_snapshot, touched, touch_project, get_project,
}
use vibe_forge.Store.Frame.{On, bump-Keeps}
use vibe_forge.Store.Tx.Keeps.{Keeps, Keeps-modify, Keeps-write_if, Keeps-bind, keeps_rules}
use vibe_forge.Store.Sound.Tables.{Kept, IsSound, project_id}
use vibe_forge.Store.Sound.Steps.{Tables, Sound}

module _ (P : Tables) where
  stage_run-Keeps : (s : StageRun) → Keeps (On P) (insert_stage_run s)
  unfolding insert_stage_run
  stage_run-Keeps s = Keeps-write_if _ _ (λ db t h. h)

  workflow-Keeps : (w : WorkflowState) → Keeps (On P) (insert_workflow w)
  unfolding insert_workflow
  workflow-Keeps w = Keeps-write_if _ _ (λ db t h. h)

  backfill-Keeps :
      (r : Run) (a : Option Attempt) (ev : Evidence) (stages : List Stage)
      → Keeps (On P) (backfill_stages r a ev stages)
  unfolding backfill_stages
  backfill-Keeps r a ev [] = search keeps_rules
  backfill-Keeps r a ev (s ∷ stages) =
      Keeps-bind _ _ (stage_run-Keeps _)
        λ u. Keeps-bind _ _ (backfill-Keeps r a ev stages) λ more. search keeps_rules

  recover_run-Keeps :
      (env : Env) (project : Key) (r : Run) → Keeps (On P) (recover_run env project r)
  unfolding recover_run
  recover_run-Keeps env project r = search (keeps_rules, backfill-Keeps, workflow-Keeps) depth 14

  latest-Keeps :
      (env : Env) (project : Key) (stable : Option Key) (o : Option Run)
      → Keeps (On P) (recover_latest env project stable o)
  latest-Keeps env project stable none = search (keeps_rules, workflow-Keeps)
  latest-Keeps env project stable (some r) = recover_run-Keeps env project r

  recover-Keeps :
      (env : Env) (project : Key) (stable : Option Key)
      → Keeps (On P) (recover_workflow env project stable)
  unfolding recover_workflow
  recover-Keeps env project stable = search (keeps_rules, latest-Keeps)

  or_recover-Keeps :
      (env : Env) (p : Project) (o : Option WorkflowState) → Keeps (On P) (or_recover env p o)
  or_recover-Keeps env p none = recover-Keeps env p.id p.stable_version_id
  or_recover-Keeps env p (some state) = search keeps_rules

  conflicts-Keeps :
      (env : Env) (project run : Key) (state : WorkflowState) (codes : List ConflictCode)
      → Keeps (On P) (write_conflicts env project run state codes)
  unfolding write_conflicts
  conflicts-Keeps env project run state codes = Keeps-modify _ (λ db h. h)

  resolve-Keeps : (project : Key) (now : Time) → Keeps (On P) (resolve_conflicts project now)
  unfolding resolve_conflicts
  resolve-Keeps project now = Keeps-modify _ (λ db h. h)

  settle-Keeps :
      (env : Env) (project run : Key) (state : WorkflowState) (codes : List ConflictCode)
      → Keeps (On P) (settle_conflicts env project run state codes)
  unfolding settle_conflicts
  settle-Keeps env project run state [] = search (keeps_rules, resolve-Keeps, bump-Keeps)
  settle-Keeps env project run state (c ∷ cs) = search (keeps_rules, conflicts-Keeps, bump-Keeps)

  reconcile_run-Keeps :
      (env : Env) (project : Key) (stable preview : Option Key) (state : WorkflowState)
      (stages : List StageRun) (run : Key)
      → Keeps (On P) (reconcile_run env project stable state stages preview run)
  unfolding reconcile_run
  reconcile_run-Keeps env project stable preview state stages run =
      search (keeps_rules, settle-Keeps) depth 14

  reconcile-Keeps :
      (env : Env) (project : Key) (stable preview : Option Key) (state : WorkflowState)
      (stages : List StageRun) (o : Option Key)
      → Keeps (On P) (reconcile env project stable state stages preview o)
  reconcile-Keeps env project stable preview state stages none = search keeps_rules
  reconcile-Keeps env project stable preview state stages (some run) =
      reconcile_run-Keeps env project stable preview state stages run

  consistency-Keeps :
      (env : Env) (project : Key) (stable preview : Option Key) (state : WorkflowState)
      (stages : List StageRun)
      → Keeps (On P) (reconcile_consistency env project stable state stages preview)
  unfolding reconcile_consistency
  consistency-Keeps env project stable preview state stages =
      reconcile-Keeps env project stable preview state stages state.workflow_run_id

  pub snapshot-Keeps :
      (env : Env) (p : Project) (rows : ProjectRows)
      → Keeps (On P) (load_workflow_snapshot env p rows)
  unfolding load_workflow_snapshot
  snapshot-Keeps env p rows = search (keeps_rules, or_recover-Keeps, consistency-Keeps) depth 20

module _ {K : Kept} where
  touched-IsSound :
      (projects : List Project) (versions : List Version) (project : Key) (now : Time)
      → IsSound K projects versions
      → IsSound K (update_key project_id project (touched now) projects) versions
  touched-IsSound projects versions project now h = record {
    at = λ p v s.
        ground
          (arith, h.at p v, by_key-update project_id p project (touched now) projects (λ q. refl));
    keyed = h.keyed;
    lasts = h.lasts;
  }

  touch-Sound : (project : Key) (now : Time) → Keeps (On (Sound K)) (touch_project project now)
  unfolding touch_project
  touch-Sound project now =
      Keeps-modify _ λ db h. touched-IsSound db.projects db.versions project now h

  pub get_project-Sound :
      (env : Env) (project : Key) → Keeps (On (Sound K)) (get_project env project)
  unfolding get_project
  get_project-Sound env project = search (keeps_rules, touch-Sound, snapshot-Keeps) depth 20
