-- ===== src/Store/Reconcile.antt =====
-- internal/store/workflow_state.go: reconcileConsistencyTx, which compares a completed workflow with
-- its stages, artifacts and preview, and records what does not fit.
pub mod Consistent
use vibe_forge.Base.{
  ℕ, suc, ◌+◌, Bool, true, false, ◌&&◌, ◌||◌, not, any, Option, none, some, List, [], ◌∷◌, ◌++◌,
  ◌==◌, length, if◌then◌else◌,
}
use vibe_forge.Contract.{Stage, stage_order}
use vibe_forge.Store.Model.{
  Key, Time, Run, RunStatus, StageArtifact, StageStatus, StageRun, WorkflowStatus, WorkflowState,
  ConflictCode, Conflict, completed_without_stable_preview, preview_workflow_mismatch,
  required_stage_missing, required_stage_not_succeeded, succeeded_stage_without_artifact, Db, Env,
  database,
}
use vibe_forge.Store.Table.{select_where, update_where, sort_by, first_where, count_where}
use vibe_forge.Store.Rows.{is_some, opt_is, run_of}
use vibe_forge.Store.Pointer.{bump_workflow_for_run}
use vibe_forge.Store.Recovery.{same_stage}
use vibe_forge.Store.Tx.{Tx, pure, query, modify, or_fail, ◌>>=◌, ◌>>◌}

abbrev pub code_rank : ConflictCode → ℕ
code_rank completed_without_stable_preview = 1
code_rank preview_workflow_mismatch = 2
code_rank required_stage_missing = 3
code_rank required_stage_not_succeeded = 4
code_rank succeeded_stage_without_artifact = 5

abbrev same_code : ConflictCode → ConflictCode → Bool
same_code a b = code_rank a == code_rank b

abbrev pub is_open : Key → Conflict → Bool
is_open project c = c.project_id == project && not (is_some c.resolved_at)

abbrev codes_of : List Conflict → List ConflictCode
codes_of [] = []
codes_of (c ∷ cs) = c.conflict_code ∷ codes_of cs

-- ORDER BY conflict_code: the codes stand in the order of their ranks.
unfoldable pub open_conflict_codes : Key → Db → List ConflictCode
open_conflict_codes project db =
    sort_by code_rank (codes_of (select_where (is_open project) db.conflicts))

abbrev pub stage_succeeded : StageStatus → Bool
stage_succeeded StageStatus.succeeded = true
stage_succeeded _ = false

-- WHERE run_id = ? AND stage = ? AND (? IS NULL OR attempt_id = ?)
abbrev pub is_artifact_of : Key → StageRun → StageArtifact → Bool
is_artifact_of run s a = elim s.attempt_id [
  | none ↦ a.run_id == run && same_stage a.stage s.stage_key
  | some attempt ↦ a.run_id == run && same_stage a.stage s.stage_key && a.attempt_id == attempt
]

-- The first stage that does not fit ends the loop.
unfoldable pub stage_conflicts : Key → Db → List StageRun → List ConflictCode
stage_conflicts run db [] = []
stage_conflicts run db (s ∷ stages) =
    let more = stage_conflicts run db stages in
    if stage_succeeded s.status
    then (if count_where (is_artifact_of run s) db.artifacts == 0
        then succeeded_stage_without_artifact ∷ []
        else more)
    else required_stage_not_succeeded ∷ []

abbrev code_if : Bool → ConflictCode → List ConflictCode
code_if true code = code ∷ []
code_if false code = []

abbrev pub stages_conflicts : Key → Db → List StageRun → List ConflictCode
stages_conflicts run db stages =
    if length stages == length stage_order
    then stage_conflicts run db stages
    else required_stage_missing ∷ []

-- The conflicts of a run that succeeded.
unfoldable pub conflicts_of : Key → Option Key → Option Key → List StageRun → Db → List ConflictCode
conflicts_of run stable preview stages db =
    code_if (not (is_some stable)) completed_without_stable_preview
    ++ code_if (not (opt_is preview run)) preview_workflow_mismatch
    ++ stages_conflicts run db stages

abbrev is_conflict : Key → Key → ConflictCode → Conflict → Bool
is_conflict project run code c =
    c.project_id == project && c.workflow_run_id == run && same_code c.conflict_code code

-- INSERT … ON CONFLICT(project_id, workflow_run_id, conflict_code) DO UPDATE, one for each code; the
-- identifiers are those from `n` on.
unfoldable pub record_conflicts :
    Env → ℕ → Key → Key → ℕ → List ConflictCode → List ConflictCode → List Conflict → List Conflict
record_conflicts env n project run version all [] rows = rows
record_conflicts env n project run version all (code ∷ cs) rows =
    record_conflicts env (suc n) project run version all cs (
      if is_some (first_where (is_conflict project run code) rows)
      then update_where (is_conflict project run code)
          (λ c. record c { state_version = version; conflicts = all; resolved_at = none }) rows
      else rows
        ++ record {
          id = env.new_id n;
          project_id = project;
          workflow_run_id = run;
          conflict_code = code;
          state_version = version;
          conflicts = all;
          first_detected_at = env.now;
          resolved_at = none;
        }
          ∷ [])

unfoldable pub write_conflicts : Env → Key → Key → WorkflowState → List ConflictCode → Tx (Unit {0})
write_conflicts env project run state codes = modify λ db. record db {
  conflicts = record_conflicts env 0 project run state.state_version codes codes db.conflicts;
}

-- UPDATE workflow_state_conflicts SET resolved_at = ? WHERE project_id = ? AND resolved_at IS NULL
unfoldable pub resolve_conflicts : Key → Time → Tx (Unit {0})
resolve_conflicts project now = modify λ db. record db {
  conflicts =
      update_where (is_open project) (λ c. record c { resolved_at = some now }) db.conflicts;
}

abbrev pub is_recovering_workflow : WorkflowStatus → Bool
is_recovering_workflow WorkflowStatus.recovering = true
is_recovering_workflow _ = false

-- uniqueStrings: the first of equal codes stays.
unfoldable pub unique_codes : List ConflictCode → List ConflictCode → List ConflictCode
unique_codes seen [] = []
unique_codes seen (c ∷ cs) =
    let more = unique_codes (c ∷ seen) cs in
    let past = unique_codes seen cs in if any (same_code c) seen then past else c ∷ more

-- The outcome of the comparison, written down.
unfoldable pub settle_conflicts :
    Env → Key → Key → WorkflowState → List ConflictCode → Tx (List ConflictCode)
settle_conflicts env project run state [] = do
  resolve_conflicts project env.now
  if is_recovering_workflow state.status
      then bump_workflow_for_run run WorkflowStatus.completed env.now
      else pure tt
  pure []
settle_conflicts env project run state (c ∷ cs) = do
  write_conflicts env project run state (c ∷ cs)
  if is_recovering_workflow state.status
      then pure tt
      else bump_workflow_for_run run WorkflowStatus.recovering env.now
  pure (unique_codes [] (c ∷ cs))

abbrev pub run_succeeded : RunStatus → Bool
run_succeeded RunStatus.succeeded = true
run_succeeded _ = false

unfoldable pub reconcile_run :
    Env
    → Key
    → Option Key
    → WorkflowState
    → List StageRun
    → Option Key
    → Key
    → Tx (List ConflictCode)
reconcile_run env project stable state stages preview run = do
  found ← query λ db. run_of db run
  r ← or_fail database found
  conflicts ← query (conflicts_of run stable preview stages)
  if run_succeeded r.status
      then settle_conflicts env project run state conflicts
      else query (open_conflict_codes project)

abbrev pub reconcile :
    Env
    → Key
    → Option Key
    → WorkflowState
    → List StageRun
    → Option Key
    → Option Key
    → Tx (List ConflictCode)
reconcile env project stable state stages preview none = query (open_conflict_codes project)
reconcile env project stable state stages preview (some run) =
    reconcile_run env project stable state stages preview run

-- A workflow whose run did not succeed keeps the conflicts that are open.
unfoldable pub reconcile_consistency :
    Env → Key → Option Key → WorkflowState → List StageRun → Option Key → Tx (List ConflictCode)
reconcile_consistency env project stable state stages preview =
    reconcile env project stable state stages preview state.workflow_run_id
