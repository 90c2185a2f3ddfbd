-- ===== src/Store/Reconcile/Consistent.antt =====
-- The conflicts of a completed workflow (reconcileConsistencyTx of internal/store/workflow_state.go)
-- against a description of what is consistent.
use vibe_forge.Base.{◌<◌, ◌≡◌, true, Option, some, List, length, All}
use vibe_forge.Contract.{stage_order}
use vibe_forge.Store.Model.{Key, StageRun, Db}
use vibe_forge.Store.Table.{count_where}
use vibe_forge.Store.Rows.{is_some}
use vibe_forge.Store.Reconcile.{stage_succeeded, is_artifact_of}
use vibe_forge.Store.Tx.Triple.{Triple}

-- The stage succeeded and has an artifact of its attempt.
abbrev pub IsBacked : Key → Db → StageRun → Type 0
IsBacked run db s =
    (stage_succeeded s.status ≡ true) × (0 < count_where (is_artifact_of run s) db.artifacts)

-- A completed run fits: there is a stable version, it comes from this run, and each of the four
-- stages succeeded with an artifact.
pub record IsConsistent (run : Key) (stable preview : Option Key) (stages : List StageRun) (db : Db)
    : Type 0 where
  pub has_stable : is_some stable ≡ true
  pub comes_from : preview ≡ some run
  pub complete : length stages ≡ length stage_order
  pub backed : All (IsBacked run db) stages
