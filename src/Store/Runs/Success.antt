-- ===== src/Store/Runs/Success.antt =====
-- The outcome of CreateRun behind its checks (internal/store/run.go).
use vibe_forge.Base.{◌≡◌, none}
use vibe_forge.Store.Model.{Db, Env}
use vibe_forge.Store.Rows.{run_of, attempt_of, iteration_of}
use vibe_forge.Store.Tx.{Tx, ok}
use vibe_forge.Store.Runs.Statements.{message_of}

-- The new identifiers are unused.
pub record IsFresh (env : Env) (db : Db) : Type 0 where
  pub run : run_of db (env.new_id 0) ≡ none
  pub attempt : attempt_of db (env.new_id 1) ≡ none
  pub iteration : iteration_of db (env.new_id 2) ≡ none
  pub message : message_of db (env.new_id 3) ≡ none

-- The body returns `out`.
abbrev pub Returns : {A : Type 0} → Tx A → Db → A → Type 0
Returns m db out = (db' : Db) × (m db ≡ ok (out, db'))
