-- ===== src/Store/Runs/Retry.antt =====
-- A retry and the index idx_runs_one_active (`RetryRun` of internal/store/run.go).
use vibe_forge.Base.{
  ℕ, suc, ◌+◌, ◌≤◌, ◌≡◌, refl, Bool, true, false, ◌&&◌, not, some, List, [], ◌∷◌, ◌++◌, arith,
  Bool-cases, inl, inr,
}
use vibe_forge.Store.Model.{Key, Run, RunStatus, Attempt, Db, Env, database, is_active}
use vibe_forge.Store.Table.{first_where, count_where, by_key, update_key}
use vibe_forge.Store.Rows.{
  is_some, run_of, attempt_of, is_active_in, one_active, index_holds, runs_after, insert_attempt,
  update_run,
}
use vibe_forge.Store.Runs.{
  active_run_of, activate, is_retryable_status, max_sequence, start_attempt, retry_run_body,
}
use vibe_forge.Store.Tx.{err, ◌>>=◌}

run_id : Run → Key
run_id r = r.id

module _ (project : Key) (attempt : Key) (now : ℕ) where
  -- Activating a run takes no other run out of the count.
  count-activate :
      (run : Key) (rows : List Run)
      → count_where (is_active_in project) rows
        ≤ count_where
            (is_active_in project)
            (update_key (λ (r : Run). r.id) run (activate attempt now) rows)
  unfolding count_where update_key
  count-activate run [] = omega arith
  count-activate run (q ∷ rows) = ground (arith, count-activate run rows)

  count-activated :
      (run : Key) (rows : List Run) (r : Run)
      → by_key (λ (q : Run). q.id) run rows ≡ some r
      → r.project_id ≡ project
      → is_active r.status ≡ false
      → suc (count_where (is_active_in project) rows)
        ≤ count_where
            (is_active_in project)
            (update_key (λ (q : Run). q.id) run (activate attempt now) rows)
  unfolding count_where update_key by_key
  count-activated run [] r found own idle = absurd (cc)
  count-activated run (q ∷ rows) r found own idle =
      ground (arith, count-activate run rows, count-activated run rows r)

count-found :
    (test : Run → Bool) (rows : List Run) (r : Run)
    → first_where test rows ≡ some r
    → 1 ≤ count_where test rows
unfolding first_where count_where
count-found test [] r e = absurd (cc)
count-found test (q ∷ rows) r e = ground (arith, count-found test rows r)

idle : (r : Run) → is_retryable_status r.status ≡ true → is_active r.status ≡ false
idle r t = ground arith

index_violated :
    (run attempt : Key) (now : ℕ) (db : Db) (r other : Run)
    → run_of db run ≡ some r
    → is_retryable_status r.status ≡ true
    → active_run_of r.project_id db ≡ some other
    → one_active r.project_id (runs_after run (activate attempt now) db) ≡ false
index_violated run attempt now db r other found retryable busy = ground (
  arith,
  count-activated r.project_id attempt now run db.runs r found refl (idle r retryable),
  count-found (is_active_in r.project_id) db.runs other busy,
)

index_refuses :
    (run : Key) (f : Run → Run) (db : Db) (r : Run)
    → run_of db run ≡ some r
    → one_active r.project_id (runs_after run f db) ≡ false
    → index_holds run f db ≡ false
index_refuses run f db r found full = ground arith

-- The UPDATE of the run meets the index, whatever came before it in the transaction.
update_run-violated :
    (run : Key) (f : Run → Run) (db : Db)
    → index_holds run f db ≡ false
    → update_run run f db ≡ err database
unfolding update_run ◌>>=◌
update_run-violated run f db full = ground arith

start_attempt-violated :
    (env : Env) (run : Key) (round : ℕ) (db : Db)
    → index_holds run (activate (env.new_id 0) env.now) db ≡ false
    → start_attempt env run round db ≡ err database
unfolding start_attempt insert_attempt ◌>>=◌
start_attempt-violated env run round db full =
    let row : Attempt = record {
      id = env.new_id 0;
      run_id = run;
      sequence = max_sequence run db + 1;
      status = RunStatus.running;
      auto_fix_round = round;
      created_at = env.now;
    } in
    let inserted : Db = record db { attempts = db.attempts ++ row ∷ [] } in
    elim (Bool-cases (not (is_some (attempt_of db (env.new_id 0))) && is_some (run_of db run))) [
      | inl t ↦ rw (t, update_run-violated run (activate (env.new_id 0) env.now) inserted full) refl
      | inr f ↦ rw (f) refl
    ]

-- Retrying a failed or interrupted run while another run of its project is queued or running does
-- not answer with a conflict: the unique index refuses the UPDATE, and the transaction ends with the
-- database's error.
pub retry_run-database_error :
    (env : Env) (run : Key) (r other : Run) (db : Db)
    → run_of db run ≡ some r
    → is_retryable_status r.status ≡ true
    → active_run_of r.project_id db ≡ some other
    → retry_run_body env run db ≡ err database
unfolding retry_run_body ◌>>=◌
retry_run-database_error env run r other db found retryable busy =
    let violated = start_attempt-violated env run 0 db (
      index_refuses run (activate (env.new_id 0) env.now) db r found
        (index_violated run (env.new_id 0) env.now db r other found retryable busy)) in
    rw (found, retryable, violated) refl
