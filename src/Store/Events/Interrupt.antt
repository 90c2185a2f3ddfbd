-- ===== src/Store/Events/Interrupt.antt =====
-- The recovery at startup (`MarkActiveRunsInterrupted` of internal/store/run.go).
use vibe_forge.Base.{ℕ, ◌≡◌, ◌∙◌, sym, ap, refl, Bool, List, [], ◌∷◌, arith}
use vibe_forge.Store.Model.{Key, Time, Run, Attempt, WorkflowStatus, Db, Env}
use vibe_forge.Store.Table.{update_where, count_where}
use vibe_forge.Store.Rows.{update_attempts}
use vibe_forge.Store.Events.{
  is_active_run, interrupt, cancel_stages, cancel_workflows, interrupt_runs,
  mark_active_runs_interrupted,
}
use vibe_forge.Store.Tx.{ok}
use vibe_forge.Store.Tx.Keeps.{Keeps, Keeps-modify, Keeps-query, keeps_rules}
use vibe_forge.Store.Tx.Triple.{Triple, after, after_keeps, after_query, on_modify, on_pure}
use vibe_forge.Store.Follow.{bump-Keeps}

none_active :
    (now : Time) (runs : List Run)
    → count_where is_active_run (update_where is_active_run (interrupt now) runs) ≡ 0
unfolding count_where update_where
none_active now [] = refl
none_active now (r ∷ runs) = ground (arith, none_active now runs)

module _ (before : List Run) where
  abbrev SameRuns : Db → Type 0
  SameRuns db = db.runs ≡ before

  cancel_stages-Keeps : (run : Key) (now : Time) → Keeps SameRuns (cancel_stages run now)
  unfolding cancel_stages
  cancel_stages-Keeps run now = Keeps-modify _ (λ db h. h)

  follow-Keeps :
      (run : Key) (s : WorkflowStatus) (now : Time)
      → Keeps SameRuns (vibe_forge.Store.Pointer.bump_workflow_for_run run s now)
  follow-Keeps run s now = bump-Keeps SameRuns (λ db w h. h) (λ db t h. h) run s now

  cancel_workflows-Keeps :
      (runs : List Run) (now : Time) → Keeps SameRuns (cancel_workflows runs now)
  unfolding cancel_workflows
  cancel_workflows-Keeps [] now = search keeps_rules
  cancel_workflows-Keeps (r ∷ runs) now =
      search (keeps_rules, cancel_stages-Keeps, follow-Keeps, cancel_workflows-Keeps runs)

  attempts-Keeps :
      (test : Attempt → Bool) (f : Attempt → Attempt) → Keeps SameRuns (update_attempts test f)
  unfolding update_attempts
  attempts-Keeps test f = Keeps-modify _ (λ db h. h)

  mark-Triple :
      (env : Env)
      → Triple SameRuns (mark_active_runs_interrupted env) (λ n db.
        (n ≡ count_where is_active_run before)
        × (db.runs ≡ update_where is_active_run (interrupt env.now) before))
  unfolding mark_active_runs_interrupted interrupt_runs
  mark-Triple env = after_keeps _ _ (Keeps-query _) λ active.
      after_keeps _ _ (cancel_workflows-Keeps active env.now) λ _.
        after_keeps _ _ (attempts-Keeps _ _) λ _. after_query _ _ λ n.
          after
            {R = λ u db.
              (n ≡ count_where is_active_run before)
              × (db.runs ≡ update_where is_active_run (interrupt env.now) before)}
            _ _
            (on_modify _ λ db h. (
              sym h.1 ∙ ap (count_where is_active_run) h.0,
              ap (update_where is_active_run (interrupt env.now)) h.0,
            ))
            λ _. on_pure _ λ db h. h

-- Where the recovery at startup commits, it returns the number of runs that were queued or running,
-- no run is queued or running any more, and every other run is as it was.
pub mark_active_runs_interrupted-all :
    (env : Env) (db db' : Db) (n : ℕ)
    → mark_active_runs_interrupted env db ≡ ok (n, db')
    → (n ≡ count_where is_active_run db.runs)
      × (count_where is_active_run db'.runs ≡ 0)
      × (db'.runs ≡ update_where is_active_run (interrupt env.now) db.runs)
mark_active_runs_interrupted-all env db db' n run =
    let result = (mark-Triple db.runs env).at db refl n db' run in
    (result.0, ap (count_where is_active_run) result.1 ∙ none_active env.now db.runs, result.1)
