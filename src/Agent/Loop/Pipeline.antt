-- ===== src/Agent/Loop/Pipeline.antt =====
-- A whole run of the loop (internal/agent/agent.go): from what its calls of the store keep to what
-- holds of the tables behind it.
use vibe_forge.Base.{Text, Bool, true, false, if◌then◌else◌}
use vibe_forge.Store.Model.{Key, Db}
use vibe_forge.Agent.Client.{Outside}
use vibe_forge.Agent.Runner.{World, Outcome, done, failed, ◌>>◌}
use vibe_forge.Agent.Runner.Hoare.{Hoare, Ends, OnDb, on_bind, on_change, bind-Stays}
use vibe_forge.Agent.Rounds.{Job}
use vibe_forge.Agent.Rounds.Checked.{Promotes, early, engineer_qa-Hoare}
use vibe_forge.Agent.Quiet.{text_stage-Stays, start_stage-Stays, report-Stays}
use vibe_forge.Agent.Spares.{
  spared, emit-Stays, get_run-Keeps, get_run_iteration-Keeps, get_active_attempt-Keeps,
  fail_infra-Stays,
}
use vibe_forge.Agent.Loop.{run_stages, run_pipeline, fail_infra, report, end_run, loop_run}

end_of :
    (L : Db → Type 0) (s : Outcome (Unit {0}) × World) → Ends (λ u. OnDb L) (OnDb L) s → L s.1.db
end_of L (done u, x) e = e
end_of L (failed g, x) e = e

module _ {K L : Db → Type 0} (out : Outside) (p : Promotes out K L) where
  run_stages-Hoare :
      (job : Job) (idea : Text) → Hoare (OnDb K) (run_stages out job idea) (λ u. OnDb L) (OnDb L)
  unfolding run_stages
  run_stages-Hoare job idea = on_bind _ _ (early out p (emit-Stays out p.before _ _ _)) λ u.
      on_bind _ _ (early out p (spared out p.before _ λ env. p.before.begin env _ _)) λ u1.
        on_bind _ _ (early out p (text_stage-Stays out (λ c. p.before.notes) job _ _ _ _)) λ spec.
          on_bind _ _ (early out p (text_stage-Stays out (λ c. p.before.notes) job _ _ _ _)) λ plan.
            on_bind _ _ (early out p (start_stage-Stays out (λ c. p.before.notes) _ _))
              λ u2. engineer_qa-Hoare out p job idea plan.0 plan.1

  run_pipeline-Hoare : (run : Key) → Hoare (OnDb K) (run_pipeline out run) (λ u. OnDb L) (OnDb L)
  unfolding run_pipeline
  run_pipeline-Hoare run =
      on_bind _ _ (early out p (spared out p.before _ λ env. get_run-Keeps K run)) λ row.
        on_bind _ _ (early out p (spared out p.before _ λ env. get_run_iteration-Keeps K run))
          λ iter.
            on_bind _ _ (early out p (spared out p.before _ λ env. get_active_attempt-Keeps K run))
              λ att.
                on_bind _ _ (early out p (on_change _ {R = OnDb K} λ w h. h))
                  λ u. run_stages-Hoare _ row.prompt

  ended_run :
      (run : Key) (r : Outcome (Unit {0}) × World)
      → Ends (λ u. OnDb L) (OnDb L) r
      → L (end_run out run r).db
  ended_run run (done u, w) h = h
  ended_run run (failed f, w) h = stopped out.shut_down
    where
      stopped :
          (down : Bool) → L (if down then w else ((do fail_infra out run; report out run f) w).1).db
      stopped true = h
      stopped false = end_of L _ (
          (bind-Stays _ _ (fail_infra-Stays out p.behind run)
              (λ u. report-Stays out (λ c. p.behind.notes) run f)).at
            w h)

  pub loop_run-keeps : (run : Key) (w : World) → K w.db → L (loop_run out run w).db
  unfolding loop_run
  loop_run-keeps run w h = ended_run run (run_pipeline out run w) ((run_pipeline-Hoare run).at w h)
