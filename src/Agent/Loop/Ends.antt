-- ===== src/Agent/Loop/Ends.antt =====
-- The end of a run (Run, run and failInfra of internal/agent/agent.go), where the database
-- serves every call.
use vibe_forge.Base.{
  ℕ, ◌≡◌, refl, sym, subst, Bool, true, false, Option, none, some, Text, if◌then◌else◌,
}
use vibe_forge.Store.Model.{Key, Env}
use vibe_forge.Store.Drafts.{begin_attempt}
use vibe_forge.Store.Drafts.Settling.{Held, Ended, DraftAt, fail_run-Ended}
use vibe_forge.Store.Drafts.Rows.{begin_attempt-Keeps}
use vibe_forge.Store.Tx.Keeps.{Keeps}
use vibe_forge.Agent.Client.{Failure, Outside}
use vibe_forge.Agent.Runner.{World, Outcome, done, failed, ◌>>◌}
use vibe_forge.Agent.Runner.Hoare.{Hoare, Ends, OnWorld, on_bind, on_quietly, same_tables-Stays}
use vibe_forge.Agent.Runner.Served.{on_served_call}
use vibe_forge.Agent.Rounds.{Job}
use vibe_forge.Agent.Rounds.Held.{
  Tracked, Kept, Closed, Spared, Kept-Notes, Closed-Notes, fail_draft-Closed,
}
use vibe_forge.Agent.Rounds.Ending.{repair_loop-Closed}
use vibe_forge.Agent.Quiet.{noted, emit-Stays, text_stage-Stays, start_stage-Stays, report-Stays}
use vibe_forge.Agent.Spares.{get_run-Keeps, get_run_iteration-Keeps, get_active_attempt-Keeps}
use vibe_forge.Agent.Rounds.{engineer_qa}
use vibe_forge.Agent.Loop.{
  run_stages, run_pipeline, fail_draft_or_run, fail_infra, report, end_run, loop_run,
}

module _ (out : Outside) (serves : (n : ℕ) → out.refuses n ≡ none) where
  run_stages-Closed :
      (job : Job) (idea : Text)
      → Spared out job.run_id
      → Hoare
          (OnWorld (Kept job.run_id))
          (run_stages out job idea)
          (λ u. OnWorld (Closed job.run_id))
          (OnWorld (Kept job.run_id))
  unfolding run_stages engineer_qa
  run_stages-Closed job idea s =
      let k = Kept-Notes out job.run_id s in
      on_bind _ _ (emit-Stays out k _ _ _) λ u. on_bind _ _ (noted out k _ begin) λ u1.
        on_bind _ _ (text_stage-Stays out k job _ _ _ _) λ spec.
          on_bind _ _ (text_stage-Stays out k job _ _ _ _) λ plan.
            on_bind _ _ (start_stage-Stays out k _ _)
              λ u2. repair_loop-Closed out job s serves _ _ _ _ _
    where
      begin :
          (c : Option Key) (env : Env)
          → Keeps (Kept job.run_id c) (begin_attempt env job.run_id job.attempt_id)
      begin none env = begin_attempt-Keeps env job.run_id (λ vs. Unit {0}) job.attempt_id
      begin (some draft) env = begin_attempt-Keeps env job.run_id (DraftAt draft) job.attempt_id

  module _ (run : Key) (s : Spared out run) where
    run_pipeline-Closed :
        Hoare
          (OnWorld (Kept run))
          (run_pipeline out run)
          (λ u. OnWorld (Closed run))
          (OnWorld (Kept run))
    unfolding run_pipeline
    run_pipeline-Closed =
        let k = Kept-Notes out run s in
        on_bind _ _ (noted out k _ λ c env. get_run-Keeps (Kept run c) run) λ row.
          on_bind _ _ (noted out k _ λ c env. get_run_iteration-Keeps (Kept run c) run) λ iter.
            on_bind _ _ (noted out k _ λ c env. get_active_attempt-Keeps (Kept run c) run) λ att.
              on_bind _ _ (same_tables-Stays (Kept run) _ (λ w. refl) (λ w. refl))
                λ u. run_stages-Closed _ row.prompt s

    fail_draft_or_run-Closed :
        (attempt c : Option Key)
        → Hoare
            (λ w. Kept run c w.db)
            (fail_draft_or_run out run attempt c)
            (λ u. OnWorld (Closed run))
            (OnWorld (Closed run))
    fail_draft_or_run-Closed attempt (some draft) = fail_draft-Closed out run s serves draft attempt
    fail_draft_or_run-Closed attempt none = on_quietly _ (
        on_served_call (λ c db. Held run db.runs × Unit {0}) (λ u. Closed run) out
          (λ c n db h. (s.held n db h.0, tt)) serves (OnWorld (Closed run)) _
          λ c env. record { at = λ db h. (fail_run-Ended env run).at db h.0 })

    fail_infra-Closed :
        (f : Failure)
        → Hoare
            (OnWorld (Kept run))
            (do fail_infra out run; report out run f)
            (λ u. OnWorld (Closed run))
            (OnWorld (Closed run))
    unfolding fail_infra
    fail_infra-Closed f =
        on_bind _ _
          (record { at = λ w h. (fail_draft_or_run-Closed w.attempt_id w.current_draft).at w h })
          λ u. report-Stays out (Closed-Notes out run s) run f

    over_of :
        (r : Outcome (Unit {0}) × World)
        → Ends (λ u. OnWorld (Closed run)) (OnWorld (Closed run)) r
        → Ended run r.1.db.runs
    over_of (done u, w) h = h
    over_of (failed f, w) h = h

    end_run-Ended :
        out.shut_down ≡ false
        → (r : Outcome (Unit {0}) × World) → Ends (λ u. OnWorld (Closed run)) (OnWorld (Kept run)) r
        → Ended run (end_run out run r).db.runs
    end_run-Ended up (done u, w) h = h
    end_run-Ended up (failed f, w) h = stays_up out.shut_down up
      where
        stays_up :
            (down : Bool)
            → down ≡ false
            → Ended run
                (if down then w else ((do fail_infra out run; report out run f) w).1).db.runs
        stays_up true e = absurd (cc)
        stays_up false e = over_of _ ((fail_infra-Closed f).at w h)

-- Whatever the model answers, behind the loop the run is there and is no longer queued or running,
-- under these conditions: no call of the store is refused, so that neither the database fails nor the
-- watchdog has cancelled the context of a call, and no shutdown interrupts; the run is its project's
-- only active one and the loop starts without a draft; and other requests keep the run and its drafts
-- as they are.
pub loop_run-ends :
    (out : Outside) (run : Key) (w : World)
    → ((n : ℕ) → out.refuses n ≡ none)
    → out.shut_down ≡ false
    → Spared out run
    → w.current_draft ≡ none
    → Held run w.db.runs
    → Ended run (loop_run out run w).db.runs
unfolding loop_run
loop_run-ends out run w serves up s fresh held =
    end_run-Ended out serves run s up (run_pipeline out run w) (
      (run_pipeline-Closed out serves run s).at w
        (held, subst (λ c. Tracked c w.db) (sym fresh) tt))
