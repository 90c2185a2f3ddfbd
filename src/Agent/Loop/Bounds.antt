-- ===== src/Agent/Loop/Bounds.antt =====
-- The bound on the calls of the model in a whole run of the loop (internal/agent/agent.go).
use vibe_forge.Base.{
  ℕ, zero, suc, ◌+◌, ◌*◌, ◌≤◌, refl, Bool, true, false, Option, none, some, List, Text, ◌==◌, arith,
  if◌then◌else◌,
}
use vibe_forge.Contract.{Stage}
use vibe_forge.Store.Model.{Key, ArtifactType}
use vibe_forge.Agent.Client.{Failure, Prompt, Turn, Outside}
use vibe_forge.Agent.Runner.{World, Outcome, done, failed, Step, ◌>>◌}
use vibe_forge.Agent.Runner.Hoare.{Stays, Ends, on_choice, to_world, bind-Stays, stays_rules}
use vibe_forge.Agent.Turns.Bounds.{
  AtMost, Calls, call-AtMost, change-AtMost, emit-AtMost, assistant-AtMost, record-AtMost,
  none-Calls, bind-Calls, text_turn-Calls, engineer_turn-Calls,
}
use vibe_forge.Agent.Rounds.{
  Job, Round, set_stage, unless, fail_previous, replace_draft, qa_round, complete, give_up,
  repair_loop, engineer_qa,
}
use vibe_forge.Agent.Loop.{
  start_stage, text_stage, run_stages, run_pipeline, fail_draft_or_run, fail_infra, report, end_run,
  loop_run,
}

module _ (out : Outside) (n : ℕ) where
  unless-AtMost :
      (b : Bool) (m : Step (Unit {0})) → Stays (AtMost n) m → Stays (AtMost n) (unless b m)
  unless-AtMost true m h = search stays_rules
  unless-AtMost false m h = h

  fail_previous-AtMost :
      (draft : Key) (o : Option Key) → Stays (AtMost n) (fail_previous out draft o)
  fail_previous-AtMost draft none = search stays_rules
  fail_previous-AtMost draft (some previous) =
      unless-AtMost (previous == draft) _ (search (stays_rules, call-AtMost))

  replace_draft-AtMost : (draft : Key) → Stays (AtMost n) (replace_draft out draft)
  unfolding replace_draft
  replace_draft-AtMost draft = record {
    at = λ w h.
        (bind-Stays _ _ (fail_previous-AtMost draft w.current_draft)
            (λ u. change-AtMost out n _ λ x. refl)).at
          w h;
  }

  set_stage-AtMost : (s : Stage) → Stays (AtMost n) (set_stage s)
  set_stage-AtMost s = change-AtMost out n _ λ w. refl

  start_stage-AtMost : (run : Key) (s : Stage) → Stays (AtMost n) (start_stage out run s)
  start_stage-AtMost run s = search (stays_rules, set_stage-AtMost, emit-AtMost)

  complete-AtMost : (job : Job) (r : Round) → Stays (AtMost n) (complete out job r)
  unfolding complete
  complete-AtMost job r = search (stays_rules, call-AtMost, emit-AtMost) depth 12

  give_up-AtMost : (job : Job) (r : Round) → Stays (AtMost n) (give_up out job r)
  unfolding give_up
  give_up-AtMost job r = search (stays_rules, call-AtMost, emit-AtMost)

  fail_draft_or_run-AtMost :
      (run : Key) (attempt draft : Option Key)
      → Stays (AtMost n) (fail_draft_or_run out run attempt draft)
  fail_draft_or_run-AtMost run attempt none = search (stays_rules, call-AtMost)
  fail_draft_or_run-AtMost run attempt (some draft) = search (stays_rules, call-AtMost)

  fail_infra-AtMost : (run : Key) → Stays (AtMost n) (fail_infra out run)
  unfolding fail_infra
  fail_infra-AtMost run = record {
    at = λ w h. (fail_draft_or_run-AtMost run w.attempt_id w.current_draft).at w h;
  }

  report-AtMost : (run : Key) (f : Failure) → Stays (AtMost n) (report out run f)
  report-AtMost run f = record { at = λ w h. (emit-AtMost out n run _ _).at w h }

module _ (out : Outside) where
  qa_round-Calls :
      (job : Job) (p : Prompt) (recorded started : Bool) (messages : List Turn)
      → Calls 8 (qa_round out job p recorded started messages)
  unfolding qa_round
  qa_round-Calls job p recorded started messages =
      bind-Calls 0 8 _ _ (none-Calls (λ n. set_stage-AtMost out n _) 0) λ u.
        bind-Calls 8 0 _ _ (engineer_turn-Calls out job.run_id messages p) λ written.
          none-Calls
            (λ n.
              search
                (
                  stays_rules, call-AtMost, replace_draft-AtMost, emit-AtMost, unless-AtMost,
                  record-AtMost, set_stage-AtMost,
                )
                depth 20)
            0

  repair_loop-Calls :
      (k : ℕ) (job : Job) (p : Prompt) (recorded started : Bool) (messages : List Turn)
      → Calls (8 * (k + 1)) (repair_loop out k job p recorded started messages)
  unfolding repair_loop
  repair_loop-Calls zero job p recorded started messages n =
      bind-Calls 8 0 _ _ (qa_round-Calls job p recorded started messages)
        (λ r.
          none-Calls
            (λ j.
              on_choice r.result.pass _ _ (λ t. complete-AtMost out j job r)
                (λ f. give_up-AtMost out j job r))
            0)
        n
  repair_loop-Calls (suc k) job p recorded started messages n =
      to_world (λ a w h. omega (arith, h)) (λ w h. omega (arith, h))
        (bind-Calls 8 (8 * (k + 1)) _ _ (qa_round-Calls job p recorded started messages)
          (λ r. λ j.
            on_choice r.result.pass _ _ (λ t. none-Calls (λ i. complete-AtMost out i job r) _ j)
              (λ f. repair_loop-Calls k job _ true true r.messages j))
          n)

  text_stage-Calls :
      (job : Job) (s : Stage) (type : ArtifactType) (p : Prompt) (messages : List Turn)
      → Calls 1 (text_stage out job s type p messages)
  unfolding text_stage
  text_stage-Calls job s type p messages =
      bind-Calls 0 1 _ _ (none-Calls (λ n. start_stage-AtMost out n _ _) 0) λ u.
        bind-Calls 1 0 _ _ (text_turn-Calls out job.run_id messages p)
          λ reply. none-Calls (λ n. search (stays_rules, assistant-AtMost, record-AtMost)) 0

  run_stages-Calls : (job : Job) (idea : Text) → Calls 26 (run_stages out job idea)
  unfolding run_stages engineer_qa
  run_stages-Calls job idea = bind-Calls 0 26 _ _ (none-Calls (λ n. emit-AtMost out n _ _ _) 0) λ u.
      bind-Calls 0 26 _ _ (none-Calls (λ n. call-AtMost out n _) 0) λ u1.
        bind-Calls 1 25 _ _ (text_stage-Calls job _ _ _ _) λ spec.
          bind-Calls 1 24 _ _ (text_stage-Calls job _ _ _ _) λ plan.
            bind-Calls 0 24 _ _ (none-Calls (λ n. start_stage-AtMost out n _ _) 0)
              λ u2. repair_loop-Calls 2 job _ _ _ _

  run_pipeline-Calls : (run : Key) → Calls 26 (run_pipeline out run)
  unfolding run_pipeline
  run_pipeline-Calls run = bind-Calls 0 26 _ _ (none-Calls (λ n. call-AtMost out n _) 0) λ row.
      bind-Calls 0 26 _ _ (none-Calls (λ n. call-AtMost out n _) 0) λ iter.
        bind-Calls 0 26 _ _ (none-Calls (λ n. call-AtMost out n _) 0) λ att.
          bind-Calls 0 26 _ _ (none-Calls (λ n. change-AtMost out n _ λ w. refl) 0)
            λ u. run_stages-Calls _ row.prompt

  ended-AtMost :
      (n : ℕ) (s : Outcome (Unit {0}) × World) → Ends (λ u. AtMost n) (AtMost n) s → AtMost n s.1
  ended-AtMost n (done u, x) e = e
  ended-AtMost n (failed g, x) e = e

  stopped-AtMost :
      (n : ℕ) (run : Key) (f : Failure) (w : World) (down : Bool)
      → AtMost n w
      → AtMost n (if down then w else ((do fail_infra out run; report out run f) w).1)
  stopped-AtMost n run f w true h = h
  stopped-AtMost n run f w false h =
      ended-AtMost n _
        ((bind-Stays _ _ (fail_infra-AtMost out n run) (λ u. report-AtMost out n run f)).at w h)

  end_run-AtMost :
      (n : ℕ) (run : Key) (r : Outcome (Unit {0}) × World)
      → Ends (λ u. AtMost n) (AtMost n) r
      → AtMost n (end_run out run r)
  end_run-AtMost n run (done u, w) h = h
  end_run-AtMost n run (failed f, w) h = stopped-AtMost n run f w out.shut_down h

-- A run of the loop calls the model at most 26 times, whatever the model answers and whatever fails:
-- once for each of the two stages without tools, and up to eight times for the first writing of the
-- file and for each of the two repairs.
pub loop_run-calls :
    (out : Outside) (run : Key) (w : World) → (loop_run out run w).streams ≤ w.streams + 26
unfolding loop_run
loop_run-calls out run w =
    end_run-AtMost out (w.streams + 26) run _
      ((run_pipeline-Calls out run w.streams).at w (omega arith))
