-- ===== src/Agent/Rounds/Ending.antt =====
-- How engineerQA ends its run (internal/agent/agent.go): a round leaves its draft as the current one,
-- and a repair loop that does not fail has ended the run.
use vibe_forge.Base.{ℕ, zero, suc, ◌≡◌, refl, Bool, true, false, Option, none, some, List, ◌==◌}
use vibe_forge.Contract.{engineer, qa}
use vibe_forge.Store.Model.{Key, Payload, EventType}
use vibe_forge.Store.Tx.Triple.{of_keeps, from_before}
use vibe_forge.Store.Drafts.Settling.{HeldDraft, promote_draft_version-Ended}
use vibe_forge.Store.Drafts.Rows.{create_draft_version-Held, fail_other-Keeps}
use vibe_forge.Agent.Client.{Prompt, repair_turn, Turn, Outside}
use vibe_forge.Agent.Runner.{World, Step, emit_payload}
use vibe_forge.Agent.Runner.Hoare.{
  Hoare, OnWorld, to_world, from_world, on_bind, on_change, on_choice, on_quietly, quietly-Stays,
  on_return, on_draft_call,
}
use vibe_forge.Agent.Rounds.{
  Job, Round, unless, fail_previous, replace_draft, qa_round, complete, give_up, repair_loop,
}
use vibe_forge.Agent.Quiet.{
  unless-Stays, noted, emit-Stays, record-Stays, engineer_turn-Stays, set_stage-Stays,
}
use vibe_forge.Agent.Rounds.Held.{
  Kept, Chosen, Closed, Spared, emit-Hoare, Kept-Notes, Chosen-Notes, Closed-Notes, Chosen-Kept,
  fail_draft-Closed,
}

module _ (out : Outside) (job : Job) (s : Spared out job.run_id)
    (serves : (n : ℕ) → out.refuses n ≡ none) where
  abbrev WithDraft : Key → World → Type 0
  WithDraft draft = OnWorld (λ c. HeldDraft job.run_id draft)

  module _ {E : World → Type 0} where
    unless_other :
        (draft : Key) (b : Bool) (m : Step (Unit {0}))
        → (b ≡ false → Hoare (WithDraft draft) m (λ u. WithDraft draft) E)
        → Hoare (WithDraft draft) (unless b m) (λ u. WithDraft draft) E
    unless_other draft true m k = on_return tt λ w h. h
    unless_other draft false m k = k refl

    fail_previous-Held :
        (draft : Key) (o : Option Key)
        → Hoare (WithDraft draft) (fail_previous out draft o) (λ u. WithDraft draft) E
    fail_previous-Held draft none = on_return tt λ w h. h
    fail_previous-Held draft (some previous) = unless_other draft (previous == draft) _ λ other.
        on_quietly _ (
          on_draft_call (λ c. HeldDraft job.run_id draft) (λ v c. HeldDraft job.run_id draft) out
            (λ c n db h. (s.held n db h.0, s.draft n draft db h.1)) _
            λ c env. of_keeps (fail_other-Keeps env job.run_id draft previous other))

    replace_draft-Chosen :
        (draft : Key)
        → Hoare
            (WithDraft draft)
            (replace_draft out draft)
            (λ u. OnWorld (Chosen job.run_id draft))
            E
    unfolding replace_draft
    replace_draft-Chosen draft = record {
      at = λ w h.
          (on_bind _ _ (fail_previous-Held draft w.current_draft)
              (λ u. on_change _ {R = OnWorld (Chosen job.run_id draft)} λ x p. (p, refl))).at
            w h;
    }

  qa_round-Chosen :
      (p : Prompt) (recorded started : Bool) (messages : List Turn)
      → Hoare
          (OnWorld (Kept job.run_id))
          (qa_round out job p recorded started messages)
          (λ r. OnWorld (Chosen job.run_id r.draft.id))
          (OnWorld (Kept job.run_id))
  unfolding qa_round
  qa_round-Chosen p recorded started messages =
      let kept = Kept-Notes out job.run_id s in
      on_bind _ _ (set_stage-Stays out kept engineer) λ u.
        on_bind _ _ (engineer_turn-Stays out kept job.run_id messages p) λ written.
          on_bind _ _
            (on_draft_call (Kept job.run_id) (λ v c. HeldDraft job.run_id v.id) out
              (λ c. (kept c).others) _
              λ c env. from_before (λ db h. h.0) (create_draft_version-Held env job.run_id _ _ _))
            λ draft.
              let chosen = Chosen-Notes out job.run_id s draft.id in
              on_bind _ _ (replace_draft-Chosen draft.id) λ u1.
                to_world (λ r w h. h) (Chosen-Kept job.run_id draft.id)
                  (on_bind _ _ (emit-Stays out chosen _ _ _) λ u2.
                    on_bind _ _ (unless-Stays recorded _ (record-Stays out chosen _ _ _ _ _)) λ u3.
                      on_bind _ _ (set_stage-Stays out chosen qa) λ u4.
                        on_bind _ _ (unless-Stays started _ (emit-Stays out chosen _ _ _))
                          λ u5. on_return _ λ w h. h)

  abbrev IsOver : World → Type 0
  IsOver = OnWorld (Closed job.run_id)

  IsOver-emit :
      {E : World → Type 0} (type : EventType) (payload : Payload)
      → Hoare IsOver (emit_payload out job.run_id type payload) (λ u. IsOver) E
  IsOver-emit type payload = emit-Hoare out (Closed-Notes out job.run_id s) job.run_id type payload

  complete-Closed :
      (r : Round)
      → Hoare
          (OnWorld (Chosen job.run_id r.draft.id))
          (complete out job r)
          (λ u. IsOver)
          (OnWorld (Kept job.run_id))
  unfolding complete
  complete-Closed r =
      let d = r.draft.id in
      let chosen = Chosen-Notes out job.run_id s d in
      to_world (λ u w h. h) (Chosen-Kept job.run_id d)
        (on_bind _ _
          (quietly-Stays _ (noted out chosen _ λ c env. (chosen c).artifact env _ _ _ _ _))
          λ u. on_bind _ _ (emit-Stays out chosen _ _ _) λ u1.
            on_bind _ _
              (on_draft_call (Chosen job.run_id d) (λ v. Closed job.run_id) out
                (λ c. (chosen c).others) _
                λ c env.
                  from_before (λ db h. h.0)
                    (promote_draft_version-Ended env job.run_id d (some job.attempt_id)))
              λ v. on_bind _ _ (IsOver-emit _ _) λ u2. IsOver-emit _ _)

  give_up-Closed :
      (r : Round)
      → Hoare
          (OnWorld (Chosen job.run_id r.draft.id))
          (give_up out job r)
          (λ u. IsOver)
          (OnWorld (Kept job.run_id))
  unfolding give_up
  give_up-Closed r =
      from_world (λ w h. h.0)
        (on_bind _ _ (fail_draft-Closed out job.run_id s serves r.draft.id (some job.attempt_id))
          λ u. IsOver-emit _ _)

  pub repair_loop-Closed :
      (n : ℕ) (prompt : Prompt) (recorded started : Bool) (messages : List Turn)
      → Hoare
          (OnWorld (Kept job.run_id))
          (repair_loop out n job prompt recorded started messages)
          (λ u. IsOver)
          (OnWorld (Kept job.run_id))
  unfolding repair_loop
  repair_loop-Closed zero prompt recorded started messages =
      on_bind _ _ (qa_round-Chosen prompt recorded started messages)
        λ r. on_choice r.result.pass _ _ (λ t. complete-Closed r) (λ f. give_up-Closed r)
  repair_loop-Closed (suc n) prompt recorded started messages =
      on_bind _ _ (qa_round-Chosen prompt recorded started messages) λ r.
        on_choice r.result.pass _ _ (λ t. complete-Closed r)
          (λ f.
            from_world (Chosen-Kept job.run_id r.draft.id)
              (repair_loop-Closed n (repair_turn r.result.errors) true true r.messages))
