-- ===== src/Agent/Rounds/Checked.antt =====
-- engineerQA round by round (internal/agent/agent.go): what is known of a round that is about to be
-- promoted, and what its rounds keep.
use vibe_forge.Base.{◌≡◌, refl, ℕ, zero, suc, Bool, true, some, List, Text}
use vibe_forge.Store.Model.{Key, Db, Env, Version}
use vibe_forge.Store.Tx.{ok}
use vibe_forge.Store.Tx.Triple.{Triple}
use vibe_forge.Store.Drafts.{create_draft_version, promote_draft_version}
use vibe_forge.Compile.Validate.{validate}
use vibe_forge.Agent.Scaffold.{build_files_map, to_snapshots}
use vibe_forge.Agent.Client.{Prompt, repair_turn, Turn, Outside}
use vibe_forge.Agent.Runner.{World, Step, store_call}
use vibe_forge.Agent.Runner.Hoare.{
  Hoare, OnDb, on_bind, on_call, on_return, on_choice, given, to_world, quietly-Stays,
}
use vibe_forge.Agent.Rounds.{Job, Round, qa_round, complete, repair_loop, engineer_qa}
use vibe_forge.Agent.Quiet.{set_stage-Stays, engineer_turn-Stays, unless-Stays, record-Stays}
use vibe_forge.Agent.Spares.{Spares, spared, replace_draft-Stays, emit-Stays, give_up-Stays}

-- The draft was made of the scaffold and this content.
abbrev pub DraftOf : Outside → Text → Version → Type 0
DraftOf out app_tsx draft =
    (env : Env) × (project : Key) × (iteration : Key) × (db : Db) × (db' : Db)
    × (create_draft_version env project iteration
          (to_snapshots (build_files_map out.embedded app_tsx)) db
        ≡ ok (draft, db'))

-- The verdict of the round is the gate's on the content that its draft was made of.
abbrev pub Checked : Outside → Round → Type 0
Checked out r = (app_tsx : Text) × (r.result ≡ validate app_tsx) × DraftOf out app_tsx r.draft

module _ {K : Db → Type 0} (out : Outside) (k : Spares out K) where
  draft_made :
      (project iteration : Key) (app_tsx : Text)
      → Hoare
          (OnDb K)
          (store_call out λ env.
            create_draft_version env project iteration
              (to_snapshots (build_files_map out.embedded app_tsx)))
          (λ draft w. OnDb K w × DraftOf out app_tsx draft)
          (OnDb K)
  draft_made project iteration app_tsx =
      on_call K (λ draft db. K db × DraftOf out app_tsx draft) out k.notes.others _
        λ env. record {
          at = λ db h draft db' e. (
            (k.create env project iteration _).at db h draft db' e,
            (env, project, iteration, db, db', e),
          );
        }

  qa_round-Checked :
      (job : Job) (p : Prompt) (recorded started : Bool) (messages : List Turn)
      → Hoare
          (OnDb K)
          (qa_round out job p recorded started messages)
          (λ r w. OnDb K w × Checked out r)
          (OnDb K)
  unfolding qa_round
  qa_round-Checked job p recorded started messages =
      on_bind _ _ (set_stage-Stays out (λ c. k.notes) _) λ u.
        on_bind _ _ (engineer_turn-Stays out (λ c. k.notes) job.run_id messages p) λ written.
          on_bind _ _ (draft_made job.project_id job.iteration_id written.0) λ draft. given λ made.
            on_bind _ _ (replace_draft-Stays out k _) λ u1.
              on_bind _ _ (emit-Stays out k _ _ _) λ u2.
                on_bind _ _ (unless-Stays recorded _ (record-Stays out (λ c. k.notes) _ _ _ _ _))
                  λ u3. on_bind _ _ (set_stage-Stays out (λ c. k.notes) _) λ u4.
                    on_bind _ _ (unless-Stays started _ (emit-Stays out k _ _ _))
                      λ u5. on_return _ λ w h. (h, (written.0, refl, made))

-- What may be promoted: `K` holds before the promotion and `L` behind it.
pub record Promotes (out : Outside) (K L : Db → Type 0) : Type 0 where
  pub before : Spares out K
  pub behind : Spares out L
  pub stays : (db : Db) → K db → L db
  pub swap :
      (job : Job) (r : Round)
      → r.result.pass ≡ true
      → Checked out r
      → (env : Env)
      → Triple K
          (promote_draft_version env r.draft.id (some job.run_id) (some job.attempt_id))
          (λ v. L)

module _ {K L : Db → Type 0} (out : Outside) (p : Promotes out K L) where
  -- A step of the part before the promotion.
  pub early :
      {A : Type 0} {m : Step A} {Q : A → World → Type 0}
      → Hoare (OnDb K) m Q (OnDb K)
      → Hoare (OnDb K) m Q (OnDb L)
  early = to_world (λ a w h. h) (λ w h. p.stays w.db h)

  complete-Hoare :
      (job : Job) (r : Round)
      → r.result.pass ≡ true
      → Checked out r
      → Hoare (OnDb K) (complete out job r) (λ u. OnDb L) (OnDb L)
  unfolding complete
  complete-Hoare job r passed checked =
      on_bind _ _
        (early
          (quietly-Stays _ (spared out p.before _ λ env. p.before.notes.artifact env _ _ _ _ _)))
        λ u. on_bind _ _ (early (emit-Stays out p.before _ _ _)) λ u1.
          on_bind _ _
            (early (on_call K (λ v. L) out p.before.notes.others _ (p.swap job r passed checked)))
            λ v. on_bind _ _ (emit-Stays out p.behind _ _ _) λ u2. emit-Stays out p.behind _ _ _

  repair_loop-Hoare :
      (n : ℕ) (job : Job) (prompt : Prompt) (recorded started : Bool) (messages : List Turn)
      → Hoare
          (OnDb K)
          (repair_loop out n job prompt recorded started messages)
          (λ u. OnDb L)
          (OnDb L)
  unfolding repair_loop
  repair_loop-Hoare zero job prompt recorded started messages =
      on_bind _ _ (early (qa_round-Checked out p.before job prompt recorded started messages)) λ r.
        given λ c.
          on_choice r.result.pass _ _ (λ t. complete-Hoare job r t c)
            (λ f.
              to_world (λ u w h. p.stays w.db h) (λ w h. p.stays w.db h)
                (give_up-Stays out p.before job r))
  repair_loop-Hoare (suc n) job prompt recorded started messages =
      on_bind _ _ (early (qa_round-Checked out p.before job prompt recorded started messages)) λ r.
        given λ c.
          on_choice r.result.pass _ _ (λ t. complete-Hoare job r t c)
            (λ f. repair_loop-Hoare n job (repair_turn r.result.errors) true true r.messages)

  pub engineer_qa-Hoare :
      (job : Job) (idea plan : Text) (messages : List Turn)
      → Hoare (OnDb K) (engineer_qa out job idea plan messages) (λ u. OnDb L) (OnDb L)
  unfolding engineer_qa
  engineer_qa-Hoare job idea plan messages = repair_loop-Hoare _ job _ _ _ messages
