-- ===== src/Store/Recovery/Completed.antt =====
-- When a recovered workflow counts as completed (recoverWorkflowTx of
-- internal/store/workflow_state.go).
use vibe_forge.Base.{
  ◌≡◌, ◌∙◌, ◌↔◌, refl, sym, ap, subst, Bool, true, false, ◌||◌, any, Option, some, List, [], ◌∷◌,
  All, Bool-cases, inl, inr, arith, if◌then◌else◌,
}
use vibe_forge.Contract.{Stage, pm, architect, engineer, qa, stage_order}
use vibe_forge.Store.Model.{Key, Run, RunStatus, Attempt, WorkflowStatus, WorkflowState, Db, Env}
use vibe_forge.Store.Table.{by_key-insert}
use vibe_forge.Store.Rows.{is_some}
use vibe_forge.Store.Pointer.{run_workflow_status, workflow_of}
use vibe_forge.Store.Recovery.{
  Evidence, recovered_status, recovered_row, historical_evidence, last_attempt, attempt_id,
  insert_workflow, is_recovering, backfill_stages, load_project_workflow, first_state, recover_run,
}
use vibe_forge.Store.Recovery.Artifacts.{
  LeftArtifact, Latest, historical_evidence-LeftArtifact, last_attempt-Latest,
}
use vibe_forge.Store.Tx.{ok, ◌>>=◌, ◌>>◌}
use vibe_forge.Store.Tx.Triple.{
  Triple, after, after_any, after_query, on_pure, on_write_if, on_or_fail,
}

abbrev recovers : Run → Option Attempt → Evidence → Stage → Bool
recovers r a ev s = is_recovering (recovered_row r a ev s).status

backfill-recovers :
    (r : Run) (a : Option Attempt) (ev : Evidence) (stages : List Stage)
    → Triple
        (λ db. Unit {0})
        (backfill_stages r a ev stages)
        (λ found db. found ≡ any (recovers r a ev) stages)
unfolding backfill_stages
backfill-recovers r a ev [] = on_pure _ λ db h. refl
backfill-recovers r a ev (s ∷ stages) = after_any _ _ λ u.
    after _ _ (backfill-recovers r a ev stages)
      λ more. on_pure _ λ db h. ap (λ m. recovers r a ev s || m) h

-- The stage left an artifact.
abbrev pub HasArtifact : Evidence → Stage → Type 0
HasArtifact ev s = is_some (ev.of_stage s).artifact_at ≡ true

All-HasArtifact :
    (r : Run) (a : Option Attempt) (ev : Evidence) (stages : List Stage)
    → r.status ≡ RunStatus.succeeded
    → (any (recovers r a ev) stages ≡ false) ↔ All (HasArtifact ev) stages
unfolding recovered_status
All-HasArtifact r a ev [] e = (λ h. tt, λ h. refl)
All-HasArtifact r a ev (s ∷ stages) e = elim (Bool-cases (is_some (ev.of_stage s).artifact_at)) [
  | inl t ↦
      let calm : recovers r a ev s ≡ false = rw (e, t) refl in
      (
        λ h. (t, (All-HasArtifact r a ev stages e).0 (ground arith)),
        λ h. rw (calm) ((All-HasArtifact r a ev stages e).1 h.1),
      )
  | inr f ↦
      let hit : recovers r a ev s ≡ true = elim (Bool-cases (is_some (ev.of_stage s).started_at)) [
        | inl b ↦ rw (e, f, b) refl
        | inr b ↦ rw (e, f, b) refl
      ] in
      (λ h. absurd (ground arith), λ h. absurd (ground arith))
]

inserted_workflow :
    (w : WorkflowState)
    → Triple (λ db. Unit {0}) (insert_workflow w) (λ u db. workflow_of db w.project_id ≡ some w)
unfolding insert_workflow
inserted_workflow w = on_write_if _ _ λ db t h.
    ground (arith, by_key-insert (λ (x : WorkflowState). x.project_id) w.project_id db.workflows w)

loaded_workflow :
    (project : Key) (w : WorkflowState)
    → Triple (λ db. workflow_of db project ≡ some w) (load_project_workflow project) (λ x db. x ≡ w)
loaded_workflow project w =
    after_query _ _ λ found. on_or_fail _ found λ x db e h. ground (arith, h.0, h.1, e)

abbrev rebuilt_status : Run → Bool → WorkflowStatus
rebuilt_status r found = if found then WorkflowStatus.recovering else run_workflow_status r.status

is_completed_iff :
    (r : Run) (found : Bool)
    → r.status ≡ RunStatus.succeeded
    → (rebuilt_status r found ≡ WorkflowStatus.completed) ↔ (found ≡ false)
unfolding run_workflow_status
is_completed_iff r true e = (λ h. absurd (cc), λ h. absurd (cc))
is_completed_iff r false e = (λ h. refl, λ h. rw (e) refl)

-- What is left of the recovery once the evidence is read.
rebuilt :
    (env : Env) (project : Key) (r : Run) (a : Option Attempt) (ev : Evidence)
    → r.status ≡ RunStatus.succeeded
    → Triple
        (λ db. Unit {0})
        (do
          found ← backfill_stages r a ev stage_order
          insert_workflow (first_state env project (some r.id) (rebuilt_status r found))
          load_project_workflow project)
        (λ w db. (w.status ≡ WorkflowStatus.completed) ↔ All (HasArtifact ev) stage_order)
rebuilt env project r a ev e = after _ _ (backfill-recovers r a ev stage_order) λ found. record {
  at = λ db h w db' t.
      let w_is : w ≡ first_state env project (some r.id) (rebuilt_status r found) =
        (after _ _ (inserted_workflow _) λ u. loaded_workflow project _).at db tt w db' t in
      let status = ap (λ (x : WorkflowState). x.status) w_is in
      let complete = is_completed_iff r found e in
      let exact = All-HasArtifact r a ev stage_order e in
      (
        λ c. exact.0 (sym h ∙ complete.0 (sym status ∙ c)),
        λ k. status ∙ complete.1 (h ∙ exact.1 k),
      );
}

-- The evidence that the recovery of a run reads.
abbrev pub evidence_of : Run → Db → Evidence
evidence_of r db = historical_evidence r.id (attempt_id (last_attempt r.id db.attempts)) db

recover_run-Triple :
    (env : Env) (project : Key) (r : Run) (db : Db)
    → r.status ≡ RunStatus.succeeded
    → Triple
        (λ x. x ≡ db)
        (recover_run env project r)
        (λ w x.
          (w.status ≡ WorkflowStatus.completed) ↔ All (HasArtifact (evidence_of r db)) stage_order)
unfolding recover_run
recover_run-Triple env project r db e = after_query _ _ λ a. after_query _ _ λ ev. record {
  at = λ x h w x' t.
      let same : ev ≡ evidence_of r db =
        sym h.1
        ∙ ap (λ o. historical_evidence r.id (attempt_id o) x) (sym h.0.1)
        ∙ ap (evidence_of r) h.0.0 in
      subst (λ k. (w.status ≡ WorkflowStatus.completed) ↔ All (HasArtifact k) stage_order) same
        ((rebuilt env project r a ev e).at x tt w x' t);
}

-- The four stages in order are all the stages.
each_stage :
    (r : Run) (db : Db) (o : Option Key)
    → historical_evidence r.id o db ≡ evidence_of r db
    → All (HasArtifact (evidence_of r db)) stage_order ↔ ((s : Stage) → LeftArtifact r.id o db s)
each_stage r db o e =
    let left = λ (s : Stage). historical_evidence-LeftArtifact r.id o db s in
    (
      λ h s. (left s).0 (subst (λ v. HasArtifact v s) (sym e) (at_each h s)),
      λ k. rw (← e) (
        (left pm).1 (k pm),
        (
          (left architect).1 (k architect),
          ((left engineer).1 (k engineer), ((left qa).1 (k qa), tt)),
        ),
      ),
    )
  where
    at_each :
        All (HasArtifact (evidence_of r db)) stage_order
        → (s : Stage) → HasArtifact (evidence_of r db) s
    at_each h Stage.pm = h.0
    at_each h Stage.architect = h.1.0
    at_each h Stage.engineer = h.1.1.0
    at_each h Stage.qa = h.1.1.1.0

-- The workflow that is rebuilt for a run that succeeded counts as completed exactly where each of the
-- four stages left an artifact, stored for the run and for its last attempt, the one with the greatest
-- sequence; for a run without attempts an artifact of the run is enough.
pub recover_run-completed :
    (env : Env) (project : Key) (r : Run) (db db' : Db) (w : WorkflowState)
    → r.status ≡ RunStatus.succeeded
    → recover_run env project r db ≡ ok (w, db')
    → (last : Option Attempt) × Latest r.id db.attempts last
      × ((w.status ≡ WorkflowStatus.completed)
          ↔ ((s : Stage) → LeftArtifact r.id (attempt_id last) db s))
recover_run-completed env project r db db' w e done =
    let last = last_attempt r.id db.attempts in
    let complete = (recover_run-Triple env project r db e).at db refl w db' done in
    let each = each_stage r db (attempt_id last) refl in
    (
      last,
      last_attempt-Latest r.id db.attempts,
      (λ c. each.0 (complete.0 c), λ k. complete.1 (each.1 k)),
    )
