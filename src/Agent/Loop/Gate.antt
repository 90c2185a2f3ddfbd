-- ===== src/Agent/Loop/Gate.antt =====
-- The gate before the promotion (internal/agent/agent.go): what a run of the loop may do to the
-- projects.
use vibe_forge.Base.{
  ℕ, ◌≡◌, ◌∙◌, refl, sym, ap, subst, ◌⊎◌, inl, inr, true, Text, Option, List, arith,
}
use vibe_forge.Store.Model.{Key, Time, Project, Version, FileSnapshot, Db, Env}
use vibe_forge.Store.Table.{by_key, update_key, key-by_key}
use vibe_forge.Store.Rows.{cas_stable, point_stable, base_holds}
use vibe_forge.Store.Drafts.{
  find_draft, create_draft_version, promote_from, promote, promote_draft_version,
}
use vibe_forge.Store.Tx.{Tx}
use vibe_forge.Store.Tx.Keeps.{Keeps, Keeps-query, Keeps-or_fail, keeps_rules}
use vibe_forge.Store.Tx.Triple.{
  Triple, after, after_keeps, after_query, after_fail_if, on_or_fail, on_if, on_modify, on_pure,
  from_before, from_after,
}
use vibe_forge.Store.Frame.{On, result-Keeps, files-Keeps, settle-Keeps}
use vibe_forge.Store.Sound.Tables.{project_id, version_id}
use vibe_forge.Store.Sound.Drafts.{begin_attempt-Keeps, fail_run-Keeps}
use vibe_forge.Store.Sound.Life.{
  append_event-Keeps, append_message-Keeps, record_stage_artifact-Keeps,
}
use vibe_forge.Store.Versions.Failing.{
  SameProjects, insert_version-Keeps, set_status-Keeps, files_grow, fail_draft_version-Keeps,
}
use vibe_forge.Compile.Validate.{validate}
use vibe_forge.Agent.Client.{Outside}
use vibe_forge.Agent.Runner.{World}
use vibe_forge.Agent.Spares.{Spares}
use vibe_forge.Agent.Rounds.{Round}
use vibe_forge.Agent.Rounds.Checked.{DraftOf, Checked, Promotes}
use vibe_forge.Agent.Loop.{loop_run}
use vibe_forge.Agent.Loop.Pipeline.{loop_run-keeps}

-- The other requests leave the projects alone.
abbrev pub OthersSpare : Outside → Type 0
OthersSpare out = (n : ℕ) (db : Db) → (out.others n db).projects ≡ db.projects

-- One project's stable version was `base` and is `version` now; nothing else changed.
unfoldable pub Switched : List Project → Key → Option Key → Key → List Project → Type 0
Switched before project base version projects =
    (base_holds (by_key project_id project before) base ≡ true)
    × (now : Time) × (projects
        ≡ update_key project_id project (point_stable now version base) before)

-- A draft of a content that passes the gate became a project's stable version.
abbrev pub Promoted : Outside → List Project → List Project → Type 0
Promoted out before projects =
    (app_tsx : Text) × (draft : Version) × (project : Key) × (base : Option Key) × ((validate
        app_tsx).pass
      ≡ true)
    × DraftOf out app_tsx draft
    × Switched before project base draft.id projects

abbrev pub SameOrPromoted : Outside → List Project → List Project → Type 0
SameOrPromoted out before projects = (projects ≡ before) ⊎ Promoted out before projects

by_projects :
    {A : Type 0} (R : List Project → Type 0) (tx : Tx A)
    → ((before : List Project) → Keeps (On (SameProjects before)) tx)
    → Keeps (λ db. R db.projects) tx
by_projects R tx k = record {
  at = λ db h a db' e. subst R (sym ((k db.projects).at db refl a db' e)) h;
}

create_draft_version-Keeps :
    (env : Env) (project iteration : Key) (files : List FileSnapshot) (before : List Project)
    → Keeps (On (SameProjects before)) (create_draft_version env project iteration files)
unfolding create_draft_version
create_draft_version-Keeps env project iteration files before =
    search (keeps_rules, insert_version-Keeps, files-Keeps (SameProjects before) files_grow) depth
      12

projects-Spares :
    (out : Outside)
    → OthersSpare out
    → (R : List Project → Type 0) → Spares out (λ db. R db.projects)
projects-Spares out others R = record {
  notes = record {
    others = λ n db h. subst R (sym (others n db)) h;
    event = λ env run type payload.
        by_projects R _ λ before. append_event-Keeps (SameProjects before) env run type payload;
    message = λ env project role content.
        by_projects R _
          λ before. append_message-Keeps (SameProjects before) env project role content;
    artifact = λ env run attempt s type ref.
        by_projects R _
          λ before. record_stage_artifact-Keeps (SameProjects before) env run attempt s type ref;
  };
  begin = λ env run attempt.
      by_projects R _ λ before. begin_attempt-Keeps (SameProjects before) env run attempt;
  create = λ env project iteration files.
      by_projects R _ (create_draft_version-Keeps env project iteration files);
  fail = λ env draft run attempt.
      by_projects R _ λ before. fail_draft_version-Keeps before env draft run attempt;
  fail_run = λ env run. by_projects R _ λ before. fail_run-Keeps (SameProjects before) env run;
}

-- Where the swap reports success, it switched.
cas_stable-Switched :
    (before : List Project) (now : Time) (project : Key) (base : Option Key) (version : Key)
    → Triple
        (On (SameProjects before))
        (cas_stable now project base version)
        (λ swapped db. swapped ≡ true → Switched before project base version db.projects)
unfolding cas_stable Switched
cas_stable-Switched before now project base version = after_query _ _ λ swapped.
    after _ _
      (on_modify _ {R = λ db. swapped ≡ true → Switched before project base version db.projects}
        λ db h s. (
          ap (λ ps. base_holds (by_key project_id project ps) base) (sym h.0) ∙ h.1 ∙ s,
          now,
          ap (update_key project_id project (point_stable now version base)) h.0,
        ))
      λ _. on_pure swapped λ db h. h

promote_from-Switched :
    (before : List Project) (env : Env) (v : Version) (base run attempt : Option Key)
    → Triple
        (On (SameProjects before))
        (promote_from env v base run attempt)
        (λ _ db. Switched before v.project_id base v.id db.projects)
unfolding promote_from
promote_from-Switched before env v base run attempt =
    let kept = settle-Keeps (λ ps vs fs. Switched before v.project_id base v.id ps) in
    after_keeps _ _ (set_status-Keeps _ _) λ _.
      after_keeps _ _ (result-Keeps (SameProjects before) _ _) λ _.
        after _ _ (cas_stable-Switched before env.now v.project_id base v.id) λ swapped.
          after_fail_if _ _ _ λ s.
            from_before (λ db h. h (ground arith))
              (after_keeps _ _ (kept _ _ _ _ _) λ _. on_pure _ λ db h. h)

module _ (out : Outside) (before : List Project) where
  abbrev Now : Db → Type 0
  Now db = SameOrPromoted out before db.projects

  find_draft-Found :
      (draft : Key)
      → Triple
          (On (SameProjects before))
          (find_draft draft)
          (λ v db. On (SameProjects before) db × (v.id ≡ draft))
  unfolding find_draft
  find_draft-Found draft = after_query _ _ λ found.
      on_or_fail _ found λ v db e h. (h.0, key-by_key version_id draft db.versions v (h.1 ∙ e))

  promote-Now :
      (app_tsx : Text) (draft : Version) (env : Env) (v : Version) (run attempt : Option Key)
      → (validate app_tsx).pass ≡ true
      → DraftOf out app_tsx draft
      → v.id ≡ draft.id
      → Triple (On (SameProjects before)) (promote env v run attempt) (λ _. Now)
  unfolding promote
  promote-Now app_tsx draft env v run attempt passed made same =
      after_keeps _ _ (Keeps-query _) λ found. after_keeps _ _ (Keeps-or_fail _ found) λ i.
        from_after
          (λ _ db s. inr (
            app_tsx,
            draft,
            v.project_id,
            i.base_version_id,
            passed,
            made,
            subst (λ k. Switched before v.project_id i.base_version_id k db.projects) same s,
          ))
          (promote_from-Switched before env v i.base_version_id run attempt)

  promote_draft_version-Now :
      (r : Round) (run attempt : Option Key) (env : Env)
      → r.result.pass ≡ true
      → Checked out r
      → Triple
          (On (SameProjects before))
          (promote_draft_version env r.draft.id run attempt)
          (λ _. Now)
  unfolding promote_draft_version
  promote_draft_version-Now r run attempt env passed (app_tsx, verdict, made) =
      after _ _ (find_draft-Found r.draft.id) λ v.
        on_if _ _ _
          (λ d. record {
            at = λ db h.
                (promote-Now app_tsx r.draft env v run attempt
                    (sym (ap (λ c. c.pass) verdict) ∙ passed) made h.1).at
                  db h.0;
          })
          (λ d. on_pure v λ db h. inl h.0)

  gate-Promotes : OthersSpare out → Promotes out (On (SameProjects before)) Now
  gate-Promotes others = record {
    before = projects-Spares out others (λ ps. ps ≡ before);
    behind = projects-Spares out others (SameOrPromoted out before);
    stays = λ db h. inl h;
    swap = λ job r passed checked env. promote_draft_version-Now r _ _ env passed checked;
  }

-- A run of the loop, whatever the model answers and whichever calls are refused, leaves every project
-- as it was, or it has switched the stable version of one project to a draft that was made of a
-- content that passes the gate, and changed nothing else of the projects but that project's time of
-- update. The other requests leave the projects alone meanwhile.
pub loop_run-gated :
    (out : Outside)
    → OthersSpare out
    → (run : Key) (w : World) → SameOrPromoted out w.db.projects (loop_run out run w).db.projects
loop_run-gated out others run w =
    loop_run-keeps out (gate-Promotes out w.db.projects others) run w refl
