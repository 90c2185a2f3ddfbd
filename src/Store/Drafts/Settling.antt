-- ===== src/Store/Drafts/Settling.antt =====
-- The end of a run (`settleRun` of internal/store/version.go, `FailRun`, `FailDraftVersion` and
-- `PromoteDraftVersion` of internal/store/draft.go): the writes that end a run always succeed.
use vibe_forge.Base.{
  ◌≡◌, ◌≤◌, refl, Bool, true, false, Option, none, some, List, [], ◌∷◌, arith, ltb,
}
use vibe_forge.Store.Model.{
  Key, Time, Run, RunStatus, Attempt, Version, WorkflowStatus, Db, Env, is_active, is_draft,
}
use vibe_forge.Store.Table.{by_key, update_key, count_where, by_key-update}
use vibe_forge.Store.Rows.{
  is_active_in, one_active, update_run, update_attempts, set_version_status, set_iteration_result,
  cas_stable,
}
use vibe_forge.Store.Pointer.{point_project_workflow, bump_followers, bump_workflow_for_run}
use vibe_forge.Store.Versions.{end_run, settle_run}
use vibe_forge.Store.Drafts.{
  find_draft, promote_from, promote, promote_draft_version, fail_draft, fail_draft_version,
  fail_run,
}
use vibe_forge.Store.Tx.{◌>>=◌}
use vibe_forge.Store.Tx.Keeps.{Keeps-pure, Keeps-query, Keeps-or_fail, Keeps-modify, Keeps-bind}
use vibe_forge.Store.Tx.Triple.{
  Triple, after, after_keeps, after_fail_if, on_if, on_modify, on_pure,
}
use vibe_forge.Store.Tx.Total.{
  Total, total-Triple, pure-Total, query-Total, or_fail-Total, if-Total, modify-Total,
  write_if-Total, bind-Total,
}
use vibe_forge.Store.Sound.Tables.{version_id}

abbrev pub run_id : Run → Key
run_id r = r.id

-- The run is there, and its project has no other active run.
abbrev pub Held : Key → List Run → Type 0
Held run runs =
    (r : Run) × (by_key run_id run runs ≡ some r) × (one_active r.project_id runs ≡ true)

-- The run is there and has ended.
abbrev pub Ended : Key → List Run → Type 0
Ended run runs = (r : Run) × (by_key run_id run runs ≡ some r) × (is_active r.status ≡ false)

-- The version is there and is a draft.
abbrev pub DraftAt : Key → List Version → Type 0
DraftAt draft versions =
    (v : Version) × (by_key version_id draft versions ≡ some v) × (is_draft v.status ≡ true)

abbrev pub OnRuns : (List Run → Type 0) → Db → Type 0
OnRuns P db = P db.runs

ended-fewer :
    (project k : Key) (status : RunStatus) (now : Time) (runs : List Run)
    → is_active status ≡ false
    → count_where (is_active_in project) (update_key run_id k (end_run status now) runs)
      ≤ count_where (is_active_in project) runs
unfolding count_where update_key
ended-fewer project k status now [] ends = ground arith
ended-fewer project k status now (r ∷ runs) ends =
    ground (arith, ended-fewer project k status now runs ends)

module _ (P : List Run → Type 0) where
  pub update_attempts-Total :
      (test : Attempt → Bool) (f : Attempt → Attempt)
      → Total (OnRuns P) (update_attempts test f) (λ u. OnRuns P)
  unfolding update_attempts
  update_attempts-Total test f = modify-Total _ λ db h. h

  point-Total :
      (p r : Key) (s : WorkflowStatus) (now : Time)
      → Total (OnRuns P) (point_project_workflow p r s now) (λ u. OnRuns P)
  unfolding point_project_workflow
  point-Total p r s now = modify-Total _ λ db h. h

  followers-Total :
      (r : Key) (s : WorkflowStatus) (now : Time)
      → Total (OnRuns P) (bump_followers r s now) (λ u. OnRuns P)
  unfolding bump_followers
  followers-Total r s now = modify-Total _ λ db h. h

  -- The run of a pointer is there.
  pub bump-Total :
      (run : Key) (s : WorkflowStatus) (now : Time)
      → ((runs : List Run) → P runs → (r : Run) × (by_key run_id run runs ≡ some r))
      → Total (OnRuns P) (bump_workflow_for_run run s now) (λ u. OnRuns P)
  unfolding bump_workflow_for_run
  bump-Total run s now there = bind-Total _ _ (query-Total _ {Q = λ n. OnRuns P} λ db h. h) λ n.
      bind-Total _ _ (followers-Total run s now) λ u.
        if-Total (ltb 0 n) _ _ (λ t. pure-Total tt λ db h. h)
          λ f.
            bind-Total _ _
              (query-Total _ {Q = λ found db. OnRuns P db × (by_key run_id run db.runs ≡ found)}
                λ db h. (h, refl))
              λ found.
                bind-Total _ _
                  (or_fail-Total _ found {Q = λ r. OnRuns P}
                    λ db h. let (r, e) = there db.runs h.0 in (r, cc, h.0))
                  λ r. bind-Total _ _ (query-Total _ {Q = λ known. OnRuns P} λ db h. h) λ known.
                    if-Total known _ _ (λ t. pure-Total tt λ db h. h) λ f2. point-Total _ run s now

module _ (run : Key) (status : RunStatus) (now : Time) (ends : is_active status ≡ false) where
  pub update_run-Ended :
      Total (OnRuns (Held run)) (update_run run (end_run status now)) (λ u. OnRuns (Ended run))
  unfolding update_run
  update_run-Ended = write_if-Total _ _ λ db h.
      let (r, found, one) = h in
      let fewer = ended-fewer r.project_id run status now db.runs ends in
      let seen = by_key-update run_id run run (end_run status now) db.runs (λ q. refl) in
      (ground arith, (end_run status now r, ground arith, ends))

  pub settle_run-Ended :
      (workflow : WorkflowStatus) (attempt : Option Key)
      → Total
          (OnRuns (Held run))
          (settle_run status workflow now (some run) attempt)
          (λ u. OnRuns (Ended run))
  unfolding settle_run
  settle_run-Ended workflow none = bind-Total _ _ update_run-Ended λ u.
      bind-Total _ _ (pure-Total tt {Q = λ x. OnRuns (Ended run)} λ db h. h)
        λ x. bump-Total (Ended run) run workflow now λ runs h. (h.0, h.1)
  settle_run-Ended workflow (some a) = bind-Total _ _ update_run-Ended λ u.
      bind-Total _ _ (update_attempts-Total (Ended run) _ _)
        λ x. bump-Total (Ended run) run workflow now λ runs h. (h.0, h.1)

-- The run is held and the version is a draft.
abbrev pub HeldDraft : Key → Key → Db → Type 0
HeldDraft run draft db = Held run db.runs × DraftAt draft db.versions

abbrev Drafted : Key → Version → Db → Type 0
Drafted run v db = Held run db.runs × (is_draft v.status ≡ true)

module _ (env : Env) (run : Key) where
  pub fail_run-Ended : Total (OnRuns (Held run)) (fail_run env run) (λ u. OnRuns (Ended run))
  unfolding fail_run
  fail_run-Ended = bind-Total _ _ (update_attempts-Total (Held run) _ _) λ u.
      bind-Total _ _ (update_run-Ended run RunStatus.failed env.now refl)
        λ u2. bump-Total (Ended run) run _ env.now λ runs h. (h.0, h.1)

  find_draft-Total : (draft : Key) → Total (HeldDraft run draft) (find_draft draft) (Drafted run)
  unfolding find_draft ◌>>=◌
  find_draft-Total draft = record {
    at = λ db h. let (v, found, d) = h.1 in (v, db, rw (found) refl, (h.0, d));
  }

  fail_draft-Ended :
      (v : Version) (attempt : Option Key)
      → Total (Drafted run v) (fail_draft env v (some run) attempt) (λ u. OnRuns (Ended run))
  unfolding fail_draft set_version_status set_iteration_result
  fail_draft-Ended v attempt =
      bind-Total _ _ (modify-Total _ {R = OnRuns (Held run)} λ db h. h.0) λ u.
        bind-Total _ _ (modify-Total _ {R = OnRuns (Held run)} λ db h. h) λ u2.
          bind-Total _ _ (settle_run-Ended run RunStatus.failed env.now refl _ attempt)
            λ u3. pure-Total _ λ db h. h

  pub fail_draft_version-Ended :
      (draft : Key) (attempt : Option Key)
      → Total
          (HeldDraft run draft)
          (fail_draft_version env draft (some run) attempt)
          (λ v. OnRuns (Ended run))
  unfolding fail_draft_version
  fail_draft_version-Ended draft attempt = bind-Total _ _ (find_draft-Total draft) λ v.
      if-Total (is_draft v.status) _ _ (λ d. fail_draft-Ended v attempt)
        λ d. pure-Total v λ db h. absurd (cc)

  promote_from-Ended :
      (v : Version) (base attempt : Option Key)
      → Triple
          (Drafted run v)
          (promote_from env v base (some run) attempt)
          (λ u. OnRuns (Ended run))
  unfolding promote_from set_version_status set_iteration_result cas_stable
  promote_from-Ended v base attempt =
      after _ _ (on_modify _ {R = OnRuns (Held run)} λ db h. h.0) λ u.
        after_keeps _ _ (Keeps-modify _ λ db h. h) λ u2.
          after_keeps _ _
            (Keeps-bind _ _ (Keeps-query _)
              λ swapped. Keeps-bind _ _ (Keeps-modify _ λ db h. h) λ x. Keeps-pure swapped)
            λ swapped. after_fail_if _ _ _ λ s.
              after _ _
                (total-Triple (settle_run-Ended run RunStatus.succeeded env.now refl _ attempt))
                λ u3. on_pure _ λ db h. h

  pub promote_draft_version-Ended :
      (draft : Key) (attempt : Option Key)
      → Triple
          (HeldDraft run draft)
          (promote_draft_version env draft (some run) attempt)
          (λ v. OnRuns (Ended run))
  unfolding promote_draft_version promote
  promote_draft_version-Ended draft attempt = after _ _ (total-Triple (find_draft-Total draft)) λ v.
      on_if (is_draft v.status) _ _
        (λ d.
          after_keeps _ _ (Keeps-query _)
            λ found. after_keeps _ _ (Keeps-or_fail _ found) λ i. promote_from-Ended v _ attempt)
        λ d. on_pure v λ db h. absurd (cc)
