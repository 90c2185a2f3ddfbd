-- ===== src/Store/Sound/Drafts.antt =====
-- The invariant of the stable version and the draft versions of internal/store/draft.go.
use vibe_forge.Base.{ℕ, ◌≡◌, true, Option, some, List, arith}
use vibe_forge.Store.Model.{Db, Key, Version, FileSnapshot, Env, is_draft}
use vibe_forge.Store.Table.{by_key, key-by_key}
use vibe_forge.Store.Drafts.{
  create_draft_version, find_draft, promote_from, promote, promote_draft_version, fail_draft,
  fail_draft_version, begin_attempt, fail_run, new_attempt,
}
use vibe_forge.Store.Frame.{
  On, result-Keeps, files-Keeps, settle-Keeps, start_attempt-Keeps, update_run-Keeps,
  update_attempts-Keeps, bump-Keeps,
}
use vibe_forge.Store.Tx.Keeps.{Keeps, Keeps-or_fail, Keeps-query, Keeps-pure, keeps_rules}
use vibe_forge.Store.Tx.Triple.{
  Triple, after, after_keeps, after_query, on_or_fail, on_if, of_keeps, to_keeps, from_before,
}
use vibe_forge.Store.Sound.Tables.{Kept, IsSound, version_id}
use vibe_forge.Store.Sound.Steps.{
  Tables, Sound, Ready, Pending, insert_version-Sound, cas_stable-Sound, set_stable-Ready,
  set_failed-Sound, files_stay,
}

-- The version that `find_draft` returns, as the tables hold it.
Held : Kept → Version → Tables
Held K v projects versions files =
    IsSound K projects versions × (by_key version_id v.id versions ≡ some v)

module _ {K : Kept} where
  pub create_draft_version-Sound :
      (env : Env) (project iteration : Key) (files : List FileSnapshot)
      → Keeps (On (Sound K)) (create_draft_version env project iteration files)
  unfolding create_draft_version
  create_draft_version-Sound env project iteration files =
      search (keeps_rules, insert_version-Sound, files-Keeps (Sound K) files_stay) depth 12

  find_draft-Held : (draft : Key) → Triple (On (Sound K)) (find_draft draft) (λ v. On (Held K v))
  unfolding find_draft Held
  find_draft-Held draft = after_query _ _ λ found.
      on_or_fail _ found
        λ v db e h. (h.0, ground (arith, key-by_key version_id draft db.versions v))

  Held-Pending :
      (v : Version)
      → is_draft v.status ≡ true
      → (db : Db) → On (Held K v) db
      → On (Pending K v.id v.project_id) db
  unfolding Held
  Held-Pending v d db h = (h.0, ground arith)

  Held-Sound : (v : Version) (db : Db) → On (Held K v) db → On (Sound K) db
  unfolding Held
  Held-Sound v db h = h.0

  promote_from-Sound :
      (env : Env) (v : Version) (base run attempt : Option Key)
      → Triple
          (On (Pending K v.id v.project_id))
          (promote_from env v base run attempt)
          (λ _. On (Sound K))
  unfolding promote_from
  promote_from-Sound env v base run attempt =
      let ready : Tables = Ready K v.id v.project_id in
      after _ _ (set_stable-Ready v.id v.project_id) λ _.
        after_keeps _ _ (result-Keeps ready _ _) λ _.
          after _ _ (cas_stable-Sound env.now v.project_id base v.id)
            λ swapped. of_keeps (search (keeps_rules, settle-Keeps (Sound K)))

  promote-Sound :
      (env : Env) (v : Version) (run attempt : Option Key)
      → Triple (On (Pending K v.id v.project_id)) (promote env v run attempt) (λ _. On (Sound K))
  unfolding promote
  promote-Sound env v run attempt = after_keeps _ _ (Keeps-query _) λ found.
      after_keeps _ _ (Keeps-or_fail _ found)
        λ i. promote_from-Sound env v i.base_version_id run attempt

  pub promote_draft_version-Sound :
      (env : Env) (draft : Key) (run attempt : Option Key)
      → Keeps (On (Sound K)) (promote_draft_version env draft run attempt)
  unfolding promote_draft_version
  promote_draft_version-Sound env draft run attempt = to_keeps (
      after _ _ (find_draft-Held draft) λ v.
        on_if _ _ _ (λ d. from_before (Held-Pending v d) (promote-Sound env v run attempt))
          (λ d. from_before (Held-Sound v) (of_keeps (Keeps-pure v))))

  fail_draft-Sound :
      (env : Env) (v : Version) (run attempt : Option Key)
      → Triple (On (Pending K v.id v.project_id)) (fail_draft env v run attempt) (λ _. On (Sound K))
  unfolding fail_draft
  fail_draft-Sound env v run attempt =
      after _ _ (set_failed-Sound v.id v.project_id)
        λ _. of_keeps (search (keeps_rules, result-Keeps (Sound K), settle-Keeps (Sound K)))

  pub fail_draft_version-Sound :
      (env : Env) (draft : Key) (run attempt : Option Key)
      → Keeps (On (Sound K)) (fail_draft_version env draft run attempt)
  unfolding fail_draft_version
  fail_draft_version-Sound env draft run attempt = to_keeps (
      after _ _ (find_draft-Held draft) λ v.
        on_if _ _ _ (λ d. from_before (Held-Pending v d) (fail_draft-Sound env v run attempt))
          (λ d. from_before (Held-Sound v) (of_keeps (Keeps-pure v))))

module _ (P : Tables) where
  pub begin_attempt-Keeps :
      (env : Env) (run attempt : Key) → Keeps (On P) (begin_attempt env run attempt)
  unfolding begin_attempt
  begin_attempt-Keeps env run attempt =
      search (keeps_rules, update_attempts-Keeps, update_run-Keeps, bump-Keeps)

  pub fail_run-Keeps : (env : Env) (run : Key) → Keeps (On P) (fail_run env run)
  unfolding fail_run
  fail_run-Keeps env run = search (keeps_rules, update_attempts-Keeps, update_run-Keeps, bump-Keeps)

  pub new_attempt-Keeps :
      (env : Env) (run : Key) (round : ℕ) → Keeps (On P) (new_attempt env run round)
  unfolding new_attempt
  new_attempt-Keeps env run round = search (keeps_rules, start_attempt-Keeps)
