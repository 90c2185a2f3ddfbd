-- ===== src/Store/Drafts/Rows.antt =====
-- What the agent loop's transactions keep of the runs and the versions (internal/store/draft.go and
-- run.go), up to the one that ends its run.
use vibe_forge.Base.{
  ℕ, ◌≡◌, ◌∙◌, refl, Bool, true, false, none, List, [], ◌∷◌, ◌++◌, Text, arith, ◌==◌,
}
use vibe_forge.Contract.{Stage}
use vibe_forge.Store.Model.{
  Key, Run, RunStatus, Attempt, StageArtifact, ArtifactType, Version, VersionStatus, FileSnapshot,
  Message, Role, Event, EventType, Payload, Db, Env, is_draft,
}
use vibe_forge.Store.Table.{by_key, key-by_key, by_key-update, by_key-insert}
use vibe_forge.Store.Rows.{
  is_some, insert_version, insert_message, insert_event, insert_artifact, insert_files, insert_file,
  set_version_status, set_iteration_result, update_run, update_attempts,
}
use vibe_forge.Store.Follow.{bump-Keeps, apply-Keeps, stage_for_attempt-Keeps}
use vibe_forge.Store.Versions.{settle_run}
use vibe_forge.Store.Events.{append_event, append_message, record_stage_artifact}
use vibe_forge.Store.Drafts.{
  begin_attempt, create_draft_version, find_draft, fail_draft, fail_draft_version,
}
use vibe_forge.Store.Tx.Keeps.{
  Keeps, Keeps-pure, Keeps-query, Keeps-modify, Keeps-write_if, Keeps-bind, keeps_rules,
}
use vibe_forge.Store.Tx.Triple.{
  Triple, of_keeps, to_keeps, after, after_keeps, after_query, after_fail_if, on_or_fail, on_if,
  on_modify, on_write_if, on_pure,
}
use vibe_forge.Store.Sound.Tables.{version_id}
use vibe_forge.Store.Drafts.Settling.{run_id, Held, DraftAt, HeldDraft}

abbrev pub OnRows : (List Run → List Version → Type 0) → Db → Type 0
OnRows P db = P db.runs db.versions

-- The notes of a run leave the runs and the versions alone.
module _ (P : List Run → List Version → Type 0) where
  event-Keeps : (e : Event) → Keeps (OnRows P) (insert_event e)
  unfolding insert_event
  event-Keeps e = Keeps-write_if _ _ λ db t h. h

  message-Keeps : (m : Message) → Keeps (OnRows P) (insert_message m)
  unfolding insert_message
  message-Keeps m = Keeps-write_if _ _ λ db t h. h

  artifact-Keeps : (a : StageArtifact) → Keeps (OnRows P) (insert_artifact a)
  unfolding insert_artifact
  artifact-Keeps a = Keeps-write_if _ _ λ db t h. h

  pub append_event-Keeps :
      (env : Env) (run : Key) (type : EventType) (payload : Payload)
      → Keeps (OnRows P) (append_event env run type payload)
  unfolding append_event
  append_event-Keeps env run type payload = Keeps-bind _ _ (Keeps-query _) λ seq.
      Keeps-bind _ _ (event-Keeps _) λ u.
        Keeps-bind _ _ (apply-Keeps (OnRows P) (λ db w h. h) (λ db s h. h) run type env.now payload)
          λ u2. Keeps-pure _

  pub append_message-Keeps :
      (env : Env) (project : Key) (role : Role) (content : Text)
      → Keeps (OnRows P) (append_message env project role content)
  unfolding append_message
  append_message-Keeps env project role content = search (keeps_rules, message-Keeps)

  pub record_stage_artifact-Keeps :
      (env : Env) (run attempt : Key) (s : Stage) (type : ArtifactType) (ref : Text)
      → Keeps (OnRows P) (record_stage_artifact env run attempt s type ref)
  unfolding record_stage_artifact
  record_stage_artifact-Keeps env run attempt s type ref =
      let bump = bump-Keeps (OnRows P) (λ db w h. h) (λ db s h. h) in
      let stage = stage_for_attempt-Keeps (OnRows P) (λ db w h. h) (λ db s h. h) in
      search (keeps_rules, artifact-Keeps, bump, stage) depth 14

  update_attempts-Keeps :
      (test : Attempt → Bool) (f : Attempt → Attempt) → Keeps (OnRows P) (update_attempts test f)
  unfolding update_attempts
  update_attempts-Keeps test f = Keeps-modify _ λ db h. h

  files-Keeps :
      (env : Env) (n : ℕ) (version : Key) (files : List FileSnapshot)
      → Keeps (OnRows P) (insert_files env n version files)
  unfolding insert_files insert_file
  files-Keeps env n version [] = Keeps-pure tt
  files-Keeps env n version (f ∷ files) =
      Keeps-bind _ _ (Keeps-write_if _ _ λ db t h. h) λ u. files-Keeps env _ version files

inserted_draft :
    (v : Version) (versions : List Version)
    → is_some (by_key version_id v.id versions) ≡ false
    → is_draft v.status ≡ true
    → DraftAt v.id (versions ++ v ∷ [])
inserted_draft v versions fresh d = (v, ground (arith, by_key-insert version_id v.id versions v), d)

module _ (env : Env) (run : Key) where
  -- The start of a run keeps it as the only active one.
  pub begin_attempt-Keeps :
      (X : List Version → Type 0) (attempt : Key)
      → Keeps (OnRows λ rs vs. Held run rs × X vs) (begin_attempt env run attempt)
  unfolding begin_attempt update_run
  begin_attempt-Keeps X attempt =
      let P : List Run → List Version → Type 0 = λ rs vs. Held run rs × X vs in
      Keeps-bind _ _ (update_attempts-Keeps P _ _) λ u.
        Keeps-bind _ _
          (Keeps-write_if _ _ λ db t h.
            let (r, found, one) = h.0 in
            let f : Run → Run =
              λ q. record q { status = RunStatus.running; updated_at = env.now } in
            let seen = by_key-update run_id run run f db.runs (λ q. refl) in
            ((f r, ground arith, ground arith), h.1))
          λ u2. bump-Keeps (OnRows P) (λ db w h. h) (λ db s h. h) run _ env.now

  -- A draft that is created is there.
  pub create_draft_version-Held :
      (project iteration : Key) (files : List FileSnapshot)
      → Triple
          (λ db. Held run db.runs)
          (create_draft_version env project iteration files)
          (λ v. HeldDraft run v.id)
  unfolding create_draft_version insert_version
  create_draft_version-Held project iteration files = after_keeps _ _ (Keeps-query _) λ exists.
      after_fail_if _ _ _ λ t.
        after _ _
          (on_write_if _ _ {R = HeldDraft run (env.new_id 0)}
            λ db t2 h. (h, inserted_draft _ db.versions (ground arith) refl))
          λ u.
            after_keeps _ _
              (files-Keeps (λ rs vs. Held run rs × DraftAt (env.new_id 0) vs) env _ _ _)
              λ u2. on_pure _ λ db h. h

  find_other :
      (draft previous : Key)
      → Triple
          (HeldDraft run draft)
          (find_draft previous)
          (λ v db. HeldDraft run draft db × (v.id ≡ previous))
  unfolding find_draft
  find_other draft previous = after_query _ _ λ found.
      on_or_fail _ found λ v db e h. (h.0, key-by_key version_id previous db.versions v (h.1 ∙ e))

  -- Another version that fails leaves the draft alone.
  pub fail_other-Keeps :
      (draft previous : Key)
      → (previous == draft) ≡ false
      → Keeps (HeldDraft run draft) (fail_draft_version env previous none none)
  unfolding fail_draft_version fail_draft set_version_status set_iteration_result settle_run
  fail_other-Keeps draft previous other = to_keeps (
      after _ _ (find_other draft previous) λ v.
        on_if (is_draft v.status) _ _
          (λ d.
            after _ _
              (on_modify _ {R = HeldDraft run draft} λ db h.
                let (w, there, is) = h.0.1 in
                let seen =
                  by_key-update version_id draft v.id
                    (λ x. record x { status = VersionStatus.failed }) db.versions (λ x. refl) in
                (h.0.0, (w, ground (arith, h.1), is)))
              λ u. of_keeps (
                Keeps-bind _ _ (Keeps-modify _ λ db h. h) λ u2.
                  Keeps-bind _ _
                    (Keeps-bind _ _ (Keeps-pure tt)
                      λ a. Keeps-bind _ _ (Keeps-pure tt) λ b. Keeps-pure tt)
                    λ u3. Keeps-pure _))
          λ d. on_pure v λ db h. h.0)
