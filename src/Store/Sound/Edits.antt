-- ===== src/Store/Sound/Edits.antt =====
-- The invariant of the stable version, the manual edit (internal/store/files.go) and the restore of a
-- version (internal/store/version.go).
use vibe_forge.Base.{
  ℕ, ◌≡◌, ◌∙◌, refl, true, Option, some, List, [], ◌∷◌, Text, arith, Bool-cases, inl, inr,
}
use vibe_forge.Compile.Report.{CompileError}
use vibe_forge.Compile.Validate.{validate}
use vibe_forge.Store.Model.{Db, Key, Version, FileSnapshot, Env, Endpoint, is_stable}
use vibe_forge.Store.Table.{first_where}
use vibe_forge.Store.Versions.{is_version_of, restore_version_body, restore_version}
use vibe_forge.Store.Files.{
  write_file_checks, write_draft, accept_edit, reject_edit, write_file_body, write_file,
}
use vibe_forge.Store.Frame.{
  On, iteration-Keeps, result-Keeps, files-Keeps, refuse-Keeps, snapshot-Keeps, idempotent-Keeps,
}
use vibe_forge.Store.Tx.Keeps.{Keeps, Keeps-or_fail, Keeps-query, Keeps-pure, keeps_rules}
use vibe_forge.Store.Tx.Triple.{
  Triple, after, after_keeps, after_query, after_or_fail, after_fail_if, on_if, of_keeps, to_keeps,
  from_before,
}
use vibe_forge.Store.Sound.Tables.{Kept}
use vibe_forge.Store.Sound.Steps.{
  Tables, Sound, Ready, Pending, insert_version-Pending, cas_stable-Sound, set_stable-Ready,
  set_failed-Sound,
}

checks-Keeps :
    (P : Tables) (project : Key) (content : Text) (base : Option Key)
    → Keeps (On P) (write_file_checks project content base)
unfolding write_file_checks
checks-Keeps P project content base = search (keeps_rules, refuse-Keeps P) depth 14

-- The row that is found is the version by its key.
found_matches :
    (project version : Key) (rows : List Version) (v : Version)
    → first_where (is_version_of project version) rows ≡ some v
    → is_version_of project version v ≡ true
unfolding first_where
found_matches project version [] v e = absurd (cc)
found_matches project version (w ∷ rows) v e = elim (Bool-cases (is_version_of project version w)) [
  | inl t ↦ ground (arith, found_matches project version rows v)
  | inr f ↦ ground (arith, found_matches project version rows v)
]

module _ {K : Kept} where
  write_draft-Pending :
      (env : Env) (project stable : Key) (files : List FileSnapshot)
      → Triple
          (On (Sound K))
          (write_draft env project stable files)
          (λ _. On (Pending K (env.new_id 1) project))
  unfolding write_draft
  write_draft-Pending env project stable files =
      let pending : Tables = Pending K (env.new_id 1) project in
      after_keeps _ _ (iteration-Keeps (Sound K) _) λ _.
        after _ _ (insert_version-Pending _ refl) λ _.
          after_keeps _ _ (files-Keeps pending (λ ps vs fs f h. h) env 2 _ files)
            λ _. of_keeps (result-Keeps pending _ _)

  accept_edit-Sound :
      (env : Env) (project stable : Key)
      → Triple
          (On (Pending K (env.new_id 1) project))
          (accept_edit env project stable)
          (λ _. On (Sound K))
  unfolding accept_edit
  accept_edit-Sound env project stable = after _ _ (set_stable-Ready (env.new_id 1) project) λ _.
      after _ _ (cas_stable-Sound env.now project _ _)
        λ swapped. of_keeps (search (keeps_rules, snapshot-Keeps (Sound K)))

  reject_edit-Sound :
      (env : Env) (project : Key) (errors : List CompileError)
      → Triple (On (Pending K (env.new_id 1) project)) (reject_edit env errors) (λ _. On (Sound K))
  unfolding reject_edit
  reject_edit-Sound env project errors =
      after _ _ (set_failed-Sound (env.new_id 1) project) λ _. of_keeps (Keeps-pure _)

  write_file_body-Sound :
      (env : Env) (project : Key) (content : Text) (base : Option Key)
      → Keeps (On (Sound K)) (write_file_body env project content base)
  unfolding write_file_body
  write_file_body-Sound env project content base = to_keeps (
      after_keeps _ _ (checks-Keeps (Sound K) project content base) λ stable.
        after_keeps _ _ (Keeps-query _) λ files.
          after _ _ (write_draft-Pending env project stable _) λ _.
            on_if (validate content).pass _ (reject_edit env (validate content).errors)
              (λ _. accept_edit-Sound env project stable)
              (λ _. reject_edit-Sound env project (validate content).errors))

  pub write_file-Sound :
      (env : Env) (project : Key) (content : Text) (base : Option Key) (key : ℕ)
      → Keeps (On (Sound K)) (write_file env project content base key)
  unfolding write_file
  write_file-Sound env project content base key =
      idempotent-Keeps (Sound K) env Endpoint.write_file key _
        (write_file_body-Sound env project content base)

  found_ready :
      (project version : Key) (v : Version)
      → is_stable v.status ≡ true
      → (db : Db) → On (Sound K) db
      → first_where (is_version_of project version) db.versions ≡ some v
      → On (Ready K version project) db
  found_ready project version v s db h e = (
    h,
    ground (
      arith,
      h.keyed (is_version_of project version) v e,
      found_matches project version db.versions v e,
    ),
  )

  restore_version_body-Sound :
      (env : Env) (project version : Key)
      → Keeps (On (Sound K)) (restore_version_body env project version)
  unfolding restore_version_body
  restore_version_body-Sound env project version =
      let ready : Tables = Ready K version project in
      to_keeps (
        after_query _ _ λ found. after_or_fail _ found _ λ v e. after_fail_if _ _ _ λ st.
          from_before (λ db h. found_ready project version v (ground arith) db h.0 (h.1 ∙ e))
            (after_keeps _ _ (refuse-Keeps ready _ _) λ _. after_keeps _ _ (Keeps-query _) λ owner.
              after_keeps _ _ (Keeps-or_fail _ owner) λ p.
                after_keeps _ _ (iteration-Keeps ready _) λ _.
                  after _ _ (cas_stable-Sound env.now project _ version)
                    λ swapped. of_keeps (search keeps_rules)))

  pub restore_version-Sound :
      (env : Env) (project version : Key) (key : ℕ)
      → Keeps (On (Sound K)) (restore_version env project version key)
  unfolding restore_version
  restore_version-Sound env project version key =
      idempotent-Keeps (Sound K) env Endpoint.restore_version key _
        (restore_version_body-Sound env project version)
