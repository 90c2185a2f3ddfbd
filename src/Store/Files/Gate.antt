-- ===== src/Store/Files/Gate.antt =====
-- The compile gate of a manual edit (`WriteFile` of internal/store/files.go).
use vibe_forge.Base.{ℕ, ◌≡◌, ◌∙◌, sym, refl, true, false, Option, some, List, Text, arith}
use vibe_forge.Compile.Validate.{validate}
use vibe_forge.Store.Model.{Key, Project, FileSnapshot, Body, Db, Env}
use vibe_forge.Store.Files.{
  write_file_checks, write_draft, accept_edit, reject_edit, write_file_body,
}
use vibe_forge.Store.Tx.{ok}
use vibe_forge.Store.Tx.Keeps.{Keeps, Keeps-query, keeps_rules}
use vibe_forge.Store.Tx.Triple.{
  Triple, after, after_keeps, after_fail_if, on_pure, on_if, from_before,
}
use vibe_forge.Store.Frame.{
  On, iteration-Keeps, result-Keeps, files-Keeps, refuse-Keeps, snapshot-Keeps,
}
use vibe_forge.Store.Sound.Tables.{stable_of}
use vibe_forge.Store.Versions.Failing.{
  SameProjects, insert_version-Keeps, set_status-Keeps, files_grow,
}
use vibe_forge.Store.Versions.Swap.{Moved, cas_stable-Swapped, Swapped-Moved, true_not_false}

module _ (before : List Project) where
  abbrev Same : Db → Type 0
  Same = On (SameProjects before)

  checks-Keeps :
      (project : Key) (content : Text) (base : Option Key)
      → Keeps Same (write_file_checks project content base)
  unfolding write_file_checks
  checks-Keeps project content base =
      search (keeps_rules, refuse-Keeps (SameProjects before)) depth 14

  write_draft-Keeps :
      (env : Env) (project stable : Key) (files : List FileSnapshot)
      → Keeps Same (write_draft env project stable files)
  unfolding write_draft
  write_draft-Keeps env project stable files =
      search
        (
          keeps_rules,
          iteration-Keeps (SameProjects before),
          insert_version-Keeps,
          files-Keeps (SameProjects before) files_grow,
          result-Keeps (SameProjects before),
        )
        depth 12

-- What the transaction leaves: the refusal and the projects as before, or the new stable version.
Outcome : Env → Key → Text → List Project → ℕ × Body → Db → Type 0
Outcome env project content before out db =
    ((validate content).pass ≡ false
      → (out ≡ (422, Body.compile_errors_body (validate content).errors)) × (db.projects ≡ before))
    × ((validate content).pass ≡ true
        → (out.0 ≡ 202) × (stable_of project db.projects ≡ some (env.new_id 1)))

reject_edit-Outcome :
    (env : Env) (project : Key) (content : Text) (before : List Project)
    → (validate content).pass ≡ false
    → Triple
        (On (SameProjects before))
        (reject_edit env (validate content).errors)
        (Outcome env project content before)
unfolding reject_edit Outcome
reject_edit-Outcome env project content before f =
    after_keeps _ _ (set_status-Keeps _ _)
      λ _. on_pure _ λ db h. (λ e. (refl, h), λ t. absurd (true_not_false (sym t ∙ f)))

accept_edit-Outcome :
    (env : Env) (project stable : Key) (content : Text) (before : List Project)
    → (validate content).pass ≡ true
    → Triple
        (On (SameProjects before))
        (accept_edit env project stable)
        (Outcome env project content before)
unfolding accept_edit Outcome Moved
accept_edit-Outcome env project stable content before t =
    after_keeps _ _ (set_status-Keeps _ _) λ _.
      after _ _ (cas_stable-Swapped before env.now project (some stable) (env.new_id 1)) λ swapped.
        after_fail_if _ _ _ λ s.
          from_before (Swapped-Moved before project (some stable) _ swapped (ground arith)) (
            after_keeps _ _ (snapshot-Keeps (Moved before project (some stable) (env.new_id 1)) _ _)
              λ _. on_pure _ λ db h. (λ f. absurd (true_not_false (sym t ∙ f)), λ e. (refl, h.1)))

write_file_body-Outcome :
    (env : Env) (project : Key) (content : Text) (base : Option Key) (before : List Project)
    → Triple
        (On (SameProjects before))
        (write_file_body env project content base)
        (Outcome env project content before)
unfolding write_file_body
write_file_body-Outcome env project content base before =
    after_keeps _ _ (checks-Keeps before project content base) λ stable.
      after_keeps _ _ (Keeps-query _) λ files.
        after_keeps _ _ (write_draft-Keeps before env project stable _) λ _.
          on_if (validate content).pass _ (reject_edit env (validate content).errors)
            (accept_edit-Outcome env project stable content before)
            (reject_edit-Outcome env project content before)

-- A manual edit that commits: where the content fails the compile gate, the answer is 422 with the
-- gate's errors and no project changes; where it passes, the answer is 202 and the new version is
-- the project's stable version.
pub write_file-gate :
    (env : Env) (project : Key) (content : Text) (base : Option Key) (db db' : Db) (out : ℕ × Body)
    → write_file_body env project content base db ≡ ok (out, db')
    → ((validate content).pass ≡ false
        → (out ≡ (422, Body.compile_errors_body (validate content).errors))
          × (db'.projects ≡ db.projects))
      × ((validate content).pass ≡ true
          → (out.0 ≡ 202) × (stable_of project db'.projects ≡ some (env.new_id 1)))
unfolding Outcome
write_file-gate env project content base db db' out run =
    (write_file_body-Outcome env project content base db.projects).at db refl out db' run
