-- ===== src/Store/Versions/Swap.antt =====
-- The compare-and-swap of a project's stable version in `commitVersionSteps`
-- (internal/store/version.go).
use vibe_forge.Base.{◌≡◌, ◌∙◌, refl, ap, sym, Bool, true, false, Option, none, some, List, arith}
use vibe_forge.Store.Model.{Key, Time, Project, Version, File, Iteration, Db, Env}
use vibe_forge.Store.Table.{by_key, update_key, by_key-update}
use vibe_forge.Store.Rows.{project_of, iteration_of, cas_stable, base_holds, point_stable}
use vibe_forge.Store.Versions.{
  FailPoint, fail_none, CommitInput, commit_new_version, commit_version, commit_version_steps,
}
use vibe_forge.Store.Tx.{ok, settle, in_tx, ◌>>=◌}
use vibe_forge.Store.Tx.Keeps.{Keeps-query, Keeps-fail_if}
use vibe_forge.Store.Tx.Triple.{
  Triple, after, after_keeps, after_query, after_fail_if, on_pure, on_modify, from_before,
  from_after, in_tx-refused,
}
use vibe_forge.Store.Frame.{On, result-Keeps, files-Keeps, settle-Keeps}
use vibe_forge.Store.Sound.Tables.{stable_of, project_id}
use vibe_forge.Store.Sound.Commits.{break-Keeps}
use vibe_forge.Store.Versions.Failing.{SameProjects, insert_version-Keeps, files_grow}

-- Where the swap reports success, the project's stable version was the base and is the version.
pub Swapped : List Project → Key → Option Key → Key → Bool → Db → Type 0
Swapped before project base version swapped db =
    (swapped ≡ base_holds (by_key project_id project before) base)
    × (swapped ≡ true → stable_of project db.projects ≡ some version)

swap_points :
    (now : Time) (project : Key) (base : Option Key) (version : Key) (rows : List Project)
    → base_holds (by_key project_id project rows) base ≡ true
    → stable_of project (update_key project_id project (point_stable now version base) rows)
      ≡ some version
swap_points now project base version rows h = ground (
  arith,
  by_key-update project_id project project (point_stable now version base) rows (λ q. ground arith),
)

pub cas_stable-Swapped :
    (before : List Project) (now : Time) (project : Key) (base : Option Key) (version : Key)
    → Triple
        (On (SameProjects before))
        (cas_stable now project base version)
        (Swapped before project base version)
unfolding cas_stable Swapped
cas_stable-Swapped before now project base version = after_query _ _ λ swapped.
    after _ _
      (on_modify _ {R = Swapped before project base version swapped} λ db h. (
        (sym h.1) ∙ ap (λ ps. base_holds (by_key project_id project ps) base) h.0,
        λ s. swap_points now project base version db.projects (h.1 ∙ s),
      ))
      λ _. on_pure swapped λ db h. h

-- The swap succeeded: the base was stable before, and the version is stable now.
unfoldable pub Moved :
    List Project → Key → Option Key → Key → List Project → List Version → List File → Type 0
Moved before project base version projects versions files =
    (base_holds (by_key project_id project before) base ≡ true)
    × (stable_of project projects ≡ some version)

pub Swapped-Moved :
    (before : List Project) (project : Key) (base : Option Key) (version : Key) (swapped : Bool)
    → swapped ≡ true
    → (db : Db) → Swapped before project base version swapped db
    → On (Moved before project base version) db
unfolding Swapped Moved
Swapped-Moved before project base version swapped s db h = (sym h.0 ∙ s, h.1 s)

pub true_not_false : ◌≡◌ {A = Bool} true false → ⊥
true_not_false e = cc

commit_new_version-Triple :
    (before : List Project) (env : Env) (input : CommitInput) (base : Option Key)
    (point : FailPoint)
    → Triple
        (On (SameProjects before))
        (commit_new_version env input base point)
        (λ v. On (Moved before input.project_id base v.id))
unfolding commit_new_version
commit_new_version-Triple before env input base point = after_keeps _ _ (Keeps-query _) λ exists.
    after_keeps _ _ (Keeps-fail_if _ _) λ _. after_keeps _ _ (insert_version-Keeps _) λ _.
      after_keeps _ _ (break-Keeps (SameProjects before) _ _) λ _.
        after_keeps _ _ (files-Keeps (SameProjects before) files_grow env 1 _ input.files) λ _.
          after_keeps _ _ (break-Keeps (SameProjects before) _ _) λ _.
            after_keeps _ _ (result-Keeps (SameProjects before) _ _) λ _.
              after_keeps _ _ (break-Keeps (SameProjects before) _ _) λ _.
                after _ _ (cas_stable-Swapped before env.now input.project_id base _) λ swapped.
                  after_fail_if _ _ _ λ s.
                    from_before
                      (Swapped-Moved before input.project_id base _ swapped (ground arith))
                      (after_keeps _ _
                        (settle-Keeps (Moved before input.project_id base (env.new_id 0)) _ _ _ _ _)
                        λ _. on_pure _ λ db h. h)

commits :
    (env : Env) (input : CommitInput) (i : Iteration) (db : Db)
    → iteration_of db input.iteration_id ≡ some i
    → i.result_version_id ≡ none
    → commit_version env input db ≡ commit_new_version env input i.base_version_id fail_none db
unfolding commit_version commit_version_steps ◌>>=◌
commits env input i db found new = rw (found, new) refl

-- Committing an iteration that has no version yet succeeds only if the iteration's base is the
-- project's stable version at that moment, and then the version that it returns is the project's
-- stable version.
pub commit_version-swaps :
    (env : Env) (input : CommitInput) (i : Iteration) (db db' : Db) (v : Version)
    → iteration_of db input.iteration_id ≡ some i
    → i.result_version_id ≡ none
    → commit_version env input db ≡ ok (v, db')
    → (base_holds (project_of db input.project_id) i.base_version_id ≡ true)
      × (stable_of input.project_id db'.projects ≡ some v.id)
unfolding Moved
commit_version-swaps env input i db db' v found new run =
    (commit_new_version-Triple db.projects env input i.base_version_id fail_none).at db refl v db'
      (sym (commits env input i db found new) ∙ run)

refused :
    (env : Env) (input : CommitInput) (base : Option Key) (before : List Project)
    → base_holds (by_key project_id input.project_id before) base ≡ false
    → Triple (On (SameProjects before)) (commit_new_version env input base fail_none) (λ _ _. ⊥)
unfolding Moved
refused env input base before moved =
    from_after (λ v db h. absurd (true_not_false (sym h.0 ∙ moved)))
      (commit_new_version-Triple before env input base fail_none)

-- Committing an iteration that has no version yet and whose base is no longer the project's stable
-- version leaves every table as it was: the version, the files and the iteration that the
-- transaction wrote are rolled back.
pub commit_version-lost_update :
    (env : Env) (input : CommitInput) (i : Iteration) (db : Db)
    → iteration_of db input.iteration_id ≡ some i
    → i.result_version_id ≡ none
    → base_holds (project_of db input.project_id) i.base_version_id ≡ false
    → (in_tx (commit_version env input) db).1 ≡ db
unfolding in_tx
commit_version-lost_update env input i db found new moved =
    ap (λ r. (settle db r).1) (commits env input i db found new)
    ∙ in_tx-refused _ (refused env input i.base_version_id db.projects moved) db refl
