-- ===== src/Store/Versions/Restoring.antt =====
-- Restoring an earlier stable version (`RestoreVersion` of internal/store/version.go).
use vibe_forge.Base.{ℕ, ◌≡◌, refl, Option, some, List, arith}
use vibe_forge.Store.Model.{Key, Time, Project, Version, File, Body, Db, Env}
use vibe_forge.Store.Rows.{cas_stable}
use vibe_forge.Store.Versions.{restore_version_body}
use vibe_forge.Store.Tx.{ok}
use vibe_forge.Store.Tx.Keeps.{
  Keeps, Keeps-bind, Keeps-query, Keeps-pure, Keeps-or_fail, Keeps-fail_if, Keeps-modify,
  keeps_rules,
}
use vibe_forge.Store.Tx.Triple.{Triple, after, after_keeps, after_fail_if, on_pure, from_before}
use vibe_forge.Store.Frame.{On, iteration-Keeps, refuse-Keeps}
use vibe_forge.Store.Sound.Tables.{stable_of}
use vibe_forge.Store.Versions.Failing.{SameProjects}
use vibe_forge.Store.Versions.Swap.{Moved, cas_stable-Swapped, Swapped-Moved}

-- The versions and the files are those given.
abbrev SameHistory : List Version → List File → List Project → List Version → List File → Type 0
SameHistory versions files ps vs fs = (vs ≡ versions) × (fs ≡ files)

module _ (versions : List Version) (files : List File) where
  cas_stable-Keeps :
      (now : Time) (project : Key) (base : Option Key) (version : Key)
      → Keeps (On (SameHistory versions files)) (cas_stable now project base version)
  unfolding cas_stable
  cas_stable-Keeps now project base version =
      Keeps-bind _ _ (Keeps-query _)
        λ swapped. Keeps-bind _ _ (Keeps-modify _ (λ db h. h)) λ _. Keeps-pure swapped

  restore-Keeps :
      (env : Env) (project version : Key)
      → Keeps (On (SameHistory versions files)) (restore_version_body env project version)
  unfolding restore_version_body
  restore-Keeps env project version =
      search
        (
          keeps_rules,
          refuse-Keeps (SameHistory versions files),
          iteration-Keeps (SameHistory versions files),
          cas_stable-Keeps,
        )
        depth 20

Restored : List Project → Key → Key → ℕ × Body → Db → Type 0
Restored before project version out db =
    (out.0 ≡ 202) × (stable_of project db.projects ≡ some version)

restore-Restored :
    (before : List Project) (env : Env) (project version : Key)
    → Triple
        (On (SameProjects before))
        (restore_version_body env project version)
        (Restored before project version)
unfolding restore_version_body Restored Moved
restore-Restored before env project version = after_keeps _ _ (Keeps-query _) λ found.
    after_keeps _ _ (Keeps-or_fail _ found) λ v. after_keeps _ _ (Keeps-fail_if _ _) λ _.
      after_keeps _ _ (refuse-Keeps (SameProjects before) _ project) λ _.
        after_keeps _ _ (Keeps-query _) λ owner. after_keeps _ _ (Keeps-or_fail _ owner) λ p.
          after_keeps _ _ (iteration-Keeps (SameProjects before) _) λ _.
            after _ _ (cas_stable-Swapped before env.now project p.stable_version_id version)
              λ swapped. after_fail_if _ _ _ λ s.
                from_before
                  (Swapped-Moved before project p.stable_version_id version swapped (ground arith))
                  (on_pure _ λ db h. (refl, h.1))

-- A restore that commits answers 202, makes the version that is asked for the project's stable one,
-- and writes no version and no file: the history stays as it was.
pub restore_version-points :
    (env : Env) (project version : Key) (db db' : Db) (out : ℕ × Body)
    → restore_version_body env project version db ≡ ok (out, db')
    → (out.0 ≡ 202)
      × (stable_of project db'.projects ≡ some version)
      × (db'.versions ≡ db.versions)
      × (db'.files ≡ db.files)
unfolding Restored
restore_version-points env project version db db' out done =
    let here = (restore-Restored db.projects env project version).at db refl out db' done in
    let history =
      (restore-Keeps db.versions db.files env project version).at db (refl, refl) out db' done in
    (here.0, here.1, history.0, history.1)
