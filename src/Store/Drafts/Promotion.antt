-- ===== src/Store/Drafts/Promotion.antt =====
-- The promotion of a draft (`PromoteDraftVersion` of internal/store/draft.go).
use vibe_forge.Base.{◌≡◌, ◌∙◌, sym, refl, true, false, Option, some, List, arith}
use vibe_forge.Store.Model.{Key, Project, Version, Iteration, Db, Env, is_draft}
use vibe_forge.Store.Table.{key-by_key}
use vibe_forge.Store.Rows.{project_of, iteration_of, version_of, base_holds}
use vibe_forge.Store.Drafts.{
  find_draft, promote_from, promote, promote_draft_version, fail_draft_version,
}
use vibe_forge.Store.Tx.{ok, ◌>>=◌}
use vibe_forge.Store.Tx.Triple.{Triple, after, after_keeps, after_fail_if, on_pure, from_before}
use vibe_forge.Store.Frame.{On, result-Keeps, settle-Keeps}
use vibe_forge.Store.Sound.Tables.{stable_of, version_id}
use vibe_forge.Store.Versions.Failing.{SameProjects, set_status-Keeps}
use vibe_forge.Store.Versions.Swap.{Moved, cas_stable-Swapped, Swapped-Moved}

promote_from-Moved :
    (before : List Project) (env : Env) (v : Version) (base run attempt : Option Key)
    → Triple
        (On (SameProjects before))
        (promote_from env v base run attempt)
        (λ _. On (Moved before v.project_id base v.id))
unfolding promote_from
promote_from-Moved before env v base run attempt = after_keeps _ _ (set_status-Keeps _ _) λ _.
    after_keeps _ _ (result-Keeps (SameProjects before) _ _) λ _.
      after _ _ (cas_stable-Swapped before env.now v.project_id base v.id) λ swapped.
        after_fail_if _ _ _ λ s.
          from_before (Swapped-Moved before v.project_id base v.id swapped (ground arith)) (
            after_keeps _ _ (settle-Keeps (Moved before v.project_id base v.id) _ _ _ _ _)
              λ _. on_pure _ λ db h. h)

module _ (env : Env) (draft : Key) (run attempt : Option Key) (db : Db) (v : Version)
    (found : version_of db draft ≡ some v) where
  promotes :
      (i : Iteration)
      → is_draft v.status ≡ true
      → iteration_of db v.iteration_id ≡ some i
      → promote_draft_version env draft run attempt db
        ≡ promote_from env v i.base_version_id run attempt db
  unfolding promote_draft_version find_draft promote ◌>>=◌
  promotes i d e = rw (found, d, e) refl

  promote_settled :
      is_draft v.status ≡ false → promote_draft_version env draft run attempt db ≡ ok (v, db)
  unfolding promote_draft_version find_draft ◌>>=◌
  promote_settled d = rw (found, d) refl

  fail_settled :
      is_draft v.status ≡ false → fail_draft_version env draft run attempt db ≡ ok (v, db)
  unfolding fail_draft_version find_draft ◌>>=◌
  fail_settled d = rw (found, d) refl

-- A version that is no draft any more is settled: promoting it and failing it both return it as it
-- is and write nothing.
pub settled_draft-replay :
    (env : Env) (draft : Key) (run attempt : Option Key) (db : Db) (v : Version)
    → version_of db draft ≡ some v
    → is_draft v.status ≡ false
    → (promote_draft_version env draft run attempt db ≡ ok (v, db))
      × (fail_draft_version env draft run attempt db ≡ ok (v, db))
settled_draft-replay env draft run attempt db v found d = (
  promote_settled env draft run attempt db v found d,
  fail_settled env draft run attempt db v found d,
)

-- The promotion of a draft succeeds only if the base of its iteration is the project's stable
-- version at that moment, and then the draft is the project's stable version.
pub promote_draft_version-swaps :
    (env : Env) (draft : Key) (run attempt : Option Key) (db db' : Db) (v promoted : Version)
    (i : Iteration)
    → version_of db draft ≡ some v
    → is_draft v.status ≡ true
    → iteration_of db v.iteration_id ≡ some i
    → promote_draft_version env draft run attempt db ≡ ok (promoted, db')
    → (base_holds (project_of db v.project_id) i.base_version_id ≡ true)
      × (stable_of v.project_id db'.projects ≡ some draft)
unfolding Moved
promote_draft_version-swaps env draft run attempt db db' v promoted i found d e done =
    let moved =
      (promote_from-Moved db.projects env v i.base_version_id run attempt).at db refl promoted db'
        (sym (promotes env draft run attempt db v found i d e) ∙ done) in
    let same : v.id ≡ draft = key-by_key version_id draft db.versions v found in
    (moved.0, ground (arith, moved.1, same))
