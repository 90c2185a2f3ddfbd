-- ===== src/Store/Sound/Steps.antt =====
-- The writes of versions and of stable pointers, under the invariant of the stable version.
use vibe_forge.Base.{◌≡◌, refl, true, not, Option, none, some, List, [], ◌∷◌, ◌++◌, arith}
use vibe_forge.Store.Model.{
  Key, Time, Project, Version, VersionStatus, File, Db, is_stable, is_draft,
}
use vibe_forge.Store.Table.{by_key, by_key-update, by_key-insert}
use vibe_forge.Store.Rows.{is_some, version_of, insert_version, set_version_status, cas_stable}
use vibe_forge.Store.Frame.{On}
use vibe_forge.Store.Tx.Keeps.{Keeps, Keeps-query, Keeps-pure}
use vibe_forge.Store.Tx.Triple.{
  Triple, after, after_keeps, of_keeps, to_keeps, from_after, on_write_if, on_modify,
}
use vibe_forge.Store.Sound.Tables.{
  Kept, IsSound, serves, drafts, version_id, add_version-IsSound, set_failed-IsSound, with_status,
  set_stable-IsSound, point_stable-IsSound,
}

abbrev pub Tables : Type 1
Tables = List Project → List Version → List File → Type 0

abbrev pub Sound : Kept → Tables
Sound K projects versions files = IsSound K projects versions

-- The version may become the project's stable version.
abbrev pub Ready : Kept → Key → Key → Tables
Ready K version project projects versions files =
    IsSound K projects versions × (serves (by_key version_id version versions) project ≡ true)

-- The version is a draft of the project.
abbrev pub Pending : Kept → Key → Key → Tables
Pending K version project projects versions files =
    IsSound K projects versions × (drafts (by_key version_id version versions) project ≡ true)

is_some-none : (o : Option Version) → not (is_some o) ≡ true → o ≡ none
is_some-none none e = refl
is_some-none (some v) e = cc

fresh :
    (db : Db) (v : Version) → not (is_some (version_of db v.id)) ≡ true → version_of db v.id ≡ none
fresh db v t = is_some-none (version_of db v.id) t

module _ {K : Kept} where
  insert_version-Triple :
      (v : Version)
      → Triple
          (On (Sound K))
          (insert_version v)
          (λ _. On (λ ps vs fs. IsSound K ps vs × (by_key version_id v.id vs ≡ some v)))
  unfolding insert_version
  insert_version-Triple v = on_write_if _ _ λ db t h.
      let new : version_of db v.id ≡ none = fresh db v (ground arith) in
      (add_version-IsSound h v new, ground (arith, by_key-insert version_id v.id db.versions v))

  pub insert_version-Sound : (v : Version) → Keeps (On (Sound K)) (insert_version v)
  insert_version-Sound v = to_keeps (from_after (λ a db h. h.0) (insert_version-Triple v))

  pub insert_version-Ready :
      (v : Version)
      → is_stable v.status ≡ true
      → Triple (On (Sound K)) (insert_version v) (λ _. On (Ready K v.id v.project_id))
  insert_version-Ready v st = from_after (λ a db h. (h.0, ground arith)) (insert_version-Triple v)

  pub insert_version-Pending :
      (v : Version)
      → is_draft v.status ≡ true
      → Triple (On (Sound K)) (insert_version v) (λ _. On (Pending K v.id v.project_id))
  insert_version-Pending v st = from_after (λ a db h. (h.0, ground arith)) (insert_version-Triple v)

  pub cas_stable-Sound :
      (now : Time) (project : Key) (base : Option Key) (version : Key)
      → Triple
          (On (Ready K version project))
          (cas_stable now project base version)
          (λ _. On (Sound K))
  unfolding cas_stable
  cas_stable-Sound now project base version = after_keeps _ _ (Keeps-query _) λ swapped.
      after _ _
        (on_modify _ {R = On (Sound K)}
          λ db h. point_stable-IsSound h.0 now project base version h.1)
        λ _. of_keeps (Keeps-pure swapped)

  -- A draft that is set stable may become its project's stable version.
  pub set_stable-Ready :
      (version project : Key)
      → Triple
          (On (Pending K version project))
          (set_version_status VersionStatus.stable version)
          (λ _. On (Ready K version project))
  unfolding set_version_status
  set_stable-Ready version project = on_modify _ λ db h. (
    set_stable-IsSound h.0 version project h.1,
    ground (
      arith,
      h.1,
      by_key-update version_id version version (with_status VersionStatus.stable) db.versions
          (λ w. refl),
    ),
  )

  pub set_failed-Sound :
      (version project : Key)
      → Triple
          (On (Pending K version project))
          (set_version_status VersionStatus.failed version)
          (λ _. On (Sound K))
  unfolding set_version_status
  set_failed-Sound version project = on_modify _ λ db h. set_failed-IsSound h.0 version project h.1

  pub files_stay :
      (ps : List Project) (vs : List Version) (fs : List File) (f : File)
      → Sound K ps vs fs
      → Sound K ps vs (fs ++ f ∷ [])
  files_stay ps vs fs f h = h
