-- ===== src/Store/Sound/Tables.antt =====
-- The invariant of the stable version, on the rows of projects and versions.
use mathlib.Core.Option
use vibe_forge.Base.{
  inl, inr, Option-cases, ◌++◌, ℕ, ◌≡◌, refl, Bool, true, false, ◌&&◌, Option, none, some, List, [],
  ◌∷◌, arith, ◌==◌, if◌then◌else◌,
}
use vibe_forge.Store.Model.{Key, Time, Project, Version, VersionStatus, is_stable, is_draft}
use vibe_forge.Store.Table.{first_where, by_key, update_key, by_key-insert, by_key-update}
use vibe_forge.Store.Rows.{point_stable}

abbrev pub project_id : Project → Key
project_id p = p.id

abbrev pub version_id : Version → Key
version_id v = v.id

-- The stable version that the row of a project names.
abbrev pub stable_of_row : Option Project → Option Key
stable_of_row none = none
stable_of_row (some p) = p.stable_version_id

abbrev pub stable_of : Key → List Project → Option Key
stable_of p projects = stable_of_row (by_key project_id p projects)

-- The row is a stable version of the project `p`.
abbrev pub serves : Option Version → Key → Bool
serves none p = false
serves (some v) p = v.project_id == p && is_stable v.status

-- The row is a draft of the project `p`.
abbrev pub drafts : Option Version → Key → Bool
drafts none p = false
drafts (some v) p = v.project_id == p && is_draft v.status

-- The versions that are to last.
abbrev pub Kept : Type 1
Kept = Version → Type 0

pub record IsSound (K : Kept) (projects : List Project) (versions : List Version) : Type 0 where
  pub at :
      (p v : Key) → stable_of p projects ≡ some v → serves (by_key version_id v versions) p ≡ true
  -- No two versions share an identifier.
  pub keyed :
      (test : Version → Bool) (w : Version)
      → first_where test versions ≡ some w
      → by_key version_id w.id versions ≡ some w
  -- A stable version that is to last is there as it was.
  pub lasts :
      (w : Version) → K w → is_stable w.status ≡ true → by_key version_id w.id versions ≡ some w

abbrev pub with_status : VersionStatus → Version → Version
with_status status v = record v { status = status }

abbrev changed {ℓ} : {R : Type ℓ} → (R → ℕ) → ℕ → (R → R) → R → R
changed key k f r = if key r == k then f r else r

point_stable-id :
    (now : Time) (version : Key) (base : Option Key) (q : Project)
    → project_id (point_stable now version base q) ≡ project_id q
point_stable-id now version base q = ground arith

first_where-insert {ℓ} :
    {R : Type ℓ} (test : R → Bool) (rows : List R) (r : R)
    → first_where test (rows ++ r ∷ []) ≡ elim (first_where test rows) [
      | some old ↦ some old
      | none ↦ if test r then some r else none
    ]
unfolding first_where
first_where-insert test [] r = refl
first_where-insert test (q ∷ rows) r = ground (arith, first_where-insert test rows r)

first_where-update {ℓ} :
    {R : Type ℓ} (key : R → ℕ) (k : ℕ) (f : R → R) (test : R → Bool) (rows : List R)
    → first_where test (update_key key k f rows)
      ≡ Option.map (changed key k f) (first_where (λ r. test (changed key k f r)) rows)
unfolding first_where update_key
first_where-update key k f test [] = refl
first_where-update key k f test (q ∷ rows) = ground (arith, first_where-update key k f test rows)

module _ {K : Kept} {projects : List Project} {versions : List Version}
    (h : IsSound K projects versions) where
  pub add_project-IsSound :
      (q : Project) → q.stable_version_id ≡ none → IsSound K (projects ++ q ∷ []) versions
  add_project-IsSound q e = record {
    at = λ p v s. ground (arith, h.at p v, by_key-insert project_id p projects q);
    keyed = h.keyed;
    lasts = h.lasts;
  }

  pub add_version-IsSound :
      (w : Version)
      → by_key version_id w.id versions ≡ none
      → IsSound K projects (versions ++ w ∷ [])
  add_version-IsSound w fresh = record {
    at = λ p v s. ground (arith, h.at p v, by_key-insert version_id v versions w);
    keyed = λ test u s. ground (
      arith,
      h.keyed test u,
      first_where-insert test versions w,
      by_key-insert version_id u.id versions w,
    );
    lasts = λ u k s. ground (arith, h.lasts u k s, by_key-insert version_id u.id versions w);
  }

  status-keyed :
      (k : Key) (status : VersionStatus) (test : Version → Bool) (u : Version)
      → first_where test (update_key version_id k (with_status status) versions) ≡ some u
      → by_key version_id u.id (update_key version_id k (with_status status) versions) ≡ some u
  status-keyed k status test u s =
      elim (Option-cases
        (first_where (λ r. test (changed version_id k (with_status status) r)) versions)) [
          | inl e ↦
              absurd
                (ground (arith, first_where-update version_id k (with_status status) test versions))
          | inr (w, e) ↦ ground (
            arith,
            h.keyed (λ r. test (changed version_id k (with_status status) r)) w e,
            first_where-update version_id k (with_status status) test versions,
            by_key-update version_id u.id k (with_status status) versions (λ r. refl),
          )
        ]

  -- A draft is no version that lasts, so its status may change.
  status-lasts :
      (k q : Key) (status : VersionStatus)
      → drafts (by_key version_id k versions) q ≡ true
      → (w : Version) → K w
      → is_stable w.status ≡ true
      → by_key version_id w.id (update_key version_id k (with_status status) versions) ≡ some w
  status-lasts k q status d w kept s = ground (
    arith,
    h.lasts w kept s,
    by_key-update version_id w.id k (with_status status) versions (λ r. refl),
  )

  pub set_stable-IsSound :
      (k q : Key)
      → drafts (by_key version_id k versions) q ≡ true
      → IsSound K projects (update_key version_id k (with_status VersionStatus.stable) versions)
  set_stable-IsSound k q d = record {
    at = λ p v s. ground (
      arith,
      h.at p v,
      by_key-update version_id v k (with_status VersionStatus.stable) versions (λ w. refl),
    );
    keyed = status-keyed k VersionStatus.stable;
    lasts = status-lasts k q VersionStatus.stable d;
  }

  -- A draft serves no project, so it may fail.
  pub set_failed-IsSound :
      (k p : Key)
      → drafts (by_key version_id k versions) p ≡ true
      → IsSound K projects (update_key version_id k (with_status VersionStatus.failed) versions)
  set_failed-IsSound k q d = record {
    at = λ p v s. ground (
      arith,
      h.at p v,
      by_key-update version_id v k (with_status VersionStatus.failed) versions (λ w. refl),
    );
    keyed = status-keyed k VersionStatus.failed;
    lasts = status-lasts k q VersionStatus.failed d;
  }

  pub point_stable-IsSound :
      (now : Time) (project : Key) (base : Option Key) (version : Key)
      → serves (by_key version_id version versions) project ≡ true
      → IsSound K (update_key project_id project (point_stable now version base) projects) versions
  point_stable-IsSound now project base version r = record {
    at = λ p v s. ground (
      arith,
      h.at p v,
      by_key-update project_id p project (point_stable now version base) projects
          (point_stable-id now version base),
    );
    keyed = h.keyed;
    lasts = h.lasts;
  }
