-- ===== src/Store/Versions/Success.antt =====
-- When restoring a version succeeds (internal/store/version.go).
use mathlib.Core.List.{Memᴰ}
use mathlib.Core.List.Memᴰ
use vibe_forge.Base.{
  ℕ, ◌&&◌, ◌==◌, ◌↔◌, Bool, false, List, sym, subst, Bool-cases, Option-cases, inl, inr, ◌≡◌, ap,
  refl, true, Option, none, some, [], ◌∷◌, ◌++◌, arith,
}
use vibe_forge.Store.Model.{
  Run, Time, is_active, Key, Project, Version, Iteration, Body, Db, Env, is_stable,
}
use vibe_forge.Store.Table.{first_where, by_key, update_key, by_key-update}
use vibe_forge.Store.Table.Members.{IsIn}
use vibe_forge.Store.Sound.Tables.{project_id, version_id, stable_of}
use vibe_forge.Store.Rows.{
  project_of, iteration_of, version_of, base_holds, opt_eq, point_stable, insert_iteration,
  cas_stable, is_active_in,
}
use vibe_forge.Store.Runs.{active_run_of, refuse_active}
use vibe_forge.Store.Versions.{is_version_of, restore_iteration, restore_version_body}
use vibe_forge.Store.Tx.{ok, ◌>>=◌}

opt_eq_refl : (o : Option Key) → opt_eq o o ≡ true
opt_eq_refl none = refl
opt_eq_refl (some k) = ground arith

base_of_owner :
    (db : Db) (project : Key) (p : Project)
    → project_of db project ≡ some p
    → base_holds (project_of db project) p.stable_version_id ≡ true
base_of_owner db project p owner = rw (owner) (opt_eq_refl p.stable_version_id)

cas_stable-succeeds :
    (env : Env) (project version : Key) (p : Project) (db : Db)
    → project_of db project ≡ some p
    → cas_stable env.now project p.stable_version_id version db
      ≡ ok (
        true,
        record db {
          projects =
              update_key
                (λ (q : Project). q.id)
                project
                (point_stable env.now version p.stable_version_id)
                db.projects;
        },
      )
unfolding cas_stable ◌>>=◌
cas_stable-succeeds env project version p db owner =
    let holds : base_holds (project_of db project) p.stable_version_id ≡ true =
      base_of_owner db project p owner in
    ap
      (λ b. ok (
        b,
        record db {
          projects =
              update_key (λ (q : Project). q.id) project
                (point_stable env.now version p.stable_version_id) db.projects;
        },
      ))
      holds

insert_iteration-succeeds :
    (i : Iteration) (version : Key) (w : Version) (p : Project) (db : Db)
    → i.run_id ≡ none
    → i.result_version_id ≡ some version
    → project_of db i.project_id ≡ some p
    → iteration_of db i.id ≡ none
    → version_of db version ≡ some w
    → insert_iteration i db ≡ ok (tt, record db { iterations = db.iterations ++ i ∷ [] })
unfolding insert_iteration ◌>>=◌
insert_iteration-succeeds i version w p db no_run result owner fresh there = ground arith

restored :
    (env : Env) (project version : Key) (db : Db) (v w : Version) (p : Project)
    → first_where (is_version_of project version) db.versions ≡ some v
    → is_stable v.status ≡ true
    → active_run_of project db ≡ none
    → project_of db project ≡ some p
    → iteration_of db (env.new_id 0) ≡ none
    → version_of db version ≡ some w
    → restore_version_body env project version db
      ≡ ok (
        (202, Body.iteration_body (restore_iteration env project version p.stable_version_id)),
        record db {
          iterations =
              db.iterations ++ restore_iteration env project version p.stable_version_id ∷ [];
          projects =
              update_key
                (λ (q : Project). q.id)
                project
                (point_stable env.now version p.stable_version_id)
                db.projects;
        },
      )
unfolding restore_version_body refuse_active ◌>>=◌
restored env project version db v w p found st idle owner fresh there =
    let i : Iteration = restore_iteration env project version p.stable_version_id in
    let inserted = insert_iteration-succeeds i version w p db refl refl owner fresh there in
    let swapped =
      cas_stable-succeeds env project version p (record db { iterations = db.iterations ++ i ∷ [] })
        owner in
    rw (found, st, idle, owner, inserted, swapped) refl

-- A row that a search finds is one of the table's rows and passes the test, and where it finds none
-- no row passes.
first_where-none :
    (test : Run → Bool) (runs : List Run)
    → (first_where test runs ≡ none) ↔ ((r : Run) → IsIn r runs → test r ≡ false)
unfolding first_where
first_where-none test [] = (λ e r m. absurd (Memᴰ.not-nil m), λ h. refl)
first_where-none test (q ∷ runs) =
    let more = first_where-none test runs in
    elim (Bool-cases (test q)) [
      | inl t ↦ (λ e. absurd (ground (arith, t, e)), λ h. absurd (cc (t, h q (Memᴰ.head refl))))
      | inr f ↦ (
        λ e r m. elim (Memᴰ.cases_cons m) [
          | inl same ↦ subst (λ x. test x ≡ false) (sym same) f
          | inr k ↦ more.0 (ground (arith, f, e)) r k
        ],
        λ h. ground (arith, f, more.1 (λ r k. h r (Memᴰ.tail k))),
      )
    ]

no_active_iff :
    (project : Key) (r : Run)
    → (is_active_in project r ≡ false) ↔ (r.project_id ≡ project → is_active r.status ≡ false)
no_active_iff project r = elim (Bool-cases (r.project_id == project)) [
  | inl t ↦ (λ h q. ground arith, λ h. ground (arith, h (ground arith)))
  | inr f ↦ (λ h q. absurd (ground arith), λ h. ground arith)
]

-- No run of the project is queued or running.
abbrev pub IsIdle : Key → Db → Type 0
IsIdle project db = (r : Run) → IsIn r db.runs → r.project_id ≡ project → is_active r.status ≡ false

pub IsIdle-iff : (project : Key) (db : Db) → (active_run_of project db ≡ none) ↔ IsIdle project db
IsIdle-iff project db =
    let none_found = first_where-none (is_active_in project) db.runs in
    (
      λ e r m. (no_active_iff project r).0 (none_found.0 e r m),
      λ h. none_found.1 (λ r m. (no_active_iff project r).1 (h r m)),
    )

-- The version is there, belongs to the project and is stable, and the project is there and idle.
abbrev pub Restorable : Key → Key → Db → Type 0
Restorable project version db =
    ((v : Version) × (first_where (λ w. w.id == version && w.project_id == project) db.versions
        ≡ some v)
      × (is_stable v.status ≡ true))
    × IsIdle project db
    × ((p : Project) × (project_of db project ≡ some p))

-- The body succeeds, and the version is the project's stable one then.
abbrev pub Restores : Env → Key → Key → Db → Type 0
Restores env project version db =
    (out : ℕ × Body) × (db' : Db) × (restore_version_body env project version db ≡ ok (out, db'))
    × (stable_of project db'.projects ≡ some version)

stored_version :
    (project version : Key) (versions : List Version) (v : Version)
    → first_where (is_version_of project version) versions ≡ some v
    → (w : Version) × (by_key version_id version versions ≡ some w)
unfolding first_where by_key
stored_version project version [] v e = absurd (cc)
stored_version project version (u ∷ versions) v e = elim (Bool-cases (u.id == version)) [
  | inl t ↦ (u, ground (arith, t))
  | inr f ↦
      let more = stored_version project version versions v (ground (arith, f, e)) in
      (more.0, ground (arith, f, more.1))
]

module _ (env : Env) (project version : Key) (db : Db) where
  abbrev Refused : Type 0
  Refused =
      (out : ℕ × Body) (db' : Db) → restore_version_body env project version db ≡ ok (out, db') → ⊥

  missing_refused : first_where (is_version_of project version) db.versions ≡ none → Refused
  unfolding restore_version_body ◌>>=◌
  missing_refused e = λ out db' h. let bad = rw (e) at h in cc (bad)

  unstable_refused :
      (v : Version)
      → first_where (is_version_of project version) db.versions ≡ some v
      → is_stable v.status ≡ false
      → Refused
  unfolding restore_version_body ◌>>=◌
  unstable_refused v e f = λ out db' h. let bad = rw (e, f) at h in cc (bad)

  busy_refused :
      (v : Version) (r : Run)
      → first_where (is_version_of project version) db.versions ≡ some v
      → is_stable v.status ≡ true
      → active_run_of project db ≡ some r
      → Refused
  unfolding restore_version_body refuse_active ◌>>=◌
  busy_refused v r e t a = λ out db' h. let bad = rw (e, t, a) at h in cc (bad)

  ownerless_refused :
      (v : Version)
      → first_where (is_version_of project version) db.versions ≡ some v
      → is_stable v.status ≡ true
      → active_run_of project db ≡ none
      → project_of db project ≡ none
      → Refused
  unfolding restore_version_body refuse_active ◌>>=◌
  ownerless_refused v e t a o = λ out db' h. let bad = rw (e, t, a, o) at h in cc (bad)

  only_if :
      (out : ℕ × Body) (db' : Db)
      → restore_version_body env project version db ≡ ok (out, db')
      → Restorable project version db
  only_if out db' h =
      elim (Option-cases (first_where (is_version_of project version) db.versions)) [
        | inl e ↦ absurd (missing_refused e out db' h)
        | inr (v, e) ↦ elim (Bool-cases (is_stable v.status)) [
          | inr f ↦ absurd (unstable_refused v e f out db' h)
          | inl t ↦ elim (Option-cases (active_run_of project db)) [
            | inr (r, a) ↦ absurd (busy_refused v r e t a out db' h)
            | inl a ↦ elim (Option-cases (project_of db project)) [
              | inl o ↦ absurd (ownerless_refused v e t a o out db' h)
              | inr (p, o) ↦ ((v, e, t), (IsIdle-iff project db).0 a, (p, o))
            ]
          ]
        ]
      ]

pointed :
    (now : Time) (project version : Key) (p : Project) (projects : List Project)
    → by_key project_id project projects ≡ some p
    → stable_of project
        (update_key project_id project (point_stable now version p.stable_version_id) projects)
      ≡ some version
pointed now project version p projects owner =
    let seen =
      by_key-update project_id project project (point_stable now version p.stable_version_id)
        projects (λ q. ground arith) in
    ground (arith, owner, seen, opt_eq_refl p.stable_version_id)

-- Where the new identifier is unused, restoring a version succeeds, and makes it the project's stable
-- one, exactly when the version is stored for the project and is stable, the project is there, and
-- none of its runs is queued or running.
pub restore_version_succeeds_iff :
    (env : Env) (project version : Key) (db : Db)
    → iteration_of db (env.new_id 0) ≡ none
    → Restores env project version db ↔ Restorable project version db
restore_version_succeeds_iff env project version db fresh = (
  λ (out, db', runs, at_version). only_if env project version db out db' runs,
  λ ((v, found, st), idle, (p, owner)).
      let (w, there) = stored_version project version db.versions v found in
      let runs =
        restored env project version db v w p found st ((IsIdle-iff project db).1 idle) owner fresh
          there in
      (_, _, runs, pointed env.now project version p db.projects owner),
)
