-- ===== src/Migrations/Steps.antt =====
-- What a run of the migrations does (internal/db/db.go).
use vibe_forge.Base.{
  ◌≡◌, ◌∙◌, refl, subst, true, false, ◌||◌, any-append, Option, none, some, List, [], ◌∷◌, Text,
  text_eq, text_eq_refl, All, Bool-cases, Option-cases, inl, inr, arith,
}
use vibe_forge.Migrations.{
  Entry, Database, load_migration_versions, read_file, is_applied, recorded, execute, apply,
  migrate_from, migrate,
}

-- Whole migrations one after the other: each one's statements succeed, and it is recorded with them.
pub data Grown {C : Type 0} (exec : Text → C → Option C) (entries : List Entry) (db : Database C)
    : Database C → Type 0 where
  unchanged : Grown exec entries db db
  grown :
      (mid : Database C)
      → Grown exec entries db mid
      → (version : Text) → is_applied version mid ≡ false
      → (content : C) → execute exec entries mid (read_file entries version) ≡ some content
      → Grown exec entries db (recorded exec entries version mid content)

is_applied-recorded :
    {C : Type 0} (exec : Text → C → Option C) (entries : List Entry) (v version : Text)
    (db : Database C) (content : C)
    → is_applied v (recorded exec entries version db content)
      ≡ (is_applied v db || text_eq version v)
is_applied-recorded exec entries v version db content =
    any-append (λ u. text_eq u v) db.applied (version ∷ []) ∙ ground arith

module _ {C : Type 0} (exec : Text → C → Option C) (entries : List Entry) where
  Grown-is_applied :
      (v : Text) (db db' : Database C)
      → is_applied v db ≡ true
      → Grown exec entries db db'
      → is_applied v db' ≡ true
  Grown-is_applied v db _ h unchanged = h
  Grown-is_applied v db _ h (grown mid steps version fresh content runs) = ground (
    arith,
    is_applied-recorded exec entries v version mid content,
    Grown-is_applied v db mid h steps,
  )

  next_Grown :
      (start db : Database C) (v : Text)
      → Grown exec entries start db
      → is_applied v db ≡ false
      → (next : Database C) → apply exec entries v db ≡ some next
      → Grown exec entries start next × (is_applied v next ≡ true)
  next_Grown start db v steps fresh next e =
      elim (Option-cases (execute exec entries db (read_file entries v))) [
        | inl n ↦ absurd (ground arith)
        | inr (content, c) ↦
            let same : recorded exec entries v db content ≡ next = ground arith in
            let there : is_applied v (recorded exec entries v db content) ≡ true =
              ground (arith, is_applied-recorded exec entries v v db content, text_eq_refl v) in
            subst (λ d. Grown exec entries start d × (is_applied v d ≡ true)) same
              (grown db steps v fresh content c, there)
      ]

  -- Where no version fails, each one is recorded; the one that fails is not.
  abbrev pub Settled : List Text → Option Text × Database C → Type 0
  Settled versions (none, db) = All (λ v. is_applied v db ≡ true) versions
  Settled versions (some v, db) = is_applied v db ≡ false

  Settled-more :
      (v : Text) (versions : List Text) (r : Option Text × Database C)
      → is_applied v r.1 ≡ true
      → Settled versions r
      → Settled (v ∷ versions) r
  Settled-more v versions (none, db) a h = (a, h)
  Settled-more v versions (some u, db) a h = h

  migrate_from-Grown :
      (start : Database C) (versions : List Text) (db : Database C)
      → Grown exec entries start db
      → Grown exec entries start (migrate_from exec entries versions db).1
  unfolding migrate_from
  migrate_from-Grown start [] db steps = steps
  migrate_from-Grown start (v ∷ versions) db steps = elim (Bool-cases (is_applied v db)) [
    | inl t ↦ rw (t) (migrate_from-Grown start versions db steps)
    | inr f ↦ elim (Option-cases (apply exec entries v db)) [
      | inl n ↦ rw (f, n) steps
      | inr (next, e) ↦
          rw (f, e)
            (migrate_from-Grown start versions next (next_Grown start db v steps f next e).0)
    ]
  ]

  migrate_from-Settled :
      (versions : List Text) (db : Database C)
      → Settled versions (migrate_from exec entries versions db)
  unfolding migrate_from
  migrate_from-Settled [] db = tt
  migrate_from-Settled (v ∷ versions) db = elim (Bool-cases (is_applied v db)) [
    | inl t ↦ rw (t) (
        Settled-more v versions _
          (Grown-is_applied v db _ t (migrate_from-Grown db versions db unchanged))
          (migrate_from-Settled versions db))
    | inr f ↦ elim (Option-cases (apply exec entries v db)) [
      | inl n ↦ rw (f, n) f
      | inr (next, e) ↦
          let step = next_Grown db db v unchanged f next e in
          rw (f, e)
            (Settled-more v versions _
              (Grown-is_applied v next _ step.1 (migrate_from-Grown next versions next unchanged))
              (migrate_from-Settled versions next))
    ]
  ]

  nothing_left :
      (versions : List Text) (db : Database C)
      → All (λ v. is_applied v db ≡ true) versions
      → migrate_from exec entries versions db ≡ (none, db)
  unfolding migrate_from
  nothing_left [] db h = refl
  nothing_left (v ∷ versions) db h = rw (h.0) (nothing_left versions db h.1)

-- A run of the migrations, from any database, applies whole versions that were not recorded, each with
-- the record of it; a version whose statements fail is left out with all that they did, and ends the
-- run as an error. Without an error every embedded version is recorded.
pub migrate-atomic :
    {C : Type 0} (exec : Text → C → Option C) (entries : List Entry) (db : Database C)
    → Grown exec entries db (migrate exec entries db).1
      × Settled exec entries (load_migration_versions entries) (migrate exec entries db)
unfolding migrate
migrate-atomic exec entries db = (
  migrate_from-Grown exec entries db (load_migration_versions entries) db unchanged,
  migrate_from-Settled exec entries (load_migration_versions entries) db,
)

-- Behind a run without an error, a second run changes nothing, even where its statements would fail.
pub migrate-again :
    {C : Type 0} (exec again : Text → C → Option C) (entries : List Entry) (db db' : Database C)
    → migrate exec entries db ≡ (none, db')
    → migrate again entries db' ≡ (none, db')
unfolding migrate
migrate-again exec again entries db db' e =
    nothing_left again entries (load_migration_versions entries) db' (
      subst (Settled exec entries (load_migration_versions entries)) e
        (migrate_from-Settled exec entries (load_migration_versions entries) db))
