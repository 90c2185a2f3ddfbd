-- ===== src/Migrations.antt =====
-- internal/db/db.go: Migrate, which brings the schema up to date when the server starts. SQLite is the
-- library's: what a file of statements does to the database is a parameter, and `none` is a statement
-- that fails, whose transaction is rolled back. Errors of the connection itself are left out.
pub mod Steps
mod Tests
use mathlib.Core.List.{reverse}
use vibe_forge.Base.{
  ℕ, ◌-◌, Bool, true, false, ◌||◌, not, any, Option, none, some, List, [], ◌∷◌, ◌++◌, Text, codes,
  length, text_eq, starts_with, if◌then◌else◌,
}
use vibe_forge.Store.Hash.{text_before}
use vibe_forge.Store.Projects.{take}

-- A directory entry of the embedded migrations, with the file's content.
pub record Entry : Type 0 where
  pub name : Text
  pub is_dir : Bool
  pub statements : Text

-- The rows of the database, and the versions in schema_migrations.
pub record Database (C : Type 0) : Type 0 where
  pub content : C
  pub applied : List Text

abbrev suffix : Text
suffix = codes ".sql"

abbrev has_suffix : Text → Bool
has_suffix name = starts_with (reverse suffix) (reverse name)

abbrev trim_suffix : Text → Text
trim_suffix name = take (length name - length suffix) name

-- sort.Strings
unfoldable pub insert_sorted : Text → List Text → List Text
insert_sorted v [] = v ∷ []
insert_sorted v (u ∷ us) =
    let more = insert_sorted v us in if text_before u v then u ∷ more else v ∷ u ∷ us

unfoldable pub load_migration_versions : List Entry → List Text
unfolding starts_with
load_migration_versions [] = []
load_migration_versions (e ∷ entries) =
    let versions = load_migration_versions entries in
    if e.is_dir || not (has_suffix e.name)
    then versions
    else insert_sorted (trim_suffix e.name) versions

-- The embedded file of a version.
unfoldable pub read_file : List Entry → Text → Option Text
read_file [] version = none
read_file (e ∷ entries) version =
    let rest = read_file entries version in
    if text_eq e.name (version ++ suffix) then some e.statements else rest

abbrev pub is_applied : {C : Type 0} → Text → Database C → Bool
is_applied version db = any (λ v. text_eq v version) db.applied

module _ {C : Type 0} (exec : Text → C → Option C) (entries : List Entry) where
  abbrev pub recorded : Text → Database C → C → Database C
  recorded version db content = record { content = content; applied = db.applied ++ version ∷ [] }

  abbrev pub execute : Database C → Option Text → Option C
  execute db none = none
  execute db (some statements) = exec statements db.content

  -- One transaction: the statements of a version, and the row that records it.
  abbrev pub apply : Text → Database C → Option (Database C)
  apply version db = elim (execute db (read_file entries version)) [
    | none ↦ none
    | some content ↦ some (recorded version db content)
  ]

  abbrev pub on_next :
      Text
      → Database C
      → Option (Database C)
      → (Database C → Option Text × Database C)
      → Option Text × Database C
  on_next version db none rest = (some version, db)
  on_next version db (some next) rest = rest next

  -- The versions in turn; the version that fails, if one does, and the database behind it.
  unfoldable pub migrate_from : List Text → Database C → Option Text × Database C
  migrate_from [] db = (none, db)
  migrate_from (v ∷ versions) db =
      let skipped = migrate_from versions db in
      let run = on_next v db (apply v db) (λ next. migrate_from versions next) in
      if is_applied v db then skipped else run

  unfoldable pub migrate : Database C → Option Text × Database C
  migrate db = migrate_from (load_migration_versions entries) db
