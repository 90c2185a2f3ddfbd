-- ===== src/Migrations/Tests.antt =====
-- internal/db: two migrations, the second of which fails at first.
use vibe_forge.Base.{
  ℕ, ◌+◌, ◌≡◌, refl, false, Option, none, some, List, [], ◌∷◌, Text, codes, text_eq, if◌then◌else◌,
}
use vibe_forge.Migrations.{
  Entry, Database, insert_sorted, load_migration_versions, read_file, migrate_from, migrate,
}
use vibe_forge.Migrations.Steps.{Grown, Settled, migrate-atomic}

abbrev entries : List Entry
entries =
    record { name = codes "0002_b.sql"; is_dir = false; statements = codes "b" }
    ∷ record { name = codes "0001_a.sql"; is_dir = false; statements = codes "a" }
    ∷ record { name = codes "notes.txt"; is_dir = false; statements = codes "c" }
    ∷ []

-- The content counts the statements.
abbrev exec : Text → ℕ → Option ℕ
exec statements n = some (n + 1)

abbrev exec_a : Text → ℕ → Option ℕ
exec_a statements n = if text_eq statements (codes "a") then some (n + 1) else none

abbrev new_database : Database ℕ
new_database = record { content = 0; applied = [] }

abbrev migrated : Database ℕ
migrated = record { content = 2; applied = codes "0001_a" ∷ codes "0002_b" ∷ [] }

migrates : migrate exec entries new_database ≡ (none, migrated)
unfolding migrate migrate_from load_migration_versions insert_sorted read_file
migrates = refl

fails_at_b :
    migrate exec_a entries new_database
    ≡ (some (codes "0002_b"), record { content = 1; applied = codes "0001_a" ∷ [] })
unfolding migrate migrate_from load_migration_versions insert_sorted read_file
fails_at_b = refl

migrate-atomic_example :
    Grown exec_a entries new_database (migrate exec_a entries new_database).1
    × Settled exec_a entries (load_migration_versions entries) (migrate exec_a entries new_database)
migrate-atomic_example = migrate-atomic exec_a entries new_database
