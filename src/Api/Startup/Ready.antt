-- ===== src/Api/Startup/Ready.antt =====
-- What a server that serves has behind it (internal/api/api.go and cmd/server/main.go).
use vibe_forge.Base.{
  ℕ, ◌≡◌, ◌⊎◌, inl, inr, refl, sym, subst, true, Option, none, some, [], ◌∷◌, Text, All, Bool-cases,
}
use vibe_forge.Store.Model.{Db}
use vibe_forge.Store.Table.{count_where}
use vibe_forge.Store.Tx.{Result, ok, err, in_tx, settle}
use vibe_forge.Store.Events.{is_active_run, mark_active_runs_interrupted}
use vibe_forge.Store.Events.Interrupt.{mark_active_runs_interrupted-all}
use vibe_forge.Migrations.{Database, load_migration_versions, is_applied, migrate}
use vibe_forge.Migrations.Steps.{Settled, migrate-atomic}
use vibe_forge.Api.Config.{Configuration, Setup, rejected, started, new_authenticator_from_env}
use vibe_forge.Api.Config.Protects.{Protected, new_authenticator_from_env-protects}
use vibe_forge.Api.Startup.{
  Environment, Machine, Service, Start, refused, serving, on_migrated, on_opened, with_database,
  on_setup, new_server, reconciled, reconcile_interrupted_runs, on_new, set_logger, start,
}

module _ {Prefix : Type 0} (machine : Machine Prefix) (e : Environment) where
  -- Every embedded migration is recorded.
  abbrev pub HasSchema : Option (Database Db) → Type 0
  HasSchema none = Unit
  HasSchema (some d) = All (λ v. is_applied v d ≡ true) (load_migration_versions machine.migrations)

  abbrev pub NoneActive : Option (Database Db) → Type 0
  NoneActive none = Unit
  NoneActive (some d) = count_where is_active_run d.content.runs ≡ 0

  abbrev New : Start Prefix → Type 0
  New (refused message) = Unit
  New (serving s) = Protected machine.parse_prefix e.variables s.auth × HasSchema s.database

  abbrev pub IsReady : Service Prefix → Type 0
  IsReady s =
      Protected machine.parse_prefix e.variables s.auth
      × HasSchema s.database
      × ((s.warned ≡ true) ⊎ NoneActive s.database)

  on_migrated-New :
      (auth : Configuration Prefix) (r : Option Text × Database Db)
      → Protected machine.parse_prefix e.variables auth
      → Settled machine.exec machine.migrations (load_migration_versions machine.migrations) r
      → New (on_migrated machine e auth r)
  on_migrated-New auth (none, d) p h = (p, h)
  on_migrated-New auth (some v, d) p h = tt

  on_opened-New :
      (auth : Configuration Prefix) (d : Option (Database Db))
      → Protected machine.parse_prefix e.variables auth
      → New (on_opened machine e auth d)
  on_opened-New auth none p = tt
  on_opened-New auth (some d) p =
      on_migrated-New auth (migrate machine.exec machine.migrations d) p
        (migrate-atomic machine.exec machine.migrations d).1

  with_database-New :
      (auth : Configuration Prefix) (path : Text)
      → Protected machine.parse_prefix e.variables auth
      → New (with_database machine e auth path)
  with_database-New auth [] p = (p, tt)
  with_database-New auth (c ∷ path) p = on_opened-New auth (machine.open_database (c ∷ path)) p

  on_setup-New :
      (setup : Setup Prefix)
      → new_authenticator_from_env machine.parse_prefix e.variables ≡ setup
      → New (on_setup machine e setup)
  on_setup-New (rejected message) q = tt
  on_setup-New (started auth) q =
      with_database-New auth e.database_path
        (new_authenticator_from_env-protects machine.parse_prefix e.variables auth q)

  new_server-New : New (new_server machine e)
  unfolding new_server
  new_server-New = on_setup-New (new_authenticator_from_env machine.parse_prefix e.variables) refl

  reconciled-IsReady :
      (s : Service Prefix) (d : Database Db) (r : Result (ℕ × Db))
      → mark_active_runs_interrupted machine.env d.content ≡ r
      → Protected machine.parse_prefix e.variables s.auth
      → HasSchema s.database
      → HasSchema (some d)
      → IsReady (reconciled machine s d (settle d.content r))
  reconciled-IsReady s d (ok (n, db)) q p h k =
      (p, k, inr (mark_active_runs_interrupted-all machine.env d.content db n q).1)
  reconciled-IsReady s d (err x) q p h k = (p, h, inl refl)

  reconcile-IsReady :
      (s : Service Prefix) (database : Option (Database Db))
      → s.database ≡ database
      → Protected machine.parse_prefix e.variables s.auth
      → HasSchema s.database
      → IsReady (reconcile_interrupted_runs machine s database)
  unfolding in_tx
  reconcile-IsReady s none q p h = (p, h, inr (subst (λ d. NoneActive d) (sym q) tt))
  reconcile-IsReady s (some d) q p h = elim (Bool-cases machine.refuses) [
    | inl t ↦ rw (t) (p, h, inl refl)
    | inr f ↦ rw (f) (
        reconciled-IsReady s d (mark_active_runs_interrupted machine.env d.content) refl p h
          (subst (λ o. HasSchema o) q h))
  ]

  abbrev Ready : Start Prefix → Type 0
  Ready (refused message) = Unit
  Ready (serving s) = IsReady s

  on_new-Ready : (r : Start Prefix) → New r → Ready (on_new machine e r)
  on_new-Ready (refused message) h = tt
  on_new-Ready (serving s) h = reconcile-IsReady (set_logger machine e s) s.database refl h.0 h.1

-- A server that serves has a protected sign-in, every embedded migration recorded in its database, and,
-- unless it has logged the warning on them, no run that a crash left queued or running.
pub start-IsReady :
    {Prefix : Type 0} (machine : Machine Prefix) (e : Environment) (s : Service Prefix)
    → start machine e ≡ serving s
    → IsReady machine e s
unfolding start
start-IsReady machine e s q =
    subst (Ready machine e) q
      (on_new-Ready machine e (new_server machine e) (new_server-New machine e))
