-- ===== src/Api/Startup.antt =====
-- The start of the server: New, InitLoop and ReconcileInterruptedRuns of internal/api/api.go in the
-- order of cmd/server/main.go, with NewLoop of internal/agent/agent.go. What runs after a refusal is
-- nothing; the sockets, the signals and the texts of the log are left out.
pub mod Ready
use vibe_forge.Base.{
  ℕ, Bool, true, false, ◌&&◌, ◌||◌, not, Option, none, some, List, [], ◌∷◌, ◌++◌, Text, codes,
  if◌then◌else◌,
}
use vibe_forge.Store.Model.{Db, Env}
use vibe_forge.Store.Tx.{Result, ok, err, in_tx}
use vibe_forge.Store.Events.{mark_active_runs_interrupted}
use vibe_forge.Migrations.{Entry, Database, migrate}
use vibe_forge.LogRedact.{new_logger}
use vibe_forge.Api.Config.{
  Variables, Configuration, Setup, rejected, started, new_authenticator_from_env,
}

pub record Environment : Type 0 where
  pub variables : Variables
  pub database_path : Text
  pub api_key : Text
  pub auth_token : Text

-- What the start takes from outside. `refuses` is an error of the connection in the reconciliation.
pub record Machine (Prefix : Type 0) : Type 0 where
  pub parse_prefix : Text → Option Prefix
  pub open_database : Text → Option (Database Db)
  pub exec : Text → Db → Option Db
  pub migrations : List Entry
  pub env : Env
  pub refuses : Bool

-- A server that serves; `warned` is the warning on runs that could not be reconciled.
pub record Service (Prefix : Type 0) : Type 0 where
  pub auth : Configuration Prefix
  pub database : Option (Database Db)
  pub model_configured : Bool
  pub has_loop : Bool
  pub logger : List Text
  pub warned : Bool

pub data Start (Prefix : Type 0) : Type 0 where
  refused : Text → Start Prefix
  serving : Service Prefix → Start Prefix

abbrev is_empty : Text → Bool
is_empty [] = true
is_empty (c ∷ s) = false

-- The credentials that NewLoop, health and the handlers ask for.
abbrev pub is_model_configured : Environment → Bool
is_model_configured e = not (is_empty e.api_key) || not (is_empty e.auth_token)

module _ {Prefix : Type 0} (machine : Machine Prefix) where
  abbrev pub new_service :
      Environment → Configuration Prefix → Option (Database Db) → Service Prefix
  new_service e auth database = record {
    auth = auth;
    database = database;
    model_configured = is_model_configured e;
    has_loop = false;
    logger = [];
    warned = false;
  }

  abbrev pub on_migrated :
      Environment → Configuration Prefix → Option Text × Database Db → Start Prefix
  on_migrated e auth (some version, db) = refused (codes "apply migration " ++ version)
  on_migrated e auth (none, db) = serving (new_service e auth (some db))

  abbrev pub on_opened : Environment → Configuration Prefix → Option (Database Db) → Start Prefix
  on_opened e auth none = refused (codes "open sqlite")
  on_opened e auth (some db) = on_migrated e auth (migrate machine.exec machine.migrations db)

  abbrev pub with_database : Environment → Configuration Prefix → Text → Start Prefix
  with_database e auth [] = serving (new_service e auth none)
  with_database e auth (c ∷ path) = on_opened e auth (machine.open_database (c ∷ path))

  abbrev pub on_setup : Environment → Setup Prefix → Start Prefix
  on_setup e (rejected message) = refused message
  on_setup e (started auth) = with_database e auth e.database_path

  -- New
  unfoldable pub new_server : Environment → Start Prefix
  new_server e = on_setup e (new_authenticator_from_env machine.parse_prefix e.variables)

  abbrev pub reconciled : Service Prefix → Database Db → Result ℕ × Db → Service Prefix
  reconciled s d (ok n, db) = record s { database = some (record d { content = db }) }
  reconciled s d (err e, db) = record s { warned = true }

  -- ReconcileInterruptedRuns, whose error is a warning alone.
  abbrev pub reconcile_interrupted_runs : Service Prefix → Option (Database Db) → Service Prefix
  reconcile_interrupted_runs s none = s
  reconcile_interrupted_runs s (some d) =
      if machine.refuses
      then record s { warned = true }
      else reconciled s d (in_tx (mark_active_runs_interrupted machine.env) d.content)

  abbrev is_open : Option (Database Db) → Bool
  is_open none = false
  is_open (some d) = true

  -- InitLoop; NewLoop refuses a missing store and missing credentials, which InitLoop asks for first.
  abbrev pub init_loop : Service Prefix → Service Prefix
  init_loop s = record s { has_loop = is_open s.database && s.model_configured }

  -- SetLogger, with the live secrets.
  abbrev pub set_logger : Environment → Service Prefix → Service Prefix
  set_logger e s = record s {
    logger =
        new_logger (
          e.api_key ∷ e.auth_token ∷ e.variables.access_password ∷ e.variables.session_secret ∷ []);
  }

  abbrev pub prepared : Environment → Service Prefix → Service Prefix
  prepared e s =
      let logged = set_logger e s in init_loop (reconcile_interrupted_runs logged logged.database)

  abbrev pub on_new : Environment → Start Prefix → Start Prefix
  on_new e (refused message) = refused message
  on_new e (serving s) = serving (prepared e s)

  -- main, up to the listening.
  unfoldable pub start : Environment → Start Prefix
  start e = on_new e (new_server e)
