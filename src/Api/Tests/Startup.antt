-- ===== src/Api/Tests/Startup.antt =====
-- cmd/server: a start behind a crash.
use vibe_forge.Base.{◌≡◌, refl, true, false, some, [], ◌∷◌, Text, codes, split_on}
use vibe_forge.Compile.Forbidden.{to_lower}
use vibe_forge.Store.Model.{Db}
use vibe_forge.Store.Operation.{Operation, perform}
use vibe_forge.Store.Scenario.{env_at, running, store_code}
use vibe_forge.LogRedact.{new_logger}
use vibe_forge.Migrations.{insert_sorted, load_migration_versions, read_file, migrate_from, migrate}
use vibe_forge.Api.Config.{atoi, new_authenticator_from_env}
use vibe_forge.Api.Tests.Environment.{variables, configured, parse}
use vibe_forge.Api.Startup.{Environment, Machine, Service, serving, new_server, start}
use vibe_forge.Api.Startup.Ready.{IsReady, start-IsReady}

-- The run 200 was active at the crash.
abbrev machine : Machine Text
machine = record {
  parse_prefix = parse;
  open_database = λ path. some (record { content = running; applied = [] });
  exec = λ statements db. some db;
  migrations = record { name = codes "0001_init.sql"; is_dir = false; statements = [] } ∷ [];
  env = env_at 900;
  refuses = false;
}

abbrev environment : Environment
environment = record {
  variables = variables;
  database_path = codes "forge.db";
  api_key = codes "sk-1";
  auth_token = [];
}

abbrev recovered : Db
recovered = perform (env_at 900) Operation.mark_active_runs_interrupted running

abbrev service : Service Text
service = record {
  auth = configured;
  database = some (record { content = recovered; applied = codes "0001_init" ∷ [] });
  model_configured = true;
  has_loop = true;
  logger =
      new_logger (codes "sk-1" ∷ [] ∷ variables.access_password ∷ variables.session_secret ∷ []);
  warned = false;
}

serves : start machine environment ≡ serving service
unfolding store_code start new_server new_authenticator_from_env atoi to_lower split_on migrate
    migrate_from load_migration_versions insert_sorted read_file new_logger
serves = refl

start-IsReady_example : IsReady machine environment service
start-IsReady_example = start-IsReady machine environment service serves
