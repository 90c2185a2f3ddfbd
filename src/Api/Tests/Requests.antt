-- ===== src/Api/Tests/Requests.antt =====
-- internal/api/handlers.go: a request for a run that is sent twice.
use vibe_forge.Base.{ℕ, ◌≡◌, refl, true, false, none, some, [], codes, length}
use vibe_forge.Store.Model.{Db}
use vibe_forge.Store.Ledger.{within_ttl}
use vibe_forge.Store.Scenario.{env_at, created, store_code}
use vibe_forge.Api.Handlers.{
  Server, RunBody, Handled, decoded, respond, idempotency_key, create_run,
}
use vibe_forge.Api.Health.{opened, no_path, health}
use vibe_forge.Api.Handlers.Launch.{create_run-launches_once}

abbrev server : Server
server = record {
  has_store = true;
  model_configured = true;
  has_loop = true;
  marshal_report = λ attempt errors hash. [];
}

abbrev body : RunBody
body = record { prompt = codes "a counter"; base_version_id = none; body_key = some 2 }

abbrev again : RunBody
again = record { prompt = codes "a clock"; base_version_id = none; body_key = none }

abbrev first : Handled
first = create_run server (env_at 200) 100 none (decoded body) created

same_key : idempotency_key none (some 2) ≡ some 2
unfolding idempotency_key
same_key = refl

header_key : idempotency_key (some 2) none ≡ some 2
unfolding idempotency_key
header_key = refl

first_launches : first.launched ≡ some 200
unfolding store_code create_run idempotency_key
first_launches = refl

in_time : within_ttl 220 200 ≡ true
unfolding within_ttl
in_time = refl

create_run-launches_once_example :
    create_run server (env_at 220) 100 (some 2) (decoded again) first.db
    ≡ respond first.response first.db
create_run-launches_once_example =
    create_run-launches_once server (env_at 200) (env_at 220) 100 100 none (some 2) body again 2
      created 200 same_key header_key first_launches in_time

-- The same, where the model is not configured: the key is not kept, so a repeated request stores
-- another run, and its prompt a second time.
abbrev unready : Server
unready = record server { model_configured = false }

abbrev refused : ℕ → Db → Db
refused t db = (create_run unready (env_at t) 100 none (decoded body) db).db

prompt_twice :
    (length created.messages ≡ 1)
    × (length (refused 200 created).messages ≡ 1)
    × (length (refused 220 (refused 200 created)).messages ≡ 2)
    × (length (refused 220 (refused 200 created)).runs ≡ 2)
unfolding store_code create_run idempotency_key
prompt_twice = (refl, refl, refl, refl)

-- A server whose database does not answer is unhealthy.
pinged :
    ((health (opened true) true true).status_code ≡ 200)
    × ((health (opened false) true true).status_code ≡ 503)
    × ((health no_path true true).status_code ≡ 503)
unfolding health
pinged = (refl, refl, refl)
