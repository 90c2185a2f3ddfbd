-- ===== src/Api/Health.antt =====
-- internal/api/api.go: the health check. The ping of the database is the library's; the versions and
-- the time that the response shows are left out.
use vibe_forge.Base.{ℕ, Bool, true, false, ◌&&◌, if◌then◌else◌}

pub data DepStatus : Type 0 where
  ok not_configured unavailable configured : DepStatus

-- How the database stands: no path, a path that was not opened, or opened, with what its ping says.
pub data DatabaseState : Type 0 where
  no_path not_opened : DatabaseState
  opened : Bool → DatabaseState

pub record Health : Type 0 where
  pub status_code : ℕ
  pub database : DepStatus
  pub model : DepStatus
  pub auth : DepStatus

abbrev database_status : DatabaseState → DepStatus
database_status no_path = DepStatus.not_configured
database_status not_opened = DepStatus.unavailable
database_status (opened true) = DepStatus.ok
database_status (opened false) = DepStatus.unavailable

abbrev configured_status : Bool → DepStatus
configured_status true = DepStatus.configured
configured_status false = DepStatus.not_configured

abbrev is_up : DepStatus → Bool
is_up DepStatus.ok = true
is_up DepStatus.configured = true
is_up _ = false

-- GET /api/health
unfoldable pub health : DatabaseState → Bool → Bool → Health
health db model_configured auth_configured =
    let database = database_status db in
    let model = configured_status model_configured in
    let auth = configured_status auth_configured in
    record {
      status_code = if is_up database && is_up model && is_up auth then 200 else 503;
      database = database;
      model = model;
      auth = auth;
    }
