-- ===== src/Api/Tests/Environment.antt =====
-- internal/api/auth.go: the authenticator of an environment.
use vibe_forge.Base.{◌≡◌, refl, true, Option, some, [], Text, codes, split_on}
use vibe_forge.Compile.Forbidden.{to_lower}
use vibe_forge.Api.Config.{
  Variables, Configuration, rejected, started, atoi, new_authenticator_from_env,
}

abbrev pub parse : Text → Option Text
parse s = some s

abbrev pub variables : Variables
variables = record {
  app_env = codes " Production";
  access_password = codes "right";
  session_secret = codes "0123456789abcdef0123456789abcdef";
  session_ttl_hours = codes "8";
  trusted_proxy_cidrs = [];
}

abbrev pub configured : Configuration Text
configured = record {
  configured = true;
  session_ttl = 28800;
  secure_cookie = true;
  trusted_proxies = [];
  password = codes "right";
  session_secret = codes "0123456789abcdef0123456789abcdef";
}

starts : new_authenticator_from_env parse variables ≡ started configured
unfolding new_authenticator_from_env atoi to_lower split_on
starts = refl

-- A session of a day and an hour is refused.
too_long :
    new_authenticator_from_env parse (record variables { session_ttl_hours = codes "25" })
    ≡ rejected (
        codes
          "authentication configuration: APP_AUTH_SESSION_TTL_HOURS must be an integer from 1 through 24")
unfolding new_authenticator_from_env atoi to_lower split_on
too_long = refl
