-- ===== src/Api/Config.antt =====
-- internal/api/auth.go: newAuthenticatorFromEnv, the authenticator that the environment describes. The
-- password and the secret are bytes, the other variables are code points; a variable that is not set
-- is the empty text. netip.ParsePrefix is the library's; HMAC and SHA-256 come with Api.Sessions.
pub mod Protects
use vibe_forge.Base.{
  ℕ, ◌+◌, ◌*◌, ◌-◌, Bool, true, false, ◌&&◌, ◌||◌, not, Option, none, some, List, [], ◌∷◌, ◌++◌,
  Text, codes, leb, ltb, length, ◌==◌, text_eq, trim, is_unicode_space, split_on, if◌then◌else◌,
}
use vibe_forge.Compile.Forbidden.{to_lower}

pub record Variables : Type 0 where
  pub app_env : Text
  pub access_password : Text
  pub session_secret : Text
  pub session_ttl_hours : Text
  pub trusted_proxy_cidrs : Text

-- defaultSessionTTL, in seconds
abbrev default_session_ttl : ℕ
default_session_ttl = 43200

abbrev is_digit : ℕ → Bool
is_digit c = leb 48 c && leb c 57

abbrev digits : ℕ → Text → Option ℕ
digits n [] = some n
digits n (c ∷ s) = let rest = digits (n * 10 + (c - 48)) s in if is_digit c then rest else none

-- strconv.Atoi where the result is not negative; a number that is too large for Go is large here.
unfoldable pub atoi : Text → Option ℕ
atoi [] = none
atoi (c ∷ []) = digits 0 (c ∷ [])
atoi (c ∷ d ∷ s) = if c == b'+' then digits 0 (d ∷ s) else digits 0 (c ∷ d ∷ s)

pub record Configuration (Prefix : Type 0) : Type 0 where
  pub configured : Bool
  pub session_ttl : ℕ
  pub secure_cookie : Bool
  pub trusted_proxies : List Prefix
  pub password : Text
  pub session_secret : Text

pub data Setup (Prefix : Type 0) : Type 0 where
  rejected : Text → Setup Prefix
  started : Configuration Prefix → Setup Prefix

module _ {Prefix : Type 0} where
  abbrev problem : Text → Setup Prefix
  problem message = rejected (codes "authentication configuration: " ++ message)

  abbrev pub reject_if : Bool → Text → Setup Prefix → Setup Prefix
  reject_if true message rest = problem message
  reject_if false message rest = rest

  abbrev bad_ttl : Setup Prefix
  bad_ttl = problem (codes "APP_AUTH_SESSION_TTL_HOURS must be an integer from 1 through 24")

  abbrev pub on_hours : Option ℕ → (ℕ → Setup Prefix) → Setup Prefix
  on_hours none rest = bad_ttl
  on_hours (some hours) rest = if ltb hours 1 || ltb 24 hours then bad_ttl else rest (hours * 3600)

  abbrev pub with_ttl : Text → (ℕ → Setup Prefix) → Setup Prefix
  with_ttl [] rest = rest default_session_ttl
  with_ttl (c ∷ raw) rest = on_hours (atoi (c ∷ raw)) rest

  module _ (parse_prefix : Text → Option Prefix) where
    abbrev with_head : Option Prefix → Option (List Prefix) → Option (List Prefix)
    with_head (some p) (some more) = some (p ∷ more)
    with_head _ _ = none

    -- The prefixes, where each of them parses.
    abbrev pub parse_prefixes : List Text → Option (List Prefix)
    parse_prefixes [] = some []
    parse_prefixes (raw ∷ raws) =
        with_head (parse_prefix (trim is_unicode_space raw)) (parse_prefixes raws)

    abbrev pub on_prefixes : Option (List Prefix) → (List Prefix → Setup Prefix) → Setup Prefix
    on_prefixes none rest =
        problem (codes "APP_AUTH_TRUSTED_PROXY_CIDRS must be a comma-separated list of IP CIDRs")
    on_prefixes (some prefixes) rest = rest prefixes

    abbrev pub with_proxies : Text → (List Prefix → Setup Prefix) → Setup Prefix
    with_proxies [] rest = rest []
    with_proxies (c ∷ raw) rest = on_prefixes (parse_prefixes (split_on b',' (c ∷ raw))) rest

    abbrev pub environment : Variables → Text
    environment vars = to_lower (trim is_unicode_space vars.app_env)

    abbrev pub is_test : Variables → Bool
    is_test vars = text_eq (environment vars) (codes "test")

    abbrev pub configuration : Variables → Bool → ℕ → List Prefix → Configuration Prefix
    configuration vars configured ttl proxies = record {
      configured = configured;
      session_ttl = ttl;
      secure_cookie = not (text_eq (environment vars) (codes "development")) && not (is_test vars);
      trusted_proxies = proxies;
      password = vars.access_password;
      session_secret = vars.session_secret;
    }

    abbrev pub is_unset : Text → Bool
    is_unset [] = true
    is_unset (c ∷ s) = false

    abbrev pub protected : Variables → ℕ → List Prefix → Setup Prefix
    protected vars ttl proxies =
        reject_if (is_unset vars.access_password) (codes "APP_ACCESS_PASSWORD is required") (
          reject_if (is_unset vars.session_secret) (codes "APP_AUTH_SESSION_SECRET is required") (
            reject_if (ltb (length vars.session_secret) 32)
              (codes "APP_AUTH_SESSION_SECRET must contain at least 32 bytes")
              (reject_if (text_eq vars.access_password vars.session_secret)
                (codes "APP_AUTH_SESSION_SECRET must differ from APP_ACCESS_PASSWORD")
                (started (configuration vars true ttl proxies)))))

    -- A test may run without a password or without a secret.
    abbrev pub secured : Variables → ℕ → List Prefix → Setup Prefix
    secured vars ttl proxies =
        if is_test vars && (is_unset vars.access_password || is_unset vars.session_secret)
        then started (configuration vars false ttl proxies)
        else protected vars ttl proxies

    unfoldable pub new_authenticator_from_env : Variables → Setup Prefix
    new_authenticator_from_env vars = with_ttl vars.session_ttl_hours λ ttl.
        with_proxies (trim is_unicode_space vars.trusted_proxy_cidrs)
          λ proxies. secured vars ttl proxies
