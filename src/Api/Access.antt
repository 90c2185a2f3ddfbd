-- ===== src/Api/Access.antt =====
-- internal/api/auth.go: the sign-in, the sign-out and the guard in front of the other handlers. Of a
-- response, what is kept is its status and what it does to the cookie; the counters and the log are
-- left out. Here a time is in nanoseconds.
use Prim.Native.Nat.{◌/◌}
use vibe_forge.Base.{
  ℕ, Bool, ◌||◌, Option, none, some, List, Text, codes, ltb, text_eq, if◌then◌else◌,
}
use vibe_forge.Api.Limiter.{LoginFailure, Secret, second, verify_login}
use vibe_forge.Api.Sessions.{Signer, Revocation, session_token, validate_session, revoke_session}

-- The authenticator; `none` is one that is not configured.
pub record Authenticator : Type 0 where
  pub secret : Secret
  pub signer : Signer

-- What it keeps between requests.
pub record AuthState : Type 0 where
  pub failures : List LoginFailure
  pub revocations : List Revocation

pub data Cookie : Type 0 where
  kept : Cookie
  expired : Cookie
  issued : Text → Cookie

pub record Answer : Type 0 where
  pub status : ℕ
  pub cookie : Cookie
  pub retry_after : ℕ

abbrev pub plain : ℕ → Answer
plain status = record { status = status; cookie = kept; retry_after = 0 }

-- A session starts where random bytes are there.
abbrev start_session : Signer → ℕ → Option Text → Answer
start_session lib now none = plain 503
start_session lib now (some fresh) = record {
  status = 204;
  cookie = issued (session_token lib now fresh);
  retry_after = 0;
}

abbrev after_check : Signer → ℕ → Option Text → Bool × ℕ → Answer
after_check lib now fresh (matches, wait) =
    if ltb 0 wait
    then record { status = 429; cookie = kept; retry_after = wait }
    else (if matches then start_session lib now fresh else plain 401)

abbrev sign_in : Authenticator → ℕ → Option Text → ℕ → Text → AuthState → Answer × AuthState
sign_in a now fresh source password state =
    let checked = verify_login a.secret source password now state.failures in
    (after_check a.signer (now / second) fresh checked.0, record state { failures = checked.1 })

abbrev with_password :
    Authenticator → ℕ → Option Text → ℕ → Option Text → AuthState → Answer × AuthState
with_password a now fresh source none state = (plain 400, state)
with_password a now fresh source (some password) state =
    if text_eq password (codes "")
    then (plain 400, state)
    else sign_in a now fresh source password state

-- POST /api/auth/login; a body that does not parse has no password.
unfoldable pub login :
    Option Authenticator → ℕ → Option Text → ℕ → Option Text → AuthState → Answer × AuthState
login none now fresh source password state = (plain 503, state)
login (some a) now fresh source password state = with_password a now fresh source password state

abbrev pub on_validity : Answer → AuthState → Option ℕ × List Revocation → Answer × AuthState
on_validity yes_answer state (none, rows) = (
  record { status = 401; cookie = expired; retry_after = 0 },
  record state { revocations = rows },
)
on_validity yes_answer state (some ends, rows) = (yes_answer, record state { revocations = rows })

abbrev pub with_cookie : Answer → Authenticator → ℕ → Option Text → AuthState → Answer × AuthState
with_cookie answer a now none state = (plain 401, state)
with_cookie answer a now (some token) state =
    on_validity answer state (validate_session a.signer (now / second) token state.revocations)

-- GET /api/auth/session
unfoldable pub auth_session :
    Option Authenticator → ℕ → Option Text → AuthState → Answer × AuthState
auth_session none now cookie state = (plain 503, state)
auth_session (some a) now cookie state = with_cookie (plain 200) a now cookie state

-- POST /api/auth/logout
unfoldable pub logout : Option Authenticator → ℕ → Option Text → AuthState → Answer × AuthState
logout none now cookie state = (plain 204, state)
logout (some a) now none state = (record { status = 204; cookie = expired; retry_after = 0 }, state)
logout (some a) now (some token) state = (
  record { status = 204; cookie = expired; retry_after = 0 },
  record state { revocations = revoke_session a.signer (now / second) token state.revocations },
)

unfoldable pub auth_public_path : Text → Bool
auth_public_path path =
    text_eq path (codes "/api/health")
    || text_eq path (codes "/api/auth/login")
    || text_eq path (codes "/api/auth/session")
    || text_eq path (codes "/api/auth/logout")

abbrev guarded : Answer → Option Authenticator → ℕ → Option Text → AuthState → Answer × AuthState
guarded next none now cookie state = (plain 503, state)
guarded next (some a) now cookie state = with_cookie next a now cookie state

-- The guard; `next` is what the handler behind it answers.
unfoldable pub require_authentication :
    Answer → Option Authenticator → Text → ℕ → Option Text → AuthState → Answer × AuthState
require_authentication next a path now cookie state =
    if auth_public_path path then (next, state) else guarded next a now cookie state
