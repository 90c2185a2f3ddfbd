-- ===== src/Api/Limiter.antt =====
-- internal/api/auth.go: the limit on failed sign-ins (verifyLogin and pruneFailuresLocked). A time is
-- in nanoseconds, the source of a request is a number, and SHA-256 is a parameter. The map of the
-- failures is a list of rows, the row of a source at most once.
pub mod Lockout
use vibe_forge.Base.{
  ℕ, ◌+◌, ◌-◌, Bool, true, false, not, Option, none, some, List, [], ◌∷◌, Text, leb, ltb, ◌==◌,
  text_eq, if◌then◌else◌,
}
use Prim.Native.Nat.{◌/◌}
use vibe_forge.Store.Table.{by_key, select_where}

-- loginFailureWindow, one minute, and the nanoseconds of a second.
abbrev pub login_failure_window : ℕ
login_failure_window = 60000000000

abbrev pub second : ℕ
second = 1000000000

abbrev pub max_login_failures : ℕ
max_login_failures = 5

pub record LoginFailure : Type 0 where
  pub source : ℕ
  pub window_started_at : ℕ
  pub count : ℕ

-- What the authenticator compares a password with.
pub record Secret : Type 0 where
  pub sha256 : Text → Text
  pub password_digest : Text

unfoldable pub password_matches : Secret → Text → Bool
password_matches secret password = text_eq (secret.sha256 password) secret.password_digest

unfoldable pub prune_failures : ℕ → List LoginFailure → List LoginFailure
prune_failures now failures =
    select_where (λ f. ltb now (f.window_started_at + login_failure_window)) failures

abbrev pub failure_of : ℕ → List LoginFailure → Option LoginFailure
failure_of source failures = by_key (λ (f : LoginFailure). f.source) source failures

unfoldable pub delete_failure : ℕ → List LoginFailure → List LoginFailure
delete_failure source failures = select_where (λ f. not (f.source == source)) failures

abbrev seconds_up : ℕ → ℕ
seconds_up remaining = (remaining + (second - 1)) / second

abbrev at_least_one : ℕ → ℕ
at_least_one n = if leb 1 n then n else 1

-- The whole seconds that remain, rounded up, and one at least.
unfoldable pub retry_after : ℕ → LoginFailure → ℕ
retry_after now f = at_least_one (seconds_up (f.window_started_at + login_failure_window - now))

abbrev pub one_more : ℕ → ℕ → Option LoginFailure → LoginFailure
one_more source now none = record { source = source; window_started_at = now; count = 1 }
one_more source now (some f) = record f { count = f.count + 1 }

abbrev pub is_limited : Option LoginFailure → Bool
is_limited none = false
is_limited (some f) = leb max_login_failures f.count

abbrev checked :
    ℕ → ℕ → List LoginFailure → Option LoginFailure → Bool → (Bool × ℕ) × List LoginFailure
checked source now pruned state true = ((true, 0), delete_failure source pruned)
checked source now pruned state false =
    ((false, 0), one_more source now state ∷ delete_failure source pruned)

abbrev limited : ℕ → List LoginFailure → Option LoginFailure → (Bool × ℕ) × List LoginFailure
limited now pruned none = ((false, 1), pruned)
limited now pruned (some f) = ((false, retry_after now f), pruned)

abbrev decide :
    Secret → ℕ → Text → ℕ → List LoginFailure → Option LoginFailure → (Bool × ℕ) × List LoginFailure
decide secret source password now pruned state =
    if is_limited state
    then limited now pruned state
    else checked source now pruned state (password_matches secret password)

-- What verifyLogin returns, whether the password matches and the seconds to wait, and the failures
-- that it leaves.
unfoldable pub verify_login :
    Secret → ℕ → Text → ℕ → List LoginFailure → (Bool × ℕ) × List LoginFailure
verify_login secret source password now failures =
    let pruned = prune_failures now failures in
    decide secret source password now pruned (failure_of source pruned)
