-- ===== src/Api/Tests.antt =====
-- internal/api: a source that guesses five times, a session that is revoked and the stream of a run
-- that succeeded, as instances of the theorems.
mod Codec
mod Requests
mod Environment
mod Startup
mod Addresses
mod Routes
use vibe_forge.Base.{
  ℕ, Bool, ◌≤◌, ◌≡◌, ◌≢◌, refl, true, false, Option, none, some, List, [], ◌∷◌, Text, codes,
  text_eq, split_on, free_of, arith, if◌then◌else◌,
}
use vibe_forge.Store.Table.{by_key, select_where}
use vibe_forge.Api.Limiter.{Secret, password_matches, prune_failures, failure_of, verify_login}
use mathlib.Core.List.{Memᴰ}
use mathlib.Core.List.Memᴰ
use vibe_forge.Store.Model.{Db, EventType}
use vibe_forge.Store.Scenario.{running, committed}
use vibe_forge.Api.Sessions.{
  Signer, Claims, prune, is_revoked, check_token, claims_hold, validate_session, revoke_session,
}
use vibe_forge.Api.Sessions.Revoked.{CollisionFree, unused, validated, revoke_session-lasts}
use vibe_forge.Api.Sessions.Encodings.{token_text, revoke_session-other_text}
use vibe_forge.Api.Stream.{Look}
use vibe_forge.Api.Limiter.Lockout.{Guess, guess_all, verify_login-lockout, verify_login-isolated}

-- The password is `right`.
abbrev secret : Secret
secret = record { sha256 = λ s. s; password_digest = codes "right" }

abbrev wrong : Text
wrong = codes "wrong"

abbrev four_more : List Guess
four_more = (wrong, 200) ∷ (wrong, 300) ∷ (wrong, 400) ∷ (wrong, 500) ∷ []

nothing_counted : failure_of 7 (prune_failures 100 []) ≡ none
unfolding by_key select_where prune_failures
nothing_counted = refl

wrong_refused : password_matches secret wrong ≡ false
unfolding password_matches
wrong_refused = refl

-- The right password, tried in vain behind the five.
abbrev right_before : List Guess
right_before = (codes "right", 550) ∷ []

abbrev locked_outcome : Bool × ℕ
locked_outcome =
    (verify_login secret 7 (codes "right") 600
      (guess_all secret 7 right_before (guess_all secret 7 ((wrong, 100) ∷ four_more) []))).0

verify_login-lockout_example :
    (locked_outcome.0 ≡ false) × (1 ≤ locked_outcome.1) × (locked_outcome.1 ≤ 60)
verify_login-lockout_example =
    verify_login-lockout secret 7 wrong 100 four_more right_before [] (codes "right") 600
      nothing_counted wrong_refused refl
      (
        (wrong_refused, omega arith),
        (
          (wrong_refused, omega arith),
          ((wrong_refused, omega arith), ((wrong_refused, omega arith), tt)),
        ),
      )
      (omega arith, tt) (omega arith) (omega arith)

-- The signature of everything is S, which both A and B decode to.
abbrev decoded : Text → Option Text
decoded t =
    if text_eq t (codes "A")
    then some (codes "S")
    else (if text_eq t (codes "B")
        then some (codes "S")
        else (if text_eq t (codes "P") then some (codes "J") else some (codes "0123456789abcdef")))

abbrev claims : Claims
claims = record {
  issued_at = 100;
  expires_at = 1000;
  password_version = codes "V";
  nonce = codes "N";
}

abbrev signer : Signer
signer = record {
  sign = λ t. codes "S";
  encode = λ t. t;
  decode = decoded;
  marshal = λ c. codes "J";
  unmarshal = λ t. some claims;
  sha256 = λ t. t;
  password_version = codes "V";
  session_ttl = 900;
}

signer-CollisionFree : CollisionFree signer
signer-CollisionFree = λ a b e. e

abbrev token : Text
token = token_text (codes "P") (codes "A")

abbrev other_token : Text
other_token = token_text (codes "P") (codes "B")

token_valid : (validate_session signer 200 token []).0 ≡ some 1000
unfolding validate_session check_token claims_hold split_on select_where
token_valid = refl

revoke_session-lasts_example :
    (validate_session signer 400 token
      (validate_session signer 300 other_token (revoke_session signer 200 token [])).1).0
    ≡ none
revoke_session-lasts_example =
    revoke_session-lasts signer signer-CollisionFree 200 token [] 1000 token_valid 300 _
      (validated 200 _ unused 300 (omega arith) other_token) 400 (omega arith)

P_free : free_of b'.' (codes "P") ≡ true
P_free = refl

other_apart : is_revoked signer other_token (prune signer 200 []) ≡ false
unfolding select_where
other_apart = refl

A_not_B : codes "A" ≢ codes "B"
A_not_B e = absurd (ground arith)

revoke_session-other_text_example :
    (validate_session signer 200 other_token (revoke_session signer 200 token [])).0 ≡ some 1000
revoke_session-other_text_example =
    revoke_session-other_text signer signer-CollisionFree 200 1000 (codes "P") (codes "A")
      (codes "B") [] refl refl refl A_not_B refl token_valid other_apart

-- The run 200 has just been created, and then it has been committed, with one event.
abbrev earlier : Look
earlier = record { events_in = some running; status_in = some running }

abbrev at_end : Db
at_end = record committed {
  events =
      record {
        id = 400;
        run_id = 200;
        seq = 1;
        type = EventType.run_completed;
        payload = record { stage = none; code = none };
        created_at = 400;
      }
      ∷ [];
}

abbrev look : Look
look = record { events_in = some at_end; status_in = some at_end }
