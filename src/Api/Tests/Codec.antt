-- ===== src/Api/Tests/Codec.antt =====
-- internal/api/auth.go: a session that is started, under a codec that shifts every byte.
use Prim.Native.Nat.{zero, suc}
use vibe_forge.Base.{
  ℕ, ◌+◌, ◌-◌, ◌≡◌, refl, ap, true, not, ◌&&◌, Option, none, some, [], ◌∷◌, ◌++◌, Text, codes,
  length, ltb, free_of, arith, if◌then◌else◌,
}
use vibe_forge.Store.Projects.{take}
use vibe_forge.Api.Sessions.{Signer, Claims, session_token, validate_session, is_revoked, prune}
use vibe_forge.Api.Sessions.Created.{validate_session-session_token}

abbrev shifted : Text → Text
shifted [] = []
shifted (b ∷ t) = (b + 100) ∷ shifted t

abbrev unshifted : Text → Text
unshifted [] = []
unshifted (b ∷ t) = (b - 100) ∷ unshifted t

unshifted-shifted : (t : Text) → unshifted (shifted t) ≡ t
unshifted-shifted [] = refl
unshifted-shifted (b ∷ t) =
    let same : b + 100 - 100 ≡ b = omega arith in rw (same, unshifted-shifted t) refl

free_of-shifted : (t : Text) → free_of b'.' (shifted t) ≡ true
free_of-shifted [] = refl
free_of-shifted (b ∷ t) = ground (arith, free_of-shifted t)

abbrev skip : ℕ → Text → Text
skip zero t = t
skip (suc n) [] = []
skip (suc n) (b ∷ t) = skip n t

take-length : (s t : Text) → take (length s) (s ++ t) ≡ s
take-length [] t = refl
take-length (b ∷ s) t = ap (λ r. b ∷ r) (take-length s t)

skip-length : (s t : Text) → skip (length s) (s ++ t) ≡ t
skip-length [] t = refl
skip-length (b ∷ s) t = skip-length s t

-- The length of the version stands before the version.
abbrev written : Claims → Text
written c = c.issued_at ∷ c.expires_at ∷ length c.password_version ∷ c.password_version ++ c.nonce

abbrev read : Text → Option Claims
read (a ∷ b ∷ n ∷ t) =
    some (record { issued_at = a; expires_at = b; password_version = take n t; nonce = skip n t })
read _ = none

read-written : (c : Claims) → read (written c) ≡ some c
read-written c =
    rw (take-length c.password_version c.nonce, skip-length c.password_version c.nonce) refl

abbrev codec : Signer
codec = record {
  sign = λ t. codes "S";
  encode = shifted;
  decode = λ t. some (unshifted t);
  marshal = written;
  unmarshal = read;
  sha256 = λ t. t;
  password_version = codes "V";
  session_ttl = 900;
}

abbrev random : Text
random = codes "0123456789abcdef"

validate_session-session_token_example :
    (validate_session codec 500 (session_token codec 100 random) []).0 ≡ (
      if ltb 500 1000
        && not (is_revoked codec (session_token codec 100 random) (prune codec 500 []))
      then some 1000
      else none)
validate_session-session_token_example =
    validate_session-session_token codec (λ t. ap some (unshifted-shifted t)) read-written
      free_of-shifted 100 random refl (omega arith) (omega arith) (omega arith) 500 []
