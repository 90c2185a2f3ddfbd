-- ===== src/Api/Sessions.antt =====
-- internal/api/auth.go: sessions. A token is the text of a cookie; a time is in whole seconds, which
-- decides every comparison since sessions end on whole seconds, and a claim that is negative stands
-- as 0, which is refused as well. HMAC, base64, JSON and SHA-256 are the library's. The map of the
-- revoked sessions is a list of rows.
pub mod Revoked
pub mod Encodings
pub mod Created
use vibe_forge.Base.{
  ℕ, ◌+◌, ◌-◌, Bool, true, false, ◌&&◌, ◌||◌, not, any, Option, none, some, List, [], ◌∷◌, ◌++◌,
  Text, codes, leb, ltb, length, ◌==◌, text_eq, split_on, if◌then◌else◌,
}
use vibe_forge.Store.Table.{select_where}

-- maxSessionTTL: 24 hours.
abbrev pub max_session_ttl : ℕ
max_session_ttl = 86400

pub record Claims : Type 0 where
  pub issued_at : ℕ
  pub expires_at : ℕ
  pub password_version : Text
  pub nonce : Text

-- The library calls, with the session secret inside `sign`, and the authenticator's configuration.
pub record Signer : Type 0 where
  pub sign : Text → Text
  pub encode : Text → Text
  pub decode : Text → Option Text
  pub marshal : Claims → Text
  pub unmarshal : Text → Option Claims
  pub sha256 : Text → Text
  pub password_version : Text
  pub session_ttl : ℕ

pub record Revocation : Type 0 where
  pub hash : Text
  pub ends_at : ℕ

abbrev dot : Text
dot = codes "."

abbrev pub version_mark : Text
version_mark = codes "v1"

module _ (lib : Signer) where
  abbrev claims_at : ℕ → Text → Claims
  claims_at now nonce = record {
    issued_at = now;
    expires_at = now + lib.session_ttl;
    password_version = lib.password_version;
    nonce = lib.encode nonce;
  }

  abbrev sealed : Text → Text
  sealed signed = signed ++ b'.' ∷ lib.encode (lib.sign signed)

  -- The token of a session that starts now, with 16 random bytes.
  unfoldable pub session_token : ℕ → Text → Text
  session_token now nonce =
      sealed (version_mark ++ b'.' ∷ lib.encode (lib.marshal (claims_at now nonce)))

  abbrev pub is_nonce : Option Text → Bool
  is_nonce none = false
  is_nonce (some nonce) = length nonce == 16

  -- The claims are this server's, and in force at `now`.
  unfoldable pub claims_hold : ℕ → Claims → Bool
  claims_hold now c =
      is_nonce (lib.decode c.nonce)
      && text_eq (lib.sha256 c.password_version) (lib.sha256 lib.password_version)
      && not (leb c.issued_at 0)
      && not (leb c.expires_at c.issued_at)
      && not (ltb max_session_ttl (c.expires_at - c.issued_at))
      && ltb now c.expires_at

  abbrev pub signature_is : Text → Option Text → Bool
  signature_is signed none = false
  signature_is signed (some signature) = text_eq signature (lib.sign signed)

  abbrev pub unmarshalled : Option Text → Option Claims
  unmarshalled none = none
  unmarshalled (some payload) = lib.unmarshal payload

  abbrev pub expiry_if_held : ℕ → Option Claims → Option ℕ
  expiry_if_held now none = none
  expiry_if_held now (some c) = if claims_hold now c then some c.expires_at else none

  abbrev pub check_parts : ℕ → List Text → Option ℕ
  check_parts now (mark ∷ payload ∷ signature ∷ []) =
      if text_eq mark version_mark && signature_is (mark ++ b'.' ∷ payload) (lib.decode signature)
      then expiry_if_held now (unmarshalled (lib.decode payload))
      else none
  check_parts now _ = none

  -- The checks before the revocations: when the session ends, if they hold.
  unfoldable pub check_token : ℕ → Text → Option ℕ
  check_token now token = check_parts now (split_on b'.' token)

  abbrev pub prune : ℕ → List Revocation → List Revocation
  prune now rows = select_where (λ (r : Revocation). ltb now r.ends_at) rows

  abbrev pub is_revoked : Text → List Revocation → Bool
  is_revoked token rows = any (λ (r : Revocation). text_eq r.hash (lib.sha256 token)) rows

  abbrev pub unless_revoked : ℕ → Text → List Revocation → Option ℕ → Option ℕ × List Revocation
  unless_revoked now token rows none = (none, rows)
  unless_revoked now token rows (some ends) =
      (if is_revoked token (prune now rows) then none else some ends, prune now rows)

  -- validateSession with sessionRevoked: when the session ends, and the revocations that are left.
  unfoldable pub validate_session : ℕ → Text → List Revocation → Option ℕ × List Revocation
  validate_session now token rows = unless_revoked now token rows (check_token now token)

  abbrev pub revoke_valid : Text → Option ℕ × List Revocation → List Revocation
  revoke_valid token (none, rows) = rows
  revoke_valid token (some ends, rows) =
      record { hash = lib.sha256 token; ends_at = ends }
      ∷ select_where (λ (r : Revocation). not (text_eq r.hash (lib.sha256 token))) rows

  unfoldable pub revoke_session : ℕ → Text → List Revocation → List Revocation
  revoke_session now token rows = revoke_valid token (validate_session now token rows)
