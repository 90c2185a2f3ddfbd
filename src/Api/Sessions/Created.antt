-- ===== src/Api/Sessions/Created.antt =====
-- A session that the server starts (internal/api/auth.go, createSession and validateSession).
use vibe_forge.Base.{
  ℕ, ◌+◌, ◌-◌, ◌≤◌, ◌≡◌, refl, true, false, ◌&&◌, not, none, some, List, ◌∷◌, ◌++◌, Text, leb, ltb,
  length, text_eq_refl, free_of, arith, Bool-cases, inl, inr, if◌then◌else◌,
}
use vibe_forge.Api.Sessions.{
  Claims, Signer, Revocation, max_session_ttl, claims_at, session_token, claims_hold, check_token,
  prune, is_revoked, validate_session, version_mark,
}
use vibe_forge.Api.Sessions.Encodings.{token_text, split_on-token_text}

module _ (lib : Signer) (decodes : (t : Text) → lib.decode (lib.encode t) ≡ some t)
    (unmarshals : (c : Claims) → lib.unmarshal (lib.marshal c) ≡ some c)
    (no_dot : (t : Text) → free_of b'.' (lib.encode t) ≡ true) (start : ℕ) (nonce : Text)
    (sixteen : length nonce ≡ 16) (started : 1 ≤ start) (some_time : 1 ≤ lib.session_ttl)
    (limited : lib.session_ttl ≤ max_session_ttl) where
  -- Of the checks on the claims, the time alone is left.
  claims_hold-claims_at :
      (now : ℕ)
      → claims_hold lib now (claims_at lib start nonce) ≡ ltb now (start + lib.session_ttl)
  unfolding claims_hold
  claims_hold-claims_at now =
      let issued : leb start 0 ≡ false = ground arith in
      let after : leb (start + lib.session_ttl) start ≡ false = ground arith in
      let short : ltb max_session_ttl (start + lib.session_ttl - start) ≡ false = ground arith in
      rw
        (
          decodes nonce,
          sixteen,
          text_eq_refl (lib.sha256 lib.password_version),
          issued,
          after,
          short,
        )
        refl

  abbrev payload : Text
  payload = lib.encode (lib.marshal (claims_at lib start nonce))

  abbrev signature : Text
  signature = lib.encode (lib.sign (version_mark ++ b'.' ∷ payload))

  session_token-token_text : session_token lib start nonce ≡ token_text payload signature
  unfolding session_token
  session_token-token_text = refl

  check_token-session_token :
      (now : ℕ)
      → check_token lib now (session_token lib start nonce)
        ≡ (if ltb now (start + lib.session_ttl) then some (start + lib.session_ttl) else none)
  unfolding check_token
  check_token-session_token now =
      let parts = split_on-token_text payload signature (no_dot _) (no_dot _) in
      rw
        (
          session_token-token_text,
          parts,
          decodes (lib.sign (version_mark ++ b'.' ∷ payload)),
          text_eq_refl (lib.sign (version_mark ++ b'.' ∷ payload)),
          decodes (lib.marshal (claims_at lib start nonce)),
          unmarshals (claims_at lib start nonce),
          claims_hold-claims_at now,
        )
        refl

-- The session of a token that the server issues is accepted, with its end, until the end and unless it
-- is revoked, and is refused from its end on. Relied on: what base64 and JSON encode they decode, and
-- base64 writes no dot. The session starts with 16 random bytes and lasts from a second to a day.
pub validate_session-session_token :
    (lib : Signer)
    → ((t : Text) → lib.decode (lib.encode t) ≡ some t)
    → ((c : Claims) → lib.unmarshal (lib.marshal c) ≡ some c)
    → ((t : Text) → free_of b'.' (lib.encode t) ≡ true)
    → (start : ℕ) (nonce : Text) → length nonce ≡ 16
    → 1 ≤ start
    → 1 ≤ lib.session_ttl
    → lib.session_ttl ≤ max_session_ttl
    → (now : ℕ) (rows : List Revocation)
    → (validate_session lib now (session_token lib start nonce) rows).0 ≡ (
        if ltb now (start + lib.session_ttl)
          && not (is_revoked lib (session_token lib start nonce) (prune lib now rows))
        then some (start + lib.session_ttl)
        else none)
unfolding validate_session
validate_session-session_token lib decodes unmarshals no_dot start nonce sixteen started some_time
      limited now rows =
    let checked =
      check_token-session_token lib decodes unmarshals no_dot start nonce sixteen started some_time
        limited now in
    elim (Bool-cases (ltb now (start + lib.session_ttl))) [
      | inl t ↦
          elim (Bool-cases (is_revoked lib (session_token lib start nonce) (prune lib now rows))) [
            | inl r ↦ rw (checked, t, r) refl
            | inr r ↦ rw (checked, t, r) refl
          ]
      | inr f ↦ rw (checked, f) refl
    ]
