-- ===== src/Api/Sessions/Revoked.antt =====
-- A session after its revocation (internal/api/auth.go, validateSession and revokeSession).
use vibe_forge.Base.{
  ℕ, ◌≤◌, ◌<◌, ◌≡◌, ◌∙◌, ◌⊎◌, inl, inr, refl, sym, ap, Bool, true, false, ◌&&◌, not, any, Option,
  none, some, List, [], ◌∷◌, ◌++◌, Text, ◌==◌, ltb, text_eq, text_eq_sound, text_eq_refl, split_on,
  Bool-cases, Option-cases, arith,
}
use vibe_forge.Store.Table.{select_where}
use vibe_forge.Api.Sessions.{
  Claims, Signer, Revocation, claims_hold, signature_is, unmarshalled, expiry_if_held, check_parts,
  check_token, prune, is_revoked, validate_session, revoke_valid, revoke_session, version_mark,
}

-- What SHA-256 is relied on for.
abbrev pub CollisionFree : Signer → Type 0
CollisionFree lib = (a b : Text) → lib.sha256 a ≡ lib.sha256 b → a ≡ b

-- The uses of the authenticator from one moment to another, in the order of their times.
pub data Uses (lib : Signer) (now : ℕ) (rows : List Revocation) : ℕ → List Revocation → Type 0 where
  unused : Uses lib now rows now rows
  validated :
      (mid : ℕ) (between : List Revocation)
      → Uses lib now rows mid between
      → (later : ℕ) → mid ≤ later
      → (token : Text) → Uses lib now rows later (validate_session lib later token between).1
  revoked :
      (mid : ℕ) (between : List Revocation)
      → Uses lib now rows mid between
      → (later : ℕ) → mid ≤ later
      → (token : Text) → Uses lib now rows later (revoke_session lib later token between)

module _ (lib : Signer) where
  expiry_of :
      (now : ℕ) (o : Option Claims) (ends : ℕ)
      → expiry_if_held lib now o ≡ some ends
      → (c : Claims) × (o ≡ some c) × (c.expires_at ≡ ends) × (now < ends)
  unfolding claims_hold
  expiry_of now none ends h = absurd (ground arith)
  expiry_of now (some c) ends h = elim (Bool-cases (claims_hold lib now c)) [
    | inl t ↦ (c, refl, ground arith, ground arith)
    | inr f ↦ absurd (ground arith)
  ]

  -- A token ends at one time, whenever it is looked at.
  ends_once :
      (t u : ℕ) (parts : List Text) (ends other : ℕ)
      → check_parts lib t parts ≡ some ends
      → check_parts lib u parts ≡ some other
      → (other ≡ ends) × (u < ends)
  ends_once t u (mark ∷ payload ∷ signature ∷ []) ends other h k =
      elim (Bool-cases (
        text_eq mark version_mark
        && signature_is lib (mark ++ b'.' ∷ payload) (lib.decode signature))) [
          | inr f ↦ absurd (ground arith)
          | inl s ↦
              let (c, e, at, l) =
                expiry_of t (unmarshalled lib (lib.decode payload)) ends (rw (s) at h) in
              let (d, f, at2, l2) =
                expiry_of u (unmarshalled lib (lib.decode payload)) other (rw (s) at k) in
              let same : c ≡ d = ground arith in
              let one : other ≡ ends = sym at2 ∙ ap (λ x. x.expires_at) (sym same) ∙ at in
              (one, omega (arith, one, l2))
        ]
  ends_once t u [] ends other h k = absurd (ground arith)
  ends_once t u (a ∷ []) ends other h k = absurd (ground arith)
  ends_once t u (a ∷ b ∷ []) ends other h k = absurd (ground arith)
  ends_once t u (a ∷ b ∷ c ∷ d ∷ es) ends other h k = absurd (ground arith)

  pub valid-check :
      (now : ℕ) (token : Text) (rows : List Revocation) (ends : ℕ)
      → (validate_session lib now token rows).0 ≡ some ends
      → check_token lib now token ≡ some ends
  unfolding validate_session
  valid-check now token rows ends h = elim (Option-cases (check_token lib now token)) [
    | inl n ↦ absurd (ground arith)
    | inr (e, c) ↦ elim (Bool-cases (is_revoked lib token (prune lib now rows))) [
      | inl t ↦ absurd (ground arith)
      | inr f ↦ ground arith
    ]
  ]

  module _ (token : Text) (ends : ℕ) where
    -- The revocation of the token is kept.
    abbrev recorded : List Revocation → Bool
    recorded rows =
        any (λ (r : Revocation). text_eq r.hash (lib.sha256 token) && r.ends_at == ends) rows

    prune-recorded :
        (now : ℕ) (rows : List Revocation)
        → now < ends
        → recorded rows ≡ true
        → recorded (prune lib now rows) ≡ true
    unfolding select_where
    prune-recorded now [] l h = h
    prune-recorded now (r ∷ rows) l h = ground (arith, prune-recorded now rows l)

    recorded-is_revoked :
        (rows : List Revocation) → recorded rows ≡ true → is_revoked lib token rows ≡ true
    recorded-is_revoked [] h = h
    recorded-is_revoked (r ∷ rows) h = ground (arith, recorded-is_revoked rows)

    other_hash :
        (hash other : Text)
        → text_eq (lib.sha256 token) other ≡ false
        → text_eq hash (lib.sha256 token) ≡ true
        → text_eq hash other ≡ false
    other_hash hash other n h = ap (λ x. text_eq x other) (text_eq_sound _ _ h) ∙ n

    recorded_besides :
        (other : Text) (rows : List Revocation)
        → text_eq (lib.sha256 token) other ≡ false
        → recorded rows ≡ true
        → recorded (select_where (λ (r : Revocation). not (text_eq r.hash other)) rows) ≡ true
    unfolding select_where
    recorded_besides other [] n h = h
    recorded_besides other (r ∷ rows) n h = elim (Bool-cases (text_eq r.hash (lib.sha256 token))) [
      | inl t ↦
          let apart = other_hash r.hash other n t in ground (arith, recorded_besides other rows n)
      | inr f ↦ ground (arith, recorded_besides other rows n)
    ]

    -- The session is over, or its revocation is kept.
    abbrev Spent : ℕ → List Revocation → Type 0
    Spent now rows = (ends ≤ now) ⊎ (recorded rows ≡ true)

    validate-Spent :
        (mid now : ℕ) (other : Text) (rows : List Revocation)
        → mid ≤ now
        → Spent mid rows
        → Spent now (validate_session lib now other rows).1
    unfolding validate_session
    validate-Spent mid now other rows l (inl over) = inl (omega (arith, l, over))
    validate-Spent mid now other rows l (inr kept) =
        elim (Option-cases (check_token lib now other)) [
          | inl n ↦ rw (n) (inr kept)
          | inr (e, c) ↦ elim (Bool-cases (ltb now ends)) [
            | inl t ↦ rw (c) (inr (prune-recorded now rows (ground arith) kept))
            | inr f ↦ inl (ground arith)
          ]
        ]

    fresh_row :
        (other : Text) (e : ℕ) (rows : List Revocation)
        → ((other ≡ token) → e ≡ ends)
        → CollisionFree lib
        → recorded rows ≡ true
        → recorded (revoke_valid lib other (some e, rows)) ≡ true
    fresh_row other e rows same free kept =
        elim (Bool-cases (text_eq (lib.sha256 token) (lib.sha256 other))) [
          | inl t ↦
              let names : token ≡ other = free token other (text_eq_sound _ _ t) in
              let ends_same : e ≡ ends = same (sym names) in
              let hash : text_eq (lib.sha256 other) (lib.sha256 token) ≡ true =
                ap (λ x. text_eq (lib.sha256 x) (lib.sha256 token)) (sym names)
                ∙ text_eq_refl (lib.sha256 token) in
              ground arith
          | inr n ↦ let rest = recorded_besides (lib.sha256 other) rows n kept in ground arith
        ]

    revoke_valid-Spent :
        (now : ℕ) (other : Text) (result : Option ℕ × List Revocation)
        → ((e : ℕ) → result.0 ≡ some e → (other ≡ token) → e ≡ ends)
        → CollisionFree lib
        → Spent now result.1
        → Spent now (revoke_valid lib other result)
    revoke_valid-Spent now other (none, rows) same free h = h
    revoke_valid-Spent now other (some e, rows) same free (inl over) = inl over
    revoke_valid-Spent now other (some e, rows) same free (inr kept) =
        inr (fresh_row other e rows (same e refl) free kept)

    module _ (first : ℕ) (held : check_token lib first token ≡ some ends) where
      same_end :
          (now e : ℕ) (other : Text) (rows : List Revocation)
          → (validate_session lib now other rows).0 ≡ some e
          → other ≡ token
          → e ≡ ends
      unfolding check_token
      same_end now e other rows v o =
          let here : check_token lib now token ≡ some e =
            ap (check_token lib now) (sym o) ∙ valid-check now other rows e v in
          (ends_once first now (split_on b'.' token) ends e held here).0

      revoke-Spent :
          (mid now : ℕ) (other : Text) (rows : List Revocation)
          → mid ≤ now
          → CollisionFree lib
          → Spent mid rows
          → Spent now (revoke_session lib now other rows)
      unfolding revoke_session
      revoke-Spent mid now other rows l free h =
          revoke_valid-Spent now other (validate_session lib now other rows)
            (λ e v o. same_end now e other rows v o) free (validate-Spent mid now other rows l h)

      Uses-Spent :
          (now : ℕ) (rows : List Revocation) (later : ℕ) (left : List Revocation)
          → CollisionFree lib
          → Spent now rows
          → Uses lib now rows later left
          → Spent later left
      Uses-Spent now rows _ _ free h unused = h
      Uses-Spent now rows _ _ free h (validated mid between uses later l other) =
          validate-Spent mid later other between l (Uses-Spent now rows mid between free h uses)
      Uses-Spent now rows _ _ free h (revoked mid between uses later l other) =
          revoke-Spent mid later other between l free (Uses-Spent now rows mid between free h uses)

      refused :
          (now : ℕ) (rows : List Revocation)
          → Spent now rows
          → (validate_session lib now token rows).0 ≡ none
      unfolding validate_session check_token
      refused now rows h = elim (Option-cases (check_token lib now token)) [
        | inl n ↦ rw (n) refl
        | inr (e, c) ↦
            let (same, l) = ends_once first now (split_on b'.' token) ends e held c in
            still (prune-recorded now rows l (not_over h l)) c
      ]
        where
          not_over : Spent now rows → now < ends → recorded rows ≡ true
          not_over (inl over) l = absurd (omega (arith, over, l))
          not_over (inr kept) l = kept

          still :
              {e : ℕ}
              → recorded (prune lib now rows) ≡ true
              → check_token lib now token ≡ some e
              → (validate_session lib now token rows).0 ≡ none
          still kept c = let hit = recorded-is_revoked (prune lib now rows) kept in rw (c, hit) refl

just_revoked :
    (lib : Signer) (token : Text) (ends now : ℕ) (rows : List Revocation)
    → (validate_session lib now token rows).0 ≡ some ends
    → Spent lib token ends now (revoke_session lib now token rows)
unfolding revoke_session
just_revoked lib token ends now rows h = revoked_row (validate_session lib now token rows) h
  where
    revoked_row :
        (r : Option ℕ × List Revocation)
        → r.0 ≡ some ends
        → Spent lib token ends now (revoke_valid lib token r)
    revoked_row (none, left) e = absurd (ground arith)
    revoked_row (some e, left) same =
        let mine = text_eq_refl (lib.sha256 token) in
        let ends_same : e ≡ ends = ground arith in inr (ground arith)

Spent-later :
    (lib : Signer) (token : Text) (ends later now : ℕ) (rows : List Revocation)
    → later ≤ now
    → Spent lib token ends later rows
    → Spent lib token ends now rows
Spent-later lib token ends later now rows l (inl over) = inl (omega (arith, over, l))
Spent-later lib token ends later now rows l (inr kept) = inr kept

-- A token that is revoked while it is valid is refused ever after: whatever the authenticator is used
-- for in between, as long as its clock does not go back, no later validation accepts this text of the
-- token. SHA-256 is relied on to have no collisions.
pub revoke_session-lasts :
    (lib : Signer)
    → CollisionFree lib
    → (now : ℕ) (token : Text) (rows : List Revocation) (ends : ℕ)
    → (validate_session lib now token rows).0 ≡ some ends
    → (last : ℕ) (left : List Revocation)
    → Uses lib now (revoke_session lib now token rows) last left
    → (later : ℕ) → last ≤ later
    → (validate_session lib later token left).0 ≡ none
revoke_session-lasts lib free now token rows ends valid last left uses later l =
    let held = valid-check lib now token rows ends valid in
    refused lib token ends now held later left (
      Spent-later lib token ends last later left l (
        Uses-Spent lib token ends now held now _ last left free
          (just_revoked lib token ends now rows valid) uses))
