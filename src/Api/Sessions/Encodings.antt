-- ===== src/Api/Sessions/Encodings.antt =====
-- Two texts of one session (internal/api/auth.go): the decoder of the signature reads several texts
-- as the same bytes, since base64.RawURLEncoding ignores the bits behind the last byte.
use vibe_forge.Base.{
  ℕ, ◌≡◌, ◌≢◌, ◌∙◌, refl, sym, ap, Bool, true, false, not, none, some, List, [], ◌∷◌, ◌++◌, Text,
  text_eq, text_eq_sound, split_on, split_on-append, split_on-free_of, free_of, Bool-cases, inl,
  inr, arith,
}
use vibe_forge.Store.Table.{select_where}
use vibe_forge.Api.Sessions.{
  Signer, Revocation, version_mark, check_parts, check_token, prune, is_revoked, validate_session,
  revoke_valid, revoke_session,
}
use vibe_forge.Api.Sessions.Revoked.{CollisionFree, valid-check}

-- A token with this payload and this text of a signature.
abbrev pub token_text : Text → Text → Text
token_text payload signature = version_mark ++ b'.' ∷ payload ++ b'.' ∷ signature

pub split_on-token_text :
    (payload signature : Text)
    → free_of b'.' payload ≡ true
    → free_of b'.' signature ≡ true
    → split_on b'.' (token_text payload signature) ≡ version_mark ∷ payload ∷ signature ∷ []
unfolding split_on
split_on-token_text payload signature p s =
    split_on-append b'.' version_mark (b'.' ∷ payload ++ b'.' ∷ signature) _ refl (
      ap (λ r. [] ∷ r)
        (split_on-append b'.' payload (b'.' ∷ signature) _ p
          (ap (λ r. [] ∷ r) (split_on-free_of b'.' signature s))))

fewer_revoked :
    (lib : Signer) (token : Text) (keep : Revocation → Bool) (rows : List Revocation)
    → is_revoked lib token rows ≡ false
    → is_revoked lib token (select_where keep rows) ≡ false
unfolding select_where
fewer_revoked lib token keep [] h = h
fewer_revoked lib token keep (r ∷ rows) h = ground (arith, fewer_revoked lib token keep rows)

module _ (lib : Signer) (payload one two : Text) (p : free_of b'.' payload ≡ true)
    (f : free_of b'.' one ≡ true) (g : free_of b'.' two ≡ true) where
  same_check :
      (now : ℕ)
      → lib.decode one ≡ lib.decode two
      → check_token lib now (token_text payload one) ≡ check_token lib now (token_text payload two)
  unfolding check_token
  same_check now e =
      ap (check_parts lib now) (split_on-token_text payload one p f)
      ∙ rw (e) refl
      ∙ sym (ap (check_parts lib now) (split_on-token_text payload two p g))

  two_texts : one ≢ two → token_text payload one ≢ token_text payload two
  two_texts d e =
      let parts : ◌≡◌ {A = List Text} (version_mark ∷ payload ∷ one ∷ [])
          (version_mark ∷ payload ∷ two ∷ []) =
        sym (split_on-token_text payload one p f)
        ∙ ap (split_on b'.') e
        ∙ split_on-token_text payload two p g in
      let same : one ≡ two = cc in d same

other_hash_row :
    (lib : Signer) (a b : Text)
    → CollisionFree lib
    → a ≢ b
    → text_eq (lib.sha256 a) (lib.sha256 b) ≡ false
other_hash_row lib a b free d = elim (Bool-cases (text_eq (lib.sha256 a) (lib.sha256 b))) [
  | inl t ↦ absurd (d (free a b (text_eq_sound _ _ t)))
  | inr n ↦ n
]

still_unrevoked :
    (lib : Signer) (now ends : ℕ) (token other : Text) (rows : List Revocation)
    → text_eq (lib.sha256 token) (lib.sha256 other) ≡ false
    → is_revoked lib other rows ≡ false
    → is_revoked lib other (prune lib now (revoke_valid lib token (some ends, rows))) ≡ false
still_unrevoked lib now ends token other rows n h = fewer_revoked lib other _ _ (
    let rest = fewer_revoked lib other (λ r. not (text_eq r.hash (lib.sha256 token))) rows h in
    rw (n) rest)

valid-result :
    (lib : Signer) (now : ℕ) (token : Text) (rows : List Revocation) (ends : ℕ)
    → (validate_session lib now token rows).0 ≡ some ends
    → validate_session lib now token rows ≡ (some ends, prune lib now rows)
unfolding validate_session
valid-result lib now token rows ends h =
    let c = valid-check lib now token rows ends h in
    elim (Bool-cases (is_revoked lib token (prune lib now rows))) [
      | inl t ↦
          let refused : (validate_session lib now token rows).0 ≡ none = rw (c, t) refl in
          absurd (ground arith)
      | inr f ↦ rw (c, f) refl
    ]

revoked-result :
    (lib : Signer) (now : ℕ) (token : Text) (rows : List Revocation) (ends : ℕ)
    → (validate_session lib now token rows).0 ≡ some ends
    → revoke_session lib now token rows ≡ revoke_valid lib token (some ends, prune lib now rows)
unfolding revoke_session
revoked-result lib now token rows ends h =
    ap (revoke_valid lib token) (valid-result lib now token rows ends h)

unrevoked-valid :
    (lib : Signer) (now ends : ℕ) (token : Text) (rows : List Revocation)
    → check_token lib now token ≡ some ends
    → is_revoked lib token (prune lib now rows) ≡ false
    → (validate_session lib now token rows).0 ≡ some ends
unfolding validate_session
unrevoked-valid lib now ends token rows c f = rw (c, f) refl

-- A revocation holds for one text of a session alone: where the decoder reads two texts of the
-- signature as the same bytes, the session stays valid under the second text when it is revoked under
-- the first. SHA-256 is relied on to have no collisions.
pub revoke_session-other_text :
    (lib : Signer)
    → CollisionFree lib
    → (now ends : ℕ) (payload one two : Text) (rows : List Revocation) → free_of b'.' payload ≡ true
    → free_of b'.' one ≡ true
    → free_of b'.' two ≡ true
    → one ≢ two
    → lib.decode one ≡ lib.decode two
    → (validate_session lib now (token_text payload one) rows).0 ≡ some ends
    → is_revoked lib (token_text payload two) (prune lib now rows) ≡ false
    → (validate_session lib now
        (token_text payload two)
        (revoke_session lib now (token_text payload one) rows)).0
      ≡ some ends
revoke_session-other_text lib free now ends payload one two rows p f g d same valid apart =
    let first = token_text payload one in
    let second = token_text payload two in
    let other = other_hash_row lib first second free (two_texts lib payload one two p f g d) in
    let held : check_token lib now second ≡ some ends =
      sym (same_check lib payload one two p f g now same)
      ∙ valid-check lib now first rows ends valid in
    rw (revoked-result lib now first rows ends valid) (
      unrevoked-valid lib now ends second _ held
        (still_unrevoked lib now ends first second (prune lib now rows) other apart))
