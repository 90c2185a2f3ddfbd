-- ===== src/Api/Config/Protects.antt =====
-- What a server that starts is protected by (newAuthenticatorFromEnv of internal/api/auth.go).
use vibe_forge.Base.{
  ℕ, ◌*◌, ◌≤◌, ◌≡◌, ◌≢◌, ◌∙◌, ◌⊎◌, inl, inr, refl, sym, ap, subst, Bool, true, false, ◌&&◌, ◌||◌,
  Option, none, some, List, [], ◌∷◌, Text, ltb, length, text_eq, text_eq_refl, split_on, trim,
  is_unicode_space, Bool-cases, arith,
}
use vibe_forge.Api.Sessions.{max_session_ttl}
use vibe_forge.Api.Config.{
  Variables, Configuration, Setup, rejected, started, reject_if, on_hours, with_ttl, parse_prefixes,
  on_prefixes, with_proxies, is_test, is_unset, secured, new_authenticator_from_env, atoi,
}

module _ {Prefix : Type 0} (parse_prefix : Text → Option Prefix) (vars : Variables) where
  -- A session ends within a day, and there is a password and a secret of its own, unless it is a test.
  abbrev pub Protected : Configuration Prefix → Type 0
  Protected c =
      (3600 ≤ c.session_ttl)
      × (c.session_ttl ≤ max_session_ttl)
      × (((c.configured ≡ true)
            × (1 ≤ length c.password)
            × (32 ≤ length c.session_secret)
            × (c.password ≢ c.session_secret))
          ⊎ ((c.configured ≡ false) × (is_test parse_prefix vars ≡ true)))

  abbrev Safe : Setup Prefix → Type 0
  Safe (rejected message) = Unit
  Safe (started c) = Protected c

  reject_if-Safe :
      (b : Bool) (message : Text) (rest : Setup Prefix)
      → (b ≡ false → Safe rest)
      → Safe (reject_if b message rest)
  reject_if-Safe true message rest h = tt
  reject_if-Safe false message rest h = h refl

  set_has_length : (s : Text) → is_unset parse_prefix s ≡ false → 1 ≤ length s
  set_has_length [] h = absurd (cc)
  set_has_length (c ∷ s) h = omega arith

  differ : (s t : Text) → text_eq s t ≡ false → s ≢ t
  differ s t h e =
      let same : text_eq s t ≡ true = ap (λ r. text_eq s r) (sym e) ∙ text_eq_refl s in
      absurd (ground arith)

  secured-Safe :
      (ttl : ℕ) (proxies : List Prefix)
      → 3600 ≤ ttl
      → ttl ≤ max_session_ttl
      → Safe (secured parse_prefix vars ttl proxies)
  secured-Safe ttl proxies l m =
      elim (Bool-cases (
        is_test parse_prefix vars
        && (is_unset parse_prefix vars.access_password
            || is_unset parse_prefix vars.session_secret))) [
              | inl t ↦ rw (t) (l, m, inr (refl, ground arith))
              | inr f ↦ rw (f) (
                  reject_if-Safe (is_unset parse_prefix vars.access_password) _ _ λ p.
                    reject_if-Safe (is_unset parse_prefix vars.session_secret) _ _ λ s.
                      reject_if-Safe (ltb (length vars.session_secret) 32) _ _ λ n.
                        reject_if-Safe (text_eq vars.access_password vars.session_secret) _ _ λ d. (
                          l,
                          m,
                          inl (
                            refl,
                            set_has_length vars.access_password p,
                            ground arith,
                            differ vars.access_password vars.session_secret d,
                          ),
                        ))
            ]

  with_proxies-Safe :
      (raw : Text) (rest : List Prefix → Setup Prefix)
      → ((proxies : List Prefix) → Safe (rest proxies))
      → Safe (with_proxies parse_prefix raw rest)
  with_proxies-Safe [] rest h = h []
  with_proxies-Safe (c ∷ raw) rest h =
      parsed (parse_prefixes parse_prefix (split_on b',' (c ∷ raw)))
    where
      parsed : (o : Option (List Prefix)) → Safe (on_prefixes parse_prefix o rest)
      parsed none = tt
      parsed (some proxies) = h proxies

  on_hours-Safe :
      (o : Option ℕ) (rest : ℕ → Setup Prefix)
      → ((ttl : ℕ) → 3600 ≤ ttl → ttl ≤ max_session_ttl → Safe (rest ttl))
      → Safe (on_hours o rest)
  on_hours-Safe none rest h = tt
  on_hours-Safe (some hours) rest h = elim (Bool-cases (ltb hours 1 || ltb 24 hours)) [
    | inl t ↦ rw (t) tt
    | inr f ↦
        let least : 3600 ≤ hours * 3600 = ground arith in
        let most : hours * 3600 ≤ max_session_ttl = ground arith in
        rw (f) (h (hours * 3600) least most)
  ]

  with_ttl-Safe :
      (raw : Text) (rest : ℕ → Setup Prefix)
      → ((ttl : ℕ) → 3600 ≤ ttl → ttl ≤ max_session_ttl → Safe (rest ttl))
      → Safe (with_ttl raw rest)
  with_ttl-Safe [] rest h = h 43200 (omega arith) (omega arith)
  with_ttl-Safe (c ∷ raw) rest h = on_hours-Safe (atoi (c ∷ raw)) rest h

  new_authenticator-Safe : Safe (new_authenticator_from_env parse_prefix vars)
  unfolding new_authenticator_from_env
  new_authenticator-Safe = with_ttl-Safe vars.session_ttl_hours _ λ ttl l m.
      with_proxies-Safe (trim is_unicode_space vars.trusted_proxy_cidrs) _
        λ proxies. secured-Safe ttl proxies l m

-- A server that starts has sessions of an hour to a day, and, unless it runs as a test, a password
-- that is not empty and a secret of at least 32 bytes that differs from it; whatever the environment
-- holds, and whatever the parser of the prefixes answers.
pub new_authenticator_from_env-protects :
    {Prefix : Type 0} (parse_prefix : Text → Option Prefix) (vars : Variables)
    (c : Configuration Prefix)
    → new_authenticator_from_env parse_prefix vars ≡ started c
    → Protected parse_prefix vars c
new_authenticator_from_env-protects parse_prefix vars c e =
    subst (Safe parse_prefix vars) e (new_authenticator-Safe parse_prefix vars)
