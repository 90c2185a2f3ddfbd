-- ===== src/Api/Source/Forwarded.antt =====
-- What a client can write into X-Forwarded-For (requestSource of internal/api/auth.go).
use vibe_forge.Base.{
  ℕ, ◌≡◌, ◌∙◌, refl, sym, ap, List, [], ◌∷◌, ◌++◌, Text, ◌==◌, split_on, arith, Bool-cases, inl,
  inr,
}
use vibe_forge.Api.Source.{Net, last_of, request_source}

-- The parts behind the separator stay the last ones.
split_behind :
    (sep : ℕ) (s t : Text)
    → (e : Text) × (es : List Text) × (split_on sep (s ++ sep ∷ t) ≡ e ∷ (es ++ split_on sep t))
unfolding split_on
split_behind sep [] t = ([], [], ground arith)
split_behind sep (c ∷ s) t =
    let rest = split_behind sep s t in
    elim (Bool-cases (c == sep)) [
      | inl y ↦ ([], rest.0 ∷ rest.1, rw (y, rest.2) refl)
      | inr n ↦ (c ∷ rest.0, rest.1, rw (n, rest.2) refl)
    ]

not_empty : (sep : ℕ) (t : Text) → (e : Text) × (es : List Text) × (split_on sep t ≡ e ∷ es)
unfolding split_on
not_empty sep [] = ([], [], refl)
not_empty sep (c ∷ t) =
    let rest = not_empty sep t in
    elim (Bool-cases (c == sep)) [
      | inl y ↦ ([], split_on sep t, rw (y) refl)
      | inr n ↦ (c ∷ rest.0, rest.1, rw (n, rest.2) refl)
    ]

last_behind :
    (net : Net) (e : Text) (es : List Text) (f : Text) (fs : List Text)
    → last_of net (e ∷ (es ++ f ∷ fs)) ≡ last_of net (f ∷ fs)
last_behind net e [] f fs = refl
last_behind net e (d ∷ es) f fs = last_behind net d es f fs

last_of-split_on :
    (net : Net) (sep : ℕ) (s t : Text)
    → last_of net (split_on sep (s ++ sep ∷ t)) ≡ last_of net (split_on sep t)
last_of-split_on net sep s t = joined (split_behind sep s t) (not_empty sep t)
  where
    joined :
        ((e : Text) × (es : List Text) × (split_on sep (s ++ sep ∷ t) ≡ e ∷ (es ++ split_on sep t)))
        → ((f : Text) × (fs : List Text) × (split_on sep t ≡ f ∷ fs))
        → last_of net (split_on sep (s ++ sep ∷ t)) ≡ last_of net (split_on sep t)
    joined (e, es, p) (f, fs, q) =
        ap (last_of net) (p ∙ ap (λ r. e ∷ (es ++ r)) q)
        ∙ last_behind net e es f fs
        ∙ sym (ap (last_of net) q)

-- What a client writes into X-Forwarded-For in front of what its proxy adds does not change the source
-- that its sign-ins are counted for.
pub request_source-forwarded :
    (net : Net) (proxies : List net.Prefix) (remote_addr written added real_ip : Text)
    → request_source net proxies remote_addr (written ++ b',' ∷ added) real_ip
      ≡ request_source net proxies remote_addr added real_ip
unfolding request_source
request_source-forwarded net proxies remote_addr written added real_ip =
    rw (last_of-split_on net b',' written added) refl
