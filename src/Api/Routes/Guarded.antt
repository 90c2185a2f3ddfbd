-- ===== src/Api/Routes/Guarded.antt =====
-- What stands behind the guard (Router of internal/api/api.go and requireAuthentication of auth.go).
use Prim.Native.Nat.{◌/◌}
use vibe_forge.Base.{
  text_eq_sound, ℕ, ◌≡◌, ◌∙◌, refl, ap, Bool, true, false, ◌&&◌, ◌||◌, Option, none, some, List, [],
  ◌∷◌, ◌++◌, Text, codes, text_eq, arith, Bool-cases, inl, inr,
}
use vibe_forge.Store.Table.{first_where}
use vibe_forge.Store.Rows.{is_some}
use vibe_forge.Api.Limiter.{second}
use vibe_forge.Api.Sessions.{Revocation, validate_session}
use vibe_forge.Api.Access.{
  on_validity, Authenticator, AuthState, Answer, auth_public_path, require_authentication,
}
use vibe_forge.Api.Routes.{
  Handler, Segment, Route, Request, Mux, literal, wild, rest, routes, matches, find_route, on_route,
  serve_http, url_path, router,
}

-- The handlers that need no session.
abbrev pub is_public : Handler → Bool
is_public Handler.health = true
is_public Handler.login = true
is_public Handler.auth_session = true
is_public Handler.logout = true
is_public _ = false

abbrev is_private_pattern : List Segment → Bool
is_private_pattern (literal a ∷ literal b ∷ pattern) =
    text_eq a (codes "api") && (text_eq b (codes "projects") || text_eq b (codes "runs"))
is_private_pattern _ = false

abbrev is_sorted_out : Route → Bool
is_sorted_out r = is_public r.handler || is_private_pattern r.pattern

-- The request has a session that is valid now.
abbrev pub has_session : Option Authenticator → ℕ → Option Text → AuthState → Bool
has_session none now cookie state = false
has_session (some a) now none state = false
has_session (some a) now (some token) state =
    is_some (validate_session a.signer (now / second) token state.revocations).0

abbrev all_sorted_out : List Route → Bool
all_sorted_out [] = true
all_sorted_out (r ∷ rs) = is_sorted_out r && all_sorted_out rs

routes_sorted : all_sorted_out routes ≡ true
unfolding routes
routes_sorted = refl

first_sorted :
    (test : Route → Bool) (rs : List Route) (r : Route)
    → all_sorted_out rs ≡ true
    → first_where test rs ≡ some r
    → (is_sorted_out r ≡ true) × (test r ≡ true)
unfolding first_where
first_sorted test [] r sorted e = absurd (cc)
first_sorted test (q ∷ rs) r sorted e = ground (arith, first_sorted test rs r)

private_text :
    (b tail : Text)
    → (text_eq b (codes "projects") || text_eq b (codes "runs")) ≡ true
    → auth_public_path (codes "/" ++ codes "api" ++ codes "/" ++ b ++ tail) ≡ false
unfolding auth_public_path
private_text b tail h = elim (Bool-cases (text_eq b (codes "projects"))) [
  | inl t ↦ rw (text_eq_sound b (codes "projects") t) refl
  | inr t ↦ rw (text_eq_sound b (codes "runs") (ground arith)) refl
]

module _ (mux : Mux) where
  -- A path that a pattern behind the guard takes is not public.
  private_path :
      (pattern : List Segment) (path : List Text)
      → is_private_pattern pattern ≡ true
      → matches mux pattern path ≡ true
      → auth_public_path (url_path mux path) ≡ false
  unfolding matches url_path
  private_path [] path h m = absurd (cc)
  private_path (wild ∷ p) path h m = absurd (cc)
  private_path (rest ∷ p) path h m = absurd (cc)
  private_path (literal a ∷ []) path h m = absurd (cc)
  private_path (literal a ∷ wild ∷ p) path h m = absurd (cc)
  private_path (literal a ∷ rest ∷ p) path h m = absurd (cc)
  private_path (literal a ∷ literal b ∷ p) [] h m = absurd (cc)
  private_path (literal a ∷ literal b ∷ p) (s ∷ []) h m = absurd (ground arith)
  private_path (literal a ∷ literal b ∷ p) (s ∷ t ∷ path) h m =
      let first : mux.unescape s ≡ codes "api" =
        text_eq_sound (mux.unescape s) a (ground arith)
        ∙ text_eq_sound a (codes "api") (ground arith) in
      let second_one : mux.unescape t ≡ b = text_eq_sound (mux.unescape t) b (ground arith) in
      rw (first, second_one) (private_text b (url_path mux path) (ground arith))

  module _ (h1 h2 : Handler → Answer)
      (agree : (k : Handler) → is_public k ≡ true → h1 k ≡ h2 k) where
    on_route-agree :
        (q : Request)
        → auth_public_path (url_path mux q.escaped) ≡ true
        → (found : Option Route) → find_route mux q.method q.escaped ≡ found
        → on_route mux h1 q.method q.escaped found ≡ on_route mux h2 q.method q.escaped found
    on_route-agree q public none e = refl
    on_route-agree q public (some r) e =
        let (sorted, taken) = first_sorted _ routes r routes_sorted e in
        elim (Bool-cases (is_public r.handler)) [
          | inl t ↦ agree r.handler t
          | inr t ↦
              absurd
                (ground (arith, private_path r.pattern q.escaped (ground arith) (ground arith)))
        ]

    serve_http-agree :
        (q : Request)
        → auth_public_path (url_path mux q.escaped) ≡ true
        → serve_http mux h1 q ≡ serve_http mux h2 q
    unfolding serve_http
    serve_http-agree q public = ground (arith, on_route-agree q public _ refl)

refused-blind :
    (n1 n2 : Answer) (a : Option Authenticator) (path : Text) (now : ℕ) (cookie : Option Text)
    (state : AuthState)
    → auth_public_path path ≡ false
    → has_session a now cookie state ≡ false
    → require_authentication n1 a path now cookie state
      ≡ require_authentication n2 a path now cookie state
unfolding require_authentication
refused-blind n1 n2 none path now cookie state private h = rw (private) refl
refused-blind n1 n2 (some a) path now none state private h = rw (private) refl
refused-blind n1 n2 (some a) path now (some token) state private h =
    rw (private) (checked (validate_session a.signer (now / second) token state.revocations) h)
  where
    checked :
        (v : Option ℕ × List Revocation)
        → is_some v.0 ≡ false
        → on_validity n1 state v ≡ on_validity n2 state v
    checked (none, rows) e = refl
    checked (some ends, rows) e = absurd (cc)

-- Without a valid session no request gets anything from the handlers of the projects, files, versions
-- and runs, whatever its path is escaped like: two servers whose handlers differ there alone give the
-- same answer, and the same state behind it. The four others, health, login, session and logout, are
-- those that the guard lets through.
pub router-guarded :
    (mux : Mux) (h1 h2 : Handler → Answer) (a : Option Authenticator) (now : ℕ) (q : Request)
    (state : AuthState)
    → ((k : Handler) → is_public k ≡ true → h1 k ≡ h2 k)
    → has_session a now q.cookie state ≡ false
    → router mux h1 a now q state ≡ router mux h2 a now q state
unfolding router
router-guarded mux h1 h2 a now q state agree h =
    elim (Bool-cases (auth_public_path (url_path mux q.escaped))) [
      | inl t ↦
          ap (λ n. require_authentication n a (url_path mux q.escaped) now q.cookie state)
            (serve_http-agree mux h1 h2 agree q t)
      | inr t ↦ refused-blind _ _ a (url_path mux q.escaped) now q.cookie state t h
    ]
