-- ===== src/Api/Tests/Routes.antt =====
-- Requests to the routes of internal/api/api.go: where they go, and one whose session is over.
use vibe_forge.Base.{
  ℕ, ◌≡◌, refl, Bool, true, false, Option, none, some, List, [], ◌∷◌, Text, codes, if◌then◌else◌,
}
use vibe_forge.Api.Access.{Authenticator, AuthState, Answer, plain}
use vibe_forge.Api.Routes.{Handler, Request, Mux, serve_http, router}
use vibe_forge.Api.Routes.Guarded.{is_public, has_session, router-guarded}
use vibe_forge.Api.Tests.{secret, signer, token}

abbrev mux : Mux
mux = record { unescape = λ s. s; redirect = plain 307 }

abbrev at_files : List Text → List Text
at_files path = codes "api" ∷ codes "projects" ∷ codes "100" ∷ codes "files" ∷ path

abbrev request : Text → List Text → Request
request method path = record { method = method; escaped = path; cookie = some token }

abbrev numbered : Handler → Answer
numbered Handler.write_file = plain 1
numbered Handler.write_file_illegal_path = plain 2
numbered Handler.list_files = plain 3
numbered _ = plain 4

abbrev status_at : Text → List Text → ℕ
status_at method path = (serve_http mux numbered (request method path)).status

-- The one file, another file, HEAD as GET, the missing slash, a method without a route, a path without
-- one, and a path that is cleaned.
dispatched :
    (status_at (codes "PUT") (at_files (codes "src" ∷ codes "App.tsx" ∷ [])) ≡ 1)
    × (status_at (codes "PUT") (at_files (codes "src" ∷ codes "Main.tsx" ∷ [])) ≡ 2)
    × (status_at (codes "HEAD") (at_files []) ≡ 3)
    × (status_at (codes "PUT") (at_files []) ≡ 307)
    × (status_at (codes "DELETE") (at_files []) ≡ 405)
    × (status_at (codes "GET") (codes "api" ∷ codes "users" ∷ []) ≡ 404)
    × (status_at (codes "PUT") (at_files (codes ".." ∷ codes "App.tsx" ∷ [])) ≡ 307)
unfolding serve_http vibe_forge.Api.Routes.is_cleaned vibe_forge.Api.Routes.matches
    vibe_forge.Api.Routes.routes vibe_forge.Store.Table.first_where
dispatched = (refl, refl, refl, refl, refl, refl, refl)

abbrev authenticator : Option Authenticator
authenticator = some (record { secret = secret; signer = signer })

abbrev before : AuthState
before = record { failures = []; revocations = [] }

abbrev write : Request
write = request (codes "PUT") (at_files (codes "src" ∷ codes "App.tsx" ∷ []))

abbrev allowed : Handler → Answer
allowed k = plain 200

abbrev broken_behind : Handler → Answer
broken_behind k = if is_public k then plain 200 else plain 500

agree : (k : Handler) → is_public k ≡ true → allowed k ≡ broken_behind k
agree k e = rw (e) refl

-- The session ended a thousand seconds before.
over : has_session authenticator 2000000000000 write.cookie before ≡ false
unfolding vibe_forge.Api.Sessions.validate_session vibe_forge.Api.Sessions.check_token
    vibe_forge.Api.Sessions.claims_hold vibe_forge.Base.split_on vibe_forge.Store.Table.select_where
over = refl

router-guarded_example :
    router mux allowed authenticator 2000000000000 write before
    ≡ router mux broken_behind authenticator 2000000000000 write before
router-guarded_example =
    router-guarded mux allowed broken_behind authenticator 2000000000000 write before agree over
