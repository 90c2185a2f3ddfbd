-- ===== src/Api/Routes.antt =====
-- internal/api/api.go: Router, the table of routes behind the guard of auth.go. Dispatch is that of
-- http.ServeMux: it takes the path as the client escaped it, while the guard reads it unescaped. What
-- a handler answers is a parameter.
pub mod Guarded
use vibe_forge.Base.{
  ℕ, ◌+◌, Bool, true, false, ◌&&◌, ◌||◌, not, any, Option, none, some, List, [], ◌∷◌, ◌++◌, Text,
  codes, length, ◌==◌, text_eq, if◌then◌else◌,
}
use vibe_forge.Store.Table.{first_where}
use vibe_forge.Api.Access.{Authenticator, AuthState, Answer, plain, require_authentication}

pub data Handler : Type 0 where
  health login auth_session logout : Handler
  create_project list_projects get_project create_run list_files write_file : Handler
  write_file_illegal_path list_versions version_files restore_version : Handler
  run_events retry_run compile_result : Handler

-- A segment of a pattern; `rest` is the wildcard that takes what is left.
pub data Segment : Type 0 where
  literal : Text → Segment
  wild rest : Segment

pub record Route : Type 0 where
  pub method : Text
  pub pattern : List Segment
  pub handler : Handler

-- A request, with the segments of its escaped path.
pub record Request : Type 0 where
  pub method : Text
  pub escaped : List Text
  pub cookie : Option Text

-- net/url's unescaping of a segment, and the answer that redirects.
pub record Mux : Type 0 where
  pub unescape : Text → Text
  pub redirect : Answer

abbrev get : Text
get = codes "GET"

abbrev post : Text
post = codes "POST"

abbrev put : Text
put = codes "PUT"

abbrev api_path : Text → List Segment → List Segment
api_path name more = literal (codes "api") ∷ literal name ∷ more

abbrev project_path : List Segment → List Segment
project_path more = api_path (codes "projects") (wild ∷ more)

abbrev run_path : Text → List Segment
run_path name = api_path (codes "runs") (wild ∷ literal name ∷ [])

abbrev route : Text → List Segment → Handler → Route
route method pattern handler = record { method = method; pattern = pattern; handler = handler }

abbrev files_segment : Text
files_segment = codes "files"

abbrev versions_segment : Text
versions_segment = codes "versions"

-- The table. Of the two patterns that overlap the more specific one, which the mux prefers, is first.
unfoldable pub routes : List Route
routes =
    route get (api_path (codes "health") []) Handler.health
    ∷ route post (api_path (codes "auth") (literal (codes "login") ∷ [])) Handler.login
    ∷ route get (api_path (codes "auth") (literal (codes "session") ∷ [])) Handler.auth_session
    ∷ route post (api_path (codes "auth") (literal (codes "logout") ∷ [])) Handler.logout
    ∷ route post (api_path (codes "projects") []) Handler.create_project
    ∷ route get (api_path (codes "projects") []) Handler.list_projects
    ∷ route get (project_path []) Handler.get_project
    ∷ route post (project_path (literal (codes "runs") ∷ [])) Handler.create_run
    ∷ route get (project_path (literal files_segment ∷ [])) Handler.list_files
    ∷ route put
        (project_path
          (literal files_segment ∷ literal (codes "src") ∷ literal (codes "App.tsx") ∷ []))
        Handler.write_file
    ∷ route put (project_path (literal files_segment ∷ rest ∷ [])) Handler.write_file_illegal_path
    ∷ route get (project_path (literal versions_segment ∷ [])) Handler.list_versions
    ∷ route get (project_path (literal versions_segment ∷ wild ∷ literal files_segment ∷ []))
        Handler.version_files
    ∷ route post (project_path (literal versions_segment ∷ wild ∷ literal (codes "restore") ∷ []))
        Handler.restore_version
    ∷ route get (run_path (codes "events")) Handler.run_events
    ∷ route post (run_path (codes "retry")) Handler.retry_run
    ∷ route post (run_path (codes "compile-result")) Handler.compile_result
    ∷ []

abbrev is_empty : Text → Bool
is_empty [] = true
is_empty (c ∷ s) = false

-- A pattern for GET serves HEAD as well.
abbrev pub takes : Text → Route → Bool
takes method r =
    text_eq method r.method || (text_eq method (codes "HEAD") && text_eq r.method (codes "GET"))

-- No segment that cleaning the path takes away.
abbrev is_dots : Text → Bool
is_dots s = text_eq s (codes ".") || text_eq s (codes "..")

unfoldable pub is_cleaned : List Text → Bool
is_cleaned [] = true
is_cleaned (s ∷ []) = not (is_dots s)
is_cleaned (s ∷ t ∷ path) = not (is_empty s) && not (is_dots s) && is_cleaned (t ∷ path)

module _ (mux : Mux) where
  unfoldable pub matches : List Segment → List Text → Bool
  matches [] [] = true
  matches [] (s ∷ path) = false
  matches (p ∷ pattern) [] = false
  matches (literal t ∷ pattern) (s ∷ path) = text_eq (mux.unescape s) t && matches pattern path
  matches (wild ∷ pattern) (s ∷ path) =
      not (is_empty s) && not (text_eq (mux.unescape s) (codes "/")) && matches pattern path
  matches (rest ∷ pattern) (s ∷ path) = true

  abbrev pub find_route : Text → List Text → Option Route
  find_route method path = first_where (λ r. takes method r && matches r.pattern path) routes

  -- Some other method has a pattern for the path.
  abbrev pub is_known : List Text → Bool
  is_known path = any (λ r. matches r.pattern path) routes

  -- Without the slash at its end the path has no route, and with it a pattern takes it exactly.
  abbrev pub lacks_slash : Text → List Text → Bool
  lacks_slash method path = elim (find_route method (path ++ [] ∷ [])) [
    | none ↦ false
    | some r ↦ length r.pattern == length path + 1
  ]

  abbrev pub unrouted : Text → List Text → Answer
  unrouted method path =
      if lacks_slash method path
      then mux.redirect
      else (if is_known path then plain 405 else plain 404)

  abbrev pub on_route : (Handler → Answer) → Text → List Text → Option Route → Answer
  on_route handlers method path none = unrouted method path
  on_route handlers method path (some r) = handlers r.handler

  unfoldable pub serve_http : (Handler → Answer) → Request → Answer
  serve_http handlers q =
      if is_cleaned q.escaped
      then on_route handlers q.method q.escaped (find_route q.method q.escaped)
      else mux.redirect

  -- r.URL.Path
  unfoldable pub url_path : List Text → Text
  url_path [] = []
  url_path (s ∷ path) = codes "/" ++ mux.unescape s ++ url_path path

  -- Router
  unfoldable pub router :
      (Handler → Answer) → Option Authenticator → ℕ → Request → AuthState → Answer × AuthState
  router handlers a now q state =
      require_authentication (serve_http handlers q) a (url_path q.escaped) now q.cookie state
