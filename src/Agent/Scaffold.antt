-- ===== src/Agent/Scaffold.antt =====
-- internal/agent/scaffold.go: the files of a version and the path that the model may write. The
-- contents of the embedded files come from the build.
pub mod Paths
use mathlib.Core.List.{reverse}
use vibe_forge.Base.{
  ℕ, Bool, true, false, ◌||◌, Option, none, some, List, [], ◌∷◌, ◌++◌, Text, codes, ◌==◌, contains,
  split_on, starts_with, text_eq, if◌then◌else◌,
}
use vibe_forge.Contract.{writable_file_path}
use vibe_forge.Store.Model.{FileSnapshot}

abbrev pub slash : Text
slash = b'/' ∷ []

-- `strings.Split(p, "/")`.
abbrev pub elements : Text → List Text
elements = split_on b'/'

abbrev pub dot : Text
dot = codes "."

abbrev pub dots : Text
dots = codes ".."

abbrev pub parent : List Text → List Text
parent [] = []
parent (e ∷ es) = es

-- What path.Clean does with an element of a rooted path, the elements before it in reverse.
abbrev pub enter : Text → List Text → List Text
enter e before =
    if text_eq e [] || text_eq e dot
    then before
    else (if text_eq e dots then parent before else e ∷ before)

unfoldable pub resolve : List Text → List Text → List Text
resolve before [] = reverse before
resolve before (e ∷ es) = resolve (enter e before) es

unfoldable pub rooted : List Text → Text
rooted [] = []
rooted (e ∷ es) = b'/' ∷ e ++ rooted es

abbrev pub or_root : List Text → Text
or_root [] = slash
or_root (e ∷ es) = rooted (e ∷ es)

-- path.Clean of a path that starts with a slash.
unfoldable pub clean : Text → Text
clean p = or_root (resolve [] (elements p))

pub data PathError : Type 0 where
  not_writable : Text → PathError
  path_traversal : PathError

abbrev pub with_slash : Text → Text
with_slash p = if starts_with slash p then p else b'/' ∷ p

abbrev pub check_path : Text → Option PathError
check_path p =
    if text_eq (clean p) writable_file_path
    then (if contains p dots then some path_traversal else none)
    else some (not_writable p)

unfoldable pub validate_file_path : Text → Option PathError
validate_file_path p = check_path (with_slash p)

pub record FileEntry : Type 0 where
  pub path : Text
  pub content : Text
  pub readonly : Bool

-- The keys of scaffoldFiles in the order of sort.Strings.
abbrev pub scaffold_paths : List Text
scaffold_paths =
    codes "/index.html" ∷ codes "/src/App.tsx" ∷ codes "/src/index.css" ∷ codes "/src/main.tsx" ∷ []

module _ (embedded : Text → Text) (app_tsx : Text) where
  abbrev scaffold_entry : Text → FileEntry
  scaffold_entry path =
      if text_eq path writable_file_path
      then record { path = path; content = app_tsx; readonly = false }
      else record { path = path; content = embedded path; readonly = true }

  abbrev entries : List Text → List FileEntry
  entries [] = []
  entries (p ∷ paths) = scaffold_entry p ∷ entries paths

  unfoldable pub build_files_map : List FileEntry
  build_files_map = entries scaffold_paths

unfoldable pub to_snapshots : List FileEntry → List FileSnapshot
to_snapshots [] = []
to_snapshots (e ∷ es) =
    record { path = e.path; content = e.content; readonly = e.readonly } ∷ to_snapshots es
