-- ===== src/Store/Hash.antt =====
-- internal/store/version.go: filesHash, the digest of a snapshot. SHA-256 is a parameter.
use vibe_forge.Base.{Bool, true, false, List, [], ◌∷◌, ◌++◌, Text, ltb, ◌==◌, if◌then◌else◌}
use vibe_forge.Store.Model.{FileSnapshot, Env}

-- sort.Slice by path; the paths of a version differ.
abbrev pub text_before : Text → Text → Bool
text_before [] [] = false
text_before [] (d ∷ t) = true
text_before (c ∷ s) [] = false
text_before (c ∷ s) (d ∷ t) = if c == d then text_before s t else ltb c d

unfoldable pub insert_by_path : FileSnapshot → List FileSnapshot → List FileSnapshot
insert_by_path f [] = f ∷ []
insert_by_path f (g ∷ files) =
    let more = insert_by_path f files in
    if text_before g.path f.path then g ∷ more else f ∷ g ∷ files

unfoldable pub sort_by_path : List FileSnapshot → List FileSnapshot
sort_by_path [] = []
sort_by_path (f ∷ files) = insert_by_path f (sort_by_path files)

-- The bytes that are hashed: each path and content, closed by a zero byte.
unfoldable pub hashed_bytes : List FileSnapshot → Text
hashed_bytes [] = []
hashed_bytes (f ∷ files) = f.path ++ (0 ∷ (f.content ++ (0 ∷ hashed_bytes files)))

unfoldable pub files_hash : Env → List FileSnapshot → Text
files_hash env files = env.sha256 (hashed_bytes (sort_by_path files))
