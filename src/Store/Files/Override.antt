-- ===== src/Store/Files/Override.antt =====
-- The snapshot that a manual edit writes (`applyOverride` of internal/store/files.go).
use vibe_forge.Base.{
  ◌≡◌, Bool, true, false, Option, some, List, [], ◌∷◌, Text, arith, text_eq, text_eq_refl,
  text_eq_sound,
}
use vibe_forge.Store.Model.{FileSnapshot}
use vibe_forge.Store.Table.{first_where}
use vibe_forge.Store.Files.{apply_override}

-- The file that a snapshot has at a path.
abbrev pub file_at : Text → List FileSnapshot → Option FileSnapshot
file_at path files = first_where (λ (f : FileSnapshot). text_eq f.path path) files

override-here :
    (path content : Text) (readonly : Bool) (files : List FileSnapshot)
    → file_at path (apply_override files path content readonly)
      ≡ some (record { path = path; content = content; readonly = readonly })
unfolding first_where apply_override
override-here path content readonly [] = ground (arith, text_eq_refl path)
override-here path content readonly (f ∷ files) =
    ground (arith, text_eq_refl path, override-here path content readonly files)

apart : (p q r : Text) → text_eq p q ≡ true → text_eq q r ≡ false → text_eq p r ≡ false
apart p q r e f = ground (arith, text_eq_sound p q e)

override-apart :
    (path content : Text) (readonly : Bool) (files : List FileSnapshot) (other : Text)
    → text_eq path other ≡ false
    → file_at other (apply_override files path content readonly) ≡ file_at other files
unfolding first_where apply_override
override-apart path content readonly [] other d = ground arith
override-apart path content readonly (f ∷ files) other d =
    ground (arith, apart f.path path other, override-apart path content readonly files other d)

-- Overriding a path puts the new content there, and every other path keeps its file, or stays
-- without one.
pub apply_override-lookup :
    (files : List FileSnapshot) (path content : Text) (readonly : Bool)
    → (file_at path (apply_override files path content readonly)
        ≡ some (record { path = path; content = content; readonly = readonly }))
      × ((other : Text)
          → text_eq path other ≡ false
          → file_at other (apply_override files path content readonly) ≡ file_at other files)
apply_override-lookup files path content readonly =
    (override-here path content readonly files, override-apart path content readonly files)
