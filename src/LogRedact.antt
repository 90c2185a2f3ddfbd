-- ===== src/LogRedact.antt =====
-- internal/logredact/logredact.go: the logger that takes secrets out of its lines. A line is what
-- fmt.Sprintf has formatted.
pub mod Hides
mod Tests
use vibe_forge.Base.{
  ℕ, zero, suc, ◌-◌, Bool, List, [], ◌∷◌, ◌++◌, Text, codes, length, starts_with, if◌then◌else◌,
}

abbrev pub redaction_marker : Text
redaction_marker = codes "[REDACTED]"

-- The live secrets that New keeps.
unfoldable pub new_logger : List Text → List Text
new_logger [] = []
new_logger ([] ∷ secrets) = new_logger secrets
new_logger ((c ∷ s) ∷ secrets) = (c ∷ s) ∷ new_logger secrets

module _ (old new : Text) where
  -- The bytes of an occurrence are passed over behind its replacement.
  unfoldable pub replace_behind : ℕ → Text → Text
  replace_behind passed [] = []
  replace_behind (suc passed) (c ∷ s) = replace_behind passed s
  replace_behind zero (c ∷ s) =
      let found = replace_behind (length old - 1) s in
      let kept = replace_behind zero s in if starts_with old (c ∷ s) then new ++ found else c ∷ kept

  -- strings.ReplaceAll, for a text that is not empty.
  abbrev pub replace_all : Text → Text
  replace_all line = replace_behind zero line

-- The line that Printf writes, without its line break.
unfoldable pub printf_line : List Text → Text → Text
printf_line [] line = line
printf_line ([] ∷ secrets) line = printf_line secrets line
printf_line ((c ∷ s) ∷ secrets) line =
    printf_line secrets (replace_all (c ∷ s) redaction_marker line)
