-- ===== src/Store/Projects/Title.antt =====
-- The title that a prompt gives (`deriveTitle` of internal/store/project.go).
use vibe_forge.Base.{
  ℕ, zero, suc, ◌≤◌, [], ◌∷◌, Text, arith, length, length-append, leb, Bool-cases, inl, inr, trim,
  is_unicode_space,
}
use vibe_forge.Store.Projects.{derive_title, shorten, take, first_line}

take-length : (n : ℕ) (s : Text) → length (take n s) ≤ n
take-length zero s = omega arith
take-length (suc n) [] = omega arith
take-length (suc n) (c ∷ s) = omega (arith, take-length n s)

shorten-length : (line : Text) → length (shorten line) ≤ 61
unfolding shorten
shorten-length line = elim (Bool-cases (leb (length line) 60)) [
  | inl t ↦ rw (t) (ground arith)
  | inr f ↦ rw (f) (omega (arith, take-length 60 line, length-append (take 60 line) (0x2026 ∷ [])))
]

-- A title has at most 60 code points and the ellipsis, whatever the prompt.
pub derive_title-length : (prompt : Text) → length (derive_title prompt) ≤ 61
unfolding derive_title
derive_title-length prompt =
    shorten-length (trim is_unicode_space (first_line (trim is_unicode_space prompt)))
