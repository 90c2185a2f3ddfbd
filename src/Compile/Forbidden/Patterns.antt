-- ===== src/Compile/Forbidden/Patterns.antt =====
-- ForbiddenInCode of internal/compile/compile.go against a search for each pattern.
use vibe_forge.Base.{
  ℕ, zero, suc, ◌≡◌, ◌↔◌, refl, Bool, true, false, ltb, ◌&&◌, none, List, [], ◌∷◌, ◌++◌, Text, All,
  codes, arith, any, any-append, ap, ◌==◌, contains, contains_iff, Occurs, Bool-cases, inl, inr,
}
use vibe_forge.Compile.Forbidden.Cases.{OccursInAnyCase, IsAscii, IsPattern}
use vibe_forge.Compile.Forbidden.Cases.Lower.{to_lower-Occurs}
use vibe_forge.Compile.Forbidden.{
  drop, to_lower, spawn_sync, forbidden_code_patterns, first_pattern, forbidden_in_code,
}

first_pattern_iff :
    (lower : Text) (patterns : List Text)
    → (first_pattern lower patterns ≡ none) ↔ All (λ p. ¬ Occurs p lower) patterns
unfolding first_pattern
first_pattern_iff lower [] = (λ h. tt, λ h. refl)
first_pattern_iff lower (pat ∷ patterns) = elim (Bool-cases (contains lower pat)) [
  | inl hit ↦
      (λ e. absurd (ground arith), λ absent. absurd (absent.0 ((contains_iff lower pat).0 hit)))
  | inr miss ↦ (
    λ e. (
      λ o. cc (miss, (contains_iff lower pat).1 o),
      (first_pattern_iff lower patterns).0 (ground arith),
    ),
    λ absent. ground (arith, miss, (first_pattern_iff lower patterns).1 absent.1),
  )
]

-- A content is let through exactly when none of the patterns stands in its lower case.
forbidden_in_code_iff :
    (content : Text)
    → (forbidden_in_code content ≡ none)
      ↔ All (λ p. ¬ Occurs p (to_lower content)) forbidden_code_patterns
unfolding forbidden_in_code
forbidden_in_code_iff content = first_pattern_iff (to_lower content) forbidden_code_patterns

abbrev is_upper_s : ℕ → Bool
is_upper_s c = c == b'S'

no_upper-drop : (n : ℕ) (s : Text) → any is_upper_s s ≡ false → any is_upper_s (drop n s) ≡ false
no_upper-drop zero s h = h
no_upper-drop (suc n) [] h = refl
no_upper-drop (suc n) (c ∷ s) h = no_upper-drop n s (ground arith)

to_lower_no_upper : (s : Text) → any is_upper_s (to_lower s) ≡ false
unfolding to_lower
to_lower_no_upper [] = refl
to_lower_no_upper (c ∷ s) = ground (
  arith,
  to_lower_no_upper s,
  no_upper-drop 1 (to_lower s) (to_lower_no_upper s),
  no_upper-drop 2 (to_lower s) (to_lower_no_upper s),
)

-- The lower case of a content never holds the pattern `spawnSync`, which has an upper-case letter.
spawn_sync_never-Occurs : (content : Text) → ¬ Occurs spawn_sync (to_lower content)
spawn_sync_never-Occurs content o =
    let middle = any-append is_upper_s (o.0 ++ spawn_sync) o.1 in
    let tail = any-append is_upper_s o.0 spawn_sync in
    let whole = ap (any is_upper_s) o.2 in
    ground (arith, to_lower_no_upper content, middle, tail, whole)

-- The patterns but `spawnSync`.
abbrev pub live_patterns : List Text
live_patterns =
    codes "child_process"
    ∷ codes "execsync"
    ∷ codes "require('fs')"
    ∷ codes "require(\"fs\")"
    ∷ codes "npm install"
    ∷ codes "npx "
    ∷ codes "yarn add"
    ∷ codes "pnpm add"
    ∷ codes "import fs"
    ∷ codes "process.env"
    ∷ []

live_patterns_iff_lower :
    (content : Text)
    → (forbidden_in_code content ≡ none) ↔ All (λ p. ¬ Occurs p (to_lower content)) live_patterns
live_patterns_iff_lower content = (
  λ e. let all = (forbidden_in_code_iff content).0 e in (all.0, (all.1.0, all.1.1.1)),
  λ absent.
      (forbidden_in_code_iff content).1
        (absent.0, (absent.1.0, (spawn_sync_never-Occurs content, absent.1.1))),
)

abbrev all_ascii : Text → Bool
all_ascii [] = true
all_ascii (c ∷ s) = ltb c 128 && all_ascii s

all_ascii-IsAscii : (s : Text) → all_ascii s ≡ true → IsAscii s
all_ascii-IsAscii [] h = tt
all_ascii-IsAscii (c ∷ s) h = (ground arith, all_ascii-IsAscii s (ground arith))

abbrev is_pattern : Text → Bool
is_pattern [] = false
is_pattern (c ∷ p) = all_ascii (c ∷ p)

abbrev are_patterns : List Text → Bool
are_patterns [] = true
are_patterns (p ∷ patterns) = is_pattern p && are_patterns patterns

is_pattern-IsPattern : (p : Text) → is_pattern p ≡ true → IsPattern p
is_pattern-IsPattern [] h = absurd (ground arith)
is_pattern-IsPattern (c ∷ p) h = all_ascii-IsAscii (c ∷ p) h

-- The lower case of a content holds none of some patterns exactly when the content holds none of them
-- in whatever case.
to_lower-All :
    (content : Text) (patterns : List Text)
    → are_patterns patterns ≡ true
    → All (λ p. ¬ Occurs p (to_lower content)) patterns
      ↔ All (λ p. ¬ OccursInAnyCase p content) patterns
to_lower-All content [] h = (λ a. a, λ a. a)
to_lower-All content (p ∷ patterns) h =
    let same = to_lower-Occurs p content (is_pattern-IsPattern p (ground arith)) in
    let rest = to_lower-All content patterns (ground arith) in
    (λ a. (λ o. a.0 (same.1 o), rest.0 a.1), λ a. (λ o. a.0 (same.0 o), rest.1 a.1))

-- A content is let through exactly when none of these ten patterns stands in it, in whatever case. The
-- eleventh pattern of the code, `spawnSync`, is looked for in the lower case of the content, where it
-- never stands: a content that calls spawnSync and holds none of the ten passes.
pub live_patterns_iff :
    (content : Text)
    → (forbidden_in_code content ≡ none) ↔ All (λ p. ¬ OccursInAnyCase p content) live_patterns
live_patterns_iff content =
    let lower = live_patterns_iff_lower content in
    let cases = to_lower-All content live_patterns refl in
    (λ e. cases.0 (lower.0 e), λ absent. lower.1 (cases.1 absent))
