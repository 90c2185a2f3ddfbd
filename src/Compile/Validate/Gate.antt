-- ===== src/Compile/Validate/Gate.antt =====
-- The gate as a whole: what a content must be to pass.
use vibe_forge.Base.{
  List, ap, subst, sym, ◌∙◌, ◌≤◌, ◌≡◌, ◌↔◌, ◌⊎◌, inl, inr, true, false, none, [], Text, codes,
  length, All, contains, contains_iff, Occurs, leb, leb_iff, Bool-cases, arith,
}
use vibe_forge.Nesting.{Balanced}
use vibe_forge.Contract.{file_content_max_bytes}
use vibe_forge.Compile.Strip.{strip_strings_and_comments}
use vibe_forge.Compile.Strip.Pieces.{Piece, End, Fits, sources, blanks, strip-blanks}
use vibe_forge.Compile.Strip.Pieces.Reading.{read_pieces}
use vibe_forge.Compile.Braces.{brace_balance}
use vibe_forge.Compile.Braces.Grammar.{tokens_of, brace_balance_iff}
use vibe_forge.Compile.Jsx.{jsx_sanity}
use vibe_forge.Compile.Jsx.Grammar.{tags_of, jsx_sanity_iff}
use vibe_forge.Compile.Forbidden.{forbidden_in_code}
use vibe_forge.Compile.Forbidden.Cases.{OccursInAnyCase}
use vibe_forge.Compile.Forbidden.Patterns.{live_patterns, live_patterns_iff}
use vibe_forge.Compile.Validate.{blank_from, has_default_export, validate}

-- What the gate asks of a content, with the code that is left of it outside strings and comments.
pub record Compiles (app_tsx outside : Text) : Type 0 where
  pub fits : length app_tsx ≤ file_content_max_bytes
  pub is_not_blank : blank_from 0 app_tsx ≡ false
  pub is_allowed : All (λ p. ¬ OccursInAnyCase p app_tsx) live_patterns
  pub has_export : Occurs (codes "exportdefault") outside ⊎ Occurs (codes "export default") outside
  pub delimiters : Balanced (tokens_of outside)
  pub tags : Balanced (tags_of [] outside)

-- The content is made of pieces, which fix what is outside: their comments, strings and templates are
-- blank there. Where a string may start is told by isStringStartPos, what is a tag by jsxPosition.
abbrev pub IsCompilable : Text → Type 0
IsCompilable app_tsx =
    (pieces : List Piece) × (end : End) × Fits [] pieces end
    × (app_tsx ≡ sources pieces end)
    × Compiles app_tsx (blanks pieces end)

-- The six tests.
record Tests (app_tsx : Text) : Type 0 where
  size : leb (length app_tsx) file_content_max_bytes ≡ true
  blank : blank_from 0 app_tsx ≡ false
  forbidden : forbidden_in_code app_tsx ≡ none
  exported : has_default_export app_tsx ≡ true
  braces : brace_balance app_tsx ≡ none
  jsx : jsx_sanity app_tsx ≡ none

module _ (app_tsx : Text) where
  passed : (validate app_tsx).pass ≡ true → Tests app_tsx
  unfolding validate
  passed h = ground arith

  passing : Tests app_tsx → (validate app_tsx).pass ≡ true
  unfolding validate
  passing t = ground arith

  export_iff : (has_default_export app_tsx ≡ true) ↔ (
      Occurs (codes "exportdefault") (strip_strings_and_comments app_tsx)
      ⊎ Occurs (codes "export default") (strip_strings_and_comments app_tsx))
  unfolding has_default_export
  export_iff = (
    λ h. elim (Bool-cases (contains stripped (codes "exportdefault"))) [
      | inl joined ↦ inl ((contains_iff stripped (codes "exportdefault")).0 joined)
      | inr apart ↦ inr ((contains_iff stripped (codes "export default")).0 (ground arith))
    ],
    elim [
      | inl joined ↦ ground (arith, (contains_iff stripped (codes "exportdefault")).1 joined)
      | inr apart ↦ ground (arith, (contains_iff stripped (codes "export default")).1 apart)
    ],
  )
    where
      stripped : Text
      stripped = strip_strings_and_comments app_tsx

stripped_iff :
    (app_tsx : Text)
    → ((validate app_tsx).pass ≡ true) ↔ Compiles app_tsx (strip_strings_and_comments app_tsx)
stripped_iff app_tsx = (
  λ h.
      let t = passed app_tsx h in
      record {
        fits = (leb_iff _ _).0 t.size;
        is_not_blank = t.blank;
        is_allowed = (live_patterns_iff app_tsx).0 t.forbidden;
        has_export = (export_iff app_tsx).0 t.exported;
        delimiters = (brace_balance_iff app_tsx).0 t.braces;
        tags = (jsx_sanity_iff app_tsx).0 t.jsx;
      },
  λ c. passing app_tsx (record {
    size = (leb_iff _ _).1 c.fits;
    blank = c.is_not_blank;
    forbidden = (live_patterns_iff app_tsx).1 c.is_allowed;
    exported = (export_iff app_tsx).1 c.has_export;
    braces = (brace_balance_iff app_tsx).1 c.delimiters;
    jsx = (jsx_sanity_iff app_tsx).1 c.tags;
  }),
)

outside_is :
    (app_tsx : Text) (pieces : List Piece) (end : End)
    → Fits [] pieces end
    → app_tsx ≡ sources pieces end
    → strip_strings_and_comments app_tsx ≡ blanks pieces end
outside_is app_tsx pieces end fit same =
    ap strip_strings_and_comments same ∙ strip-blanks pieces end fit

-- The gate passes a content exactly when the content fits the size limit, is not blank, holds none of
-- the patterns (`spawnSync` left out) in whatever case, and is made of code, comments, strings and
-- templates such that the code has a default export, balanced delimiters, and balanced tags.
pub validate_pass_iff : (app_tsx : Text) → ((validate app_tsx).pass ≡ true) ↔ IsCompilable app_tsx
validate_pass_iff app_tsx = (
  λ h.
      let (pieces, end, fit, same) = read_pieces app_tsx in
      (
        pieces,
        end,
        fit,
        same,
        subst (Compiles app_tsx) (outside_is app_tsx pieces end fit same)
            ((stripped_iff app_tsx).0 h),
      ),
  λ (pieces, end, fit, same, c).
      (stripped_iff app_tsx).1
        (subst (Compiles app_tsx) (sym (outside_is app_tsx pieces end fit same)) c),
)
