-- ===== src/Compile/Tests.antt =====
-- internal/compile: runs of the gate on small files, and instances of its theorems.
use vibe_forge.Base.{
  ℕ, true, false, none, ◌≡◌, ◌↔◌, inl, inr, refl, Text, [], ◌∷◌, codes, contains, All, Occurs, ◌++◌,
}
use vibe_forge.Compile.Validate.{blank_from, validate, has_default_export}
use vibe_forge.Compile.Validate.Gate.{IsCompilable, validate_pass_iff}
use vibe_forge.Compile.Braces.{brace_balance}
use vibe_forge.Compile.Braces.Grammar.{tokens_of, brace_balance_iff}
use vibe_forge.Compile.Jsx.{jsx_sanity}
use vibe_forge.Compile.Strip.{strip_strings_and_comments}
use vibe_forge.Base.{List}
use vibe_forge.Compile.Strip.Pieces.{Letter, Piece, End, Fits, sources, blanks, strip-blanks}
use vibe_forge.Compile.Lexical.{newline, is_string_start_pos, jsx_position}
use vibe_forge.Compile.Forbidden.{to_lower, forbidden_in_code}
use vibe_forge.Compile.Forbidden.Cases.{OccursInAnyCase}
use vibe_forge.Compile.Forbidden.Patterns.{live_patterns, live_patterns_iff}
use vibe_forge.Nesting.{Balanced}

abbrev counter_app : Text
counter_app =
    codes
      "export default function App() { const xs: Array<string> = [\"a)\"]; return <div onClick={() => 1}>it's {xs} <Foo a={1} /></div>; }"

counter_app_passes : (validate counter_app).pass ≡ true
unfolding validate blank_from to_lower strip_strings_and_comments brace_balance jsx_sanity
    is_string_start_pos jsx_position forbidden_in_code vibe_forge.Base.contains
    vibe_forge.Compile.Validate.has_default_export
counter_app_passes = refl

validate_pass_iff_example : ((validate counter_app).pass ≡ true) ↔ IsCompilable counter_app
validate_pass_iff_example = validate_pass_iff counter_app

abbrev open_paren : Text
open_paren = codes "f(\"(\" // )"

brace_balance_iff_example :
    (brace_balance open_paren ≡ none) ↔ Balanced (tokens_of (strip_strings_and_comments open_paren))
brace_balance_iff_example = brace_balance_iff open_paren

abbrev nested : Text
nested = codes "<a><b /></a>"

abbrev two_lines : Text
two_lines = codes "x = 'a" ++ newline ∷ codes "' // b"

abbrev fetching : Text
fetching = codes "Fetch('/x')"

live_patterns_iff_example :
    (forbidden_in_code fetching ≡ none) ↔ All (λ p. ¬ OccursInAnyCase p fetching) live_patterns
live_patterns_iff_example = live_patterns_iff fetching

-- A byte, a comment up to its line break, a comment up to its mark, a byte, and a template that is not
-- closed.
abbrev commented : List Piece
commented =
    Piece.plain b'a'
    ∷ Piece.line_comment (codes "(\"")
    ∷ Piece.block_comment (codes ")")
    ∷ Piece.plain b'b'
    ∷ []

abbrev left_open : End
left_open = End.open_template (Letter.byte b'{' ∷ Letter.behind_backslash b'`' ∷ []) false

commented-Fits : Fits [] commented left_open
commented-Fits = (refl, ((refl, (refl, tt)), (refl, (refl, ((refl, refl), (tt, tt))))))

strip-blanks_example :
    strip_strings_and_comments (sources commented left_open) ≡ blanks commented left_open
strip-blanks_example = strip-blanks commented left_open commented-Fits
