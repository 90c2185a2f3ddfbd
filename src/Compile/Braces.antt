-- ===== src/Compile/Braces.antt =====
-- internal/compile/compile.go: braceBalance and matchClose.
pub mod Grammar
use vibe_forge.Base.{
  ℕ, ◌+◌, Bool, true, false, ◌||◌, Option, none, some, List, [], ◌∷◌, ◌++◌, Text, codes, ◌==◌,
  if◌then◌else◌,
}
use vibe_forge.Compile.Lexical.{newline}
use vibe_forge.Compile.Report.{CompileError, error_at, Frame, Outcome, stop, go_on, and_then}
use vibe_forge.Compile.Strip.{strip_strings_and_comments}

abbrev pub is_open : ℕ → Bool
is_open c = c == b'(' || c == b'{' || c == b'['

-- The map `pairs`: the opening delimiter that a closing one wants.
abbrev pub pair_of : ℕ → Option ℕ
pair_of c =
    if c == b')'
    then some b'('
    else if c == b'}'
    then some b'{'
    else if c == b']'
    then some b'['
    else none

unfoldable pub match_close : ℕ → ℕ
match_close c =
    if c == b'(' then b')' else if c == b'{' then b'}' else if c == b'[' then b']' else c

-- The variables of the loop: `line` and `stack`.
abbrev pub Scan : Type 0
Scan = ℕ × List (Frame ℕ)

-- A closing delimiter against the top of the stack.
abbrev pub pop_delimiter : ℕ → List (Frame ℕ) → ℕ → ℕ → Outcome Scan
pop_delimiter n [] c want = stop (error_at n (codes "unexpected closing '" ++ c ∷ codes "'"))
pop_delimiter n (top ∷ stack) c want =
    if top.name == want
    then go_on (n, stack)
    else stop (
        error_at n
          (codes "mismatched '" ++ c ∷ codes "' (expected '" ++ match_close top.name ∷ codes "')"))

-- The body of the loop.
unfoldable pub delimiter_step : ℕ → List (Frame ℕ) → ℕ → Outcome Scan
unfolding match_close
delimiter_step n stack c =
    if c == newline
    then go_on (n + 1, stack)
    else if is_open c
    then go_on (n, record { name = c; line = n } ∷ stack)
    else elim (pair_of c) [ none ↦ go_on (n, stack) | some want ↦ pop_delimiter n stack c want ]

abbrev unclosed : List (Frame ℕ) → Option CompileError
unclosed [] = none
unclosed (top ∷ stack) = some (error_at top.line (codes "unclosed '" ++ top.name ∷ codes "'"))

unfoldable pub balance_loop : ℕ → List (Frame ℕ) → Text → Option CompileError
unfolding delimiter_step
balance_loop n stack [] = unclosed stack
balance_loop n stack (c ∷ s) =
    and_then (delimiter_step n stack c) λ (n', stack'). balance_loop n' stack' s

-- `none` is the source's `true`: no error.
unfoldable pub brace_balance : Text → Option CompileError
unfolding balance_loop
brace_balance src = balance_loop 1 [] (strip_strings_and_comments src)
