-- ===== src/Compile/Braces/Grammar.antt =====
-- braceBalance and the grammar of balanced delimiters.
use vibe_forge.Base.{
  ℕ, ◌+◌, ◌≡◌, ◌↔◌, refl, none, some, List, [], ◌∷◌, Text, arith, ◌==◌, ==_iff, if◌then◌else◌,
}
use vibe_forge.Nesting.{Token, open_with, close_of, plain, Balanced, accepts, accepts_iff}
use vibe_forge.Compile.Report.{Frame, passes, names}
use vibe_forge.Compile.Strip.{strip_strings_and_comments}
use vibe_forge.Compile.Braces.{is_open, pair_of, balance_loop, brace_balance}

abbrev pub delimiter_token : ℕ → Token ℕ
delimiter_token c =
    if is_open c then open_with c else elim (pair_of c) [ none ↦ plain | some want ↦ close_of want ]

abbrev pub tokens_of : Text → List (Token ℕ)
tokens_of [] = []
tokens_of (c ∷ s) = delimiter_token c ∷ tokens_of s

loop_accepts :
    (n : ℕ) (stack : List (Frame ℕ)) (s : Text)
    → passes (balance_loop n stack s) ≡ accepts ◌==◌ (names stack) (tokens_of s)
unfolding balance_loop accepts
loop_accepts n [] [] = refl
loop_accepts n (f ∷ stack) [] = refl
loop_accepts n [] (c ∷ s) = ground (
  arith,
  loop_accepts (n + 1) [] s,
  loop_accepts n [] s,
  loop_accepts n (record { name = c; line = n } ∷ []) s,
)
loop_accepts n (f ∷ stack) (c ∷ s) = ground (
  arith,
  loop_accepts (n + 1) (f ∷ stack) s,
  loop_accepts n (f ∷ stack) s,
  loop_accepts n stack s,
  loop_accepts n (record { name = c; line = n } ∷ f ∷ stack) s,
)

-- The check reports no error exactly when the delimiters of the stripped text are balanced: every
-- closing one matches the nearest open one, and none is left open.
pub brace_balance_iff :
    (src : Text)
    → (brace_balance src ≡ none) ↔ Balanced (tokens_of (strip_strings_and_comments src))
unfolding brace_balance
brace_balance_iff src =
    let accepted = loop_accepts 1 [] (strip_strings_and_comments src) in
    let grammar =
      accepts_iff ◌==◌ (λ a b. (==_iff a b).0) (λ a. (==_iff a a).1 refl)
        (tokens_of (strip_strings_and_comments src)) in
    (λ e. grammar.0 (ground arith), λ b. ground (arith, grammar.1 b))
