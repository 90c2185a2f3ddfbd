-- ===== src/Compile/Jsx/Grammar.antt =====
-- jsxSanity and the grammar of balanced tags.
use vibe_forge.Base.{
  ℕ, ◌≡◌, ◌↔◌, refl, Option, none, List, [], ◌∷◌, Text, arith, text_eq, text_eq_sound, text_eq_refl,
}
use vibe_forge.Nesting.{Token, open_with, close_of, plain, Balanced, accepts, accepts_iff}
use vibe_forge.Compile.Report.{CompileError, and_then, next_line, passes, names}
use vibe_forge.Compile.Strip.{strip_strings_and_comments}
use vibe_forge.Compile.Jsx.{Tags, jsx_token, tag_step, jsx_loop, jsx_sanity}

-- The tags of a text, byte by byte.
abbrev pub tags_of : Text → Text → List (Token Text)
tags_of before [] = []
tags_of before (c ∷ rest) = jsx_token before c rest ∷ tags_of (c ∷ before) rest

-- One token, where the rest of the text is scanned as the matcher reads its tokens.
step_accepts :
    (n : ℕ) (stack : Tags) (t : Token Text) (k : Tags → Option CompileError)
    (ts : List (Token Text))
    → ((stack' : Tags) → passes (k stack') ≡ accepts text_eq (names stack') ts)
    → passes (and_then (tag_step n stack t) k) ≡ accepts text_eq (names stack) (t ∷ ts)
unfolding tag_step accepts
step_accepts n [] plain k ts h = h []
step_accepts n (f ∷ stack) plain k ts h = h (f ∷ stack)
step_accepts n [] (open_with name) k ts h = h (record { name = name; line = n } ∷ [])
step_accepts n (f ∷ stack) (open_with name) k ts h =
    h (record { name = name; line = n } ∷ f ∷ stack)
step_accepts n [] (close_of name) k ts h = refl
step_accepts n (f ∷ stack) (close_of name) k ts h = ground (arith, h stack)

loop_accepts :
    (n : ℕ) (stack : Tags) (before s : Text)
    → passes (jsx_loop n stack before s) ≡ accepts text_eq (names stack) (tags_of before s)
unfolding jsx_loop accepts
loop_accepts n [] before [] = refl
loop_accepts n (f ∷ stack) before [] = refl
loop_accepts n stack before (c ∷ rest) =
    step_accepts (next_line n c) stack (jsx_token before c rest)
      (λ stack'. jsx_loop (next_line n c) stack' (c ∷ before) rest) (tags_of (c ∷ before) rest)
      λ stack'. loop_accepts (next_line n c) stack' (c ∷ before) rest

pub jsx_sanity_iff :
    (src : Text) → (jsx_sanity src ≡ none) ↔ Balanced (tags_of [] (strip_strings_and_comments src))
unfolding jsx_sanity
jsx_sanity_iff src =
    let accepted = loop_accepts 1 [] [] (strip_strings_and_comments src) in
    let grammar =
      accepts_iff text_eq text_eq_sound text_eq_refl
        (tags_of [] (strip_strings_and_comments src)) in
    (λ e. grammar.0 (ground arith), λ b. ground (arith, grammar.1 b))
