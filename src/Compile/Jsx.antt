-- ===== src/Compile/Jsx.antt =====
-- internal/compile/compile.go: jsxSanity. What stands before the index is kept reversed, for the
-- look-behind of jsxPosition. The loop reads one byte at a time: a tag's name and its end are found
-- by looking ahead, and the index moves on by one.
pub mod Grammar
use vibe_forge.Base.{
  ℕ, zero, suc, ◌+◌, ◌-◌, Bool, true, false, ◌&&◌, not, Option, none, some, List, [], ◌∷◌, ◌++◌,
  Text, codes, text_eq, length, ◌==◌, if◌then◌else◌,
}
use vibe_forge.Nesting.{Token, open_with, close_of, plain}
use vibe_forge.Compile.Lexical.{newline, is_name_start, span_name, jsx_position, is_type_name}
use vibe_forge.Compile.Report.{
  CompileError, error_at, Frame, Outcome, stop, go_on, and_then, next_line,
}
use vibe_forge.Compile.Strip.{strip_strings_and_comments}

abbrev pub drop : ℕ → Text → Text
drop zero s = s
drop (suc n) [] = []
drop (suc n) (c ∷ s) = drop n s

abbrev last_or : ℕ → Text → ℕ
last_or c [] = c
last_or c (d ∷ s) = last_or d s

abbrev next_depth : ℕ → ℕ → ℕ
next_depth c depth = if c == b'{' then depth + 1 else if c == b'}' then depth - 1 else depth

-- The scan for the tag's `>`: whether it is found and stands behind a `/`.
unfoldable pub self_closes : ℕ → ℕ → Text → Bool
self_closes before depth [] = false
self_closes before depth (c ∷ s) =
    let more = self_closes c (next_depth c depth) s in
    if c == b'>' && depth == 0 then before == b'/' else more

abbrev close_token : Text → Token Text
close_token [] = plain
close_token (c ∷ name) = close_of (c ∷ name)

abbrev open_token : Text → Text → Token Text
open_token [] rest = plain
open_token (c ∷ name) rest =
    if is_type_name (c ∷ name)
    then plain
    else if self_closes (last_or c name) 0 (drop (length (c ∷ name)) rest)
    then plain
    else open_with (c ∷ name)

abbrev starts_name : Text → Bool
starts_name [] = false
starts_name (c ∷ rest) = is_name_start c

abbrev slash_then : Text → Option Text
slash_then [] = none
slash_then (c ∷ rest) = if c == b'/' then some rest else none

-- What the byte `c` between `before` and `rest` opens or closes; `plain` is the source's `continue`
-- without a change of the stack, a self-closing tag included.
unfoldable pub jsx_token : Text → ℕ → Text → Token Text
unfolding span_name is_name_start jsx_position is_type_name self_closes
jsx_token before c rest =
    if c == b'<'
    then elim (slash_then rest) [
      | some rest' ↦ close_token (span_name rest')
      | none ↦
          if starts_name rest && jsx_position before
          then open_token (span_name rest) rest
          else plain
    ]
    else plain

abbrev pub Tags : Type 0
Tags = List (Frame Text)

abbrev pub pop_tag : ℕ → Tags → Text → Outcome Tags
pop_tag n [] name = stop (error_at n (codes "unexpected closing tag </" ++ name ++ codes ">"))
pop_tag n (top ∷ stack) name =
    if text_eq top.name name
    then go_on stack
    else stop (
        error_at n (
          codes "mismatched JSX tag </"
          ++ name
          ++ codes "> (expected </"
          ++ top.name
          ++ codes ">)"))

unfoldable pub tag_step : ℕ → Tags → Token Text → Outcome Tags
tag_step n stack plain = go_on stack
tag_step n stack (open_with name) = go_on (record { name = name; line = n } ∷ stack)
tag_step n stack (close_of name) = pop_tag n stack name

abbrev unclosed : Tags → Option CompileError
unclosed [] = none
unclosed (top ∷ stack) =
    some (error_at top.line (codes "unclosed JSX tag <" ++ top.name ++ codes ">"))

unfoldable pub jsx_loop : ℕ → Tags → Text → Text → Option CompileError
jsx_loop n stack before [] = unclosed stack
jsx_loop n stack before (c ∷ rest) =
    and_then (tag_step (next_line n c) stack (jsx_token before c rest))
      λ stack'. jsx_loop (next_line n c) stack' (c ∷ before) rest

unfoldable pub jsx_sanity : Text → Option CompileError
unfolding jsx_loop jsx_token tag_step
jsx_sanity src = jsx_loop 1 [] [] (strip_strings_and_comments src)
