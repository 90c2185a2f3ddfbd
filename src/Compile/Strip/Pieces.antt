-- ===== src/Compile/Strip/Pieces.antt =====
-- Sources as pieces: what stripStringsAndComments of internal/compile/compile.go makes of comments,
-- strings and templates, as a description that reads no byte twice.
pub mod Reading
use vibe_forge.Base.{
  ◌∙◌, ℕ, ◌≡◌, ◌≢◌, ◌⊎◌, inl, inr, refl, ap, Bool, true, false, ◌&&◌, ◌||◌, not, List, [], ◌∷◌,
  ◌++◌, Text, All, arith, ◌==◌, append_assoc, if◌then◌else◌,
}
use vibe_forge.Compile.Lexical.{newline, space, is_string_start_pos}
use vibe_forge.Compile.Strip.{
  Mode, code, line, block_open, block, block_close, quoted, escaped, template, template_escaped,
  next_is, strip_byte, strip_from, strip_strings_and_comments,
}

-- A byte of a string, or a backslash with the byte behind it.
pub data Letter : Type 0 where
  byte behind_backslash : ℕ → Letter

-- A byte of code; a comment up to its line break, or up to its mark; a string with its quote and the
-- quote or line break that ends it; a template.
pub data Piece : Type 0 where
  plain : ℕ → Piece
  line_comment block_comment : Text → Piece
  string : ℕ → List Letter → ℕ → Piece
  template_string : List Letter → Piece

abbrev kept : ℕ → ℕ
kept c = if c == newline then newline else space

abbrev to_line_break : Text → Text
to_line_break [] = newline ∷ []
to_line_break (c ∷ body) = c ∷ to_line_break body

abbrev blank_to_line_break : Text → Text
blank_to_line_break [] = newline ∷ []
blank_to_line_break (c ∷ body) = space ∷ blank_to_line_break body

abbrev to_mark : Text → Text
to_mark [] = b'*' ∷ b'/' ∷ []
to_mark (c ∷ body) = c ∷ to_mark body

abbrev blank_to_mark : Text → Text
blank_to_mark [] = space ∷ space ∷ []
blank_to_mark (c ∷ body) = kept c ∷ blank_to_mark body

abbrev letters : List Letter → ℕ → Text
letters [] stop = stop ∷ []
letters (byte c ∷ ls) stop = c ∷ letters ls stop
letters (behind_backslash c ∷ ls) stop = 92 ∷ c ∷ letters ls stop

abbrev blank_string : List Letter → ℕ → Text
blank_string [] stop = kept stop ∷ []
blank_string (byte c ∷ ls) stop = space ∷ blank_string ls stop
blank_string (behind_backslash c ∷ ls) stop = space ∷ space ∷ blank_string ls stop

abbrev blank_template : List Letter → Text
blank_template [] = space ∷ []
blank_template (byte c ∷ ls) = kept c ∷ blank_template ls
blank_template (behind_backslash c ∷ ls) = space ∷ space ∷ blank_template ls

-- The bytes of a piece, and what is to stand in their place.
abbrev source : Piece → Text
source (plain c) = c ∷ []
source (line_comment body) = b'/' ∷ b'/' ∷ to_line_break body
source (block_comment body) = b'/' ∷ b'*' ∷ to_mark body
source (string q ls stop) = q ∷ letters ls stop
source (template_string ls) = b'`' ∷ letters ls b'`'

abbrev blanked : Piece → Text
blanked (plain c) = c ∷ []
blanked (line_comment body) = space ∷ space ∷ blank_to_line_break body
blanked (block_comment body) = space ∷ space ∷ blank_to_mark body
blanked (string q ls stop) = space ∷ blank_string ls stop
blanked (template_string ls) = space ∷ blank_template ls

-- How a source ends: with nothing open, or in a comment, a string or a template; the flag says whether
-- a lone backslash stands last.
pub data End : Type 0 where
  closed : End
  open_line open_block : Text → End
  open_string : ℕ → List Letter → Bool → End
  open_template : List Letter → Bool → End

abbrev open_letters : List Letter → Bool → Text
open_letters [] true = 92 ∷ []
open_letters [] false = []
open_letters (byte c ∷ ls) lone = c ∷ open_letters ls lone
open_letters (behind_backslash c ∷ ls) lone = 92 ∷ c ∷ open_letters ls lone

abbrev spaces : Text → Text
spaces [] = []
spaces (c ∷ s) = space ∷ spaces s

abbrev kept_breaks : Text → Text
kept_breaks [] = []
kept_breaks (c ∷ s) = kept c ∷ kept_breaks s

abbrev blank_open_template : List Letter → Bool → Text
blank_open_template [] true = space ∷ []
blank_open_template [] false = []
blank_open_template (byte c ∷ ls) lone = kept c ∷ blank_open_template ls lone
blank_open_template (behind_backslash c ∷ ls) lone = space ∷ space ∷ blank_open_template ls lone

abbrev source_end : End → Text
source_end closed = []
source_end (open_line body) = b'/' ∷ b'/' ∷ body
source_end (open_block body) = b'/' ∷ b'*' ∷ body
source_end (open_string q ls lone) = q ∷ open_letters ls lone
source_end (open_template ls lone) = b'`' ∷ open_letters ls lone

abbrev blanked_end : End → Text
blanked_end closed = []
blanked_end (open_line body) = space ∷ space ∷ spaces body
blanked_end (open_block body) = space ∷ space ∷ kept_breaks body
blanked_end (open_string q ls lone) = space ∷ spaces (open_letters ls lone)
blanked_end (open_template ls lone) = space ∷ blank_open_template ls lone

abbrev pub sources : List Piece → End → Text
sources [] e = source_end e
sources (p ∷ ps) e = source p ++ sources ps e

abbrev pub blanks : List Piece → End → Text
blanks [] e = blanked_end e
blanks (p ∷ ps) e = blanked p ++ blanks ps e

-- The text behind `before`, whose last byte comes first.
abbrev rewritten : Text → Text → Text
rewritten [] before = before
rewritten (c ∷ out) before = rewritten out (c ∷ before)

abbrev is_quote : ℕ → Bool
is_quote c = c == b'"' || c == 39

-- The byte opens a comment, a string or a template.
abbrev opens : Text → ℕ → Text → Bool
opens before c rest =
    (c == b'/' && (next_is b'/' rest || next_is b'*' rest))
    || (is_quote c && is_string_start_pos before)
    || c == b'`'

abbrev has_no_mark : Text → Bool
has_no_mark [] = true
has_no_mark (c ∷ body) = not (c == b'*' && next_is b'/' body) && has_no_mark body

abbrev IsLetter : (ℕ → Bool) → Letter → Type 0
IsLetter ends (byte c) = (ends c ≡ false) × ((c == 92) ≡ false)
IsLetter ends (behind_backslash c) = Unit {0}

abbrev ends_string : ℕ → ℕ → Bool
ends_string q c = c == q || c == newline

abbrev FitsPiece : Text → Piece → Text → Type 0
FitsPiece before (plain c) rest = opens before c rest ≡ false
FitsPiece before (line_comment body) rest = All (λ c. (c == newline) ≡ false) body
FitsPiece before (block_comment body) rest = has_no_mark body ≡ true
FitsPiece before (string q ls stop) rest =
    (is_quote q ≡ true)
    × (is_string_start_pos before ≡ true)
    × (ends_string q stop ≡ true)
    × All (IsLetter (ends_string q)) ls
FitsPiece before (template_string ls) rest = All (IsLetter (λ c. c == b'`')) ls

abbrev FitsEnd : Text → End → Type 0
FitsEnd before closed = Unit {0}
FitsEnd before (open_line body) = All (λ c. (c == newline) ≡ false) body
FitsEnd before (open_block body) = has_no_mark body ≡ true
FitsEnd before (open_string q ls lone) =
    (is_quote q ≡ true) × (is_string_start_pos before ≡ true) × All (IsLetter (ends_string q)) ls
FitsEnd before (open_template ls lone) = All (IsLetter (λ c. c == b'`')) ls

-- Each piece ends where it says, in the source of them all.
abbrev pub Fits : Text → List Piece → End → Type 0
Fits before [] e = FitsEnd before e
Fits before (p ∷ ps) e =
    FitsPiece before p (sources ps e) × Fits (rewritten (blanked p) before) ps e

line-blanked :
    (body before rest : Text)
    → All (λ c. (c == newline) ≡ false) body
    → strip_from line before (to_line_break body ++ rest)
      ≡ blank_to_line_break body
        ++ strip_from code (rewritten (blank_to_line_break body) before) rest
unfolding strip_from strip_byte
line-blanked [] before rest h = refl
line-blanked (c ∷ body) before rest h =
    rw (h.0) (ap (λ t. space ∷ t) (line-blanked body (space ∷ before) rest h.1))

block-blanked :
    (body before rest : Text)
    → has_no_mark body ≡ true
    → strip_from block before (to_mark body ++ rest)
      ≡ blank_to_mark body ++ strip_from code (rewritten (blank_to_mark body) before) rest
unfolding strip_from strip_byte
block-blanked [] before rest h = refl
block-blanked (c ∷ []) before rest h = ground (arith, block-blanked [] (kept c ∷ before) rest refl)
block-blanked (c ∷ d ∷ body) before rest h =
    ground (arith, block-blanked (d ∷ body) (kept c ∷ before) rest)

string-blanked :
    (q : ℕ) (ls : List Letter) (stop : ℕ) (before rest : Text)
    → is_quote q ≡ true
    → ends_string q stop ≡ true
    → All (IsLetter (ends_string q)) ls
    → strip_from (quoted q) before (letters ls stop ++ rest)
      ≡ blank_string ls stop ++ strip_from code (rewritten (blank_string ls stop) before) rest
unfolding strip_from strip_byte
string-blanked q [] stop before rest is ends h = ground arith
string-blanked q (byte c ∷ ls) stop before rest is ends h =
    ground (arith, string-blanked q ls stop (space ∷ before) rest is ends h.1)
string-blanked q (behind_backslash c ∷ ls) stop before rest is ends h =
    ground (arith, string-blanked q ls stop (space ∷ space ∷ before) rest is ends h.1)

template-blanked :
    (ls : List Letter) (before rest : Text)
    → All (IsLetter (λ c. c == b'`')) ls
    → strip_from template before (letters ls b'`' ++ rest)
      ≡ blank_template ls ++ strip_from code (rewritten (blank_template ls) before) rest
unfolding strip_from strip_byte
template-blanked [] before rest h = refl
template-blanked (byte c ∷ ls) before rest h =
    ground (arith, template-blanked ls (kept c ∷ before) rest h.1)
template-blanked (behind_backslash c ∷ ls) before rest h =
    ground (arith, template-blanked ls (space ∷ space ∷ before) rest h.1)

piece-blanked :
    (p : Piece) (before rest : Text)
    → FitsPiece before p rest
    → strip_from code before (source p ++ rest)
      ≡ blanked p ++ strip_from code (rewritten (blanked p) before) rest
unfolding strip_from strip_byte
piece-blanked (plain c) before rest h = ground (arith, h)
piece-blanked (line_comment body) before rest h =
    ap (λ t. space ∷ space ∷ t) (line-blanked body (space ∷ space ∷ before) rest h)
piece-blanked (block_comment body) before rest h =
    ap (λ t. space ∷ space ∷ t) (block-blanked body (space ∷ space ∷ before) rest h)
piece-blanked (string q ls stop) before rest (is, start, ends, fits) =
    let inside = string-blanked q ls stop (space ∷ before) rest is ends fits in
    ground (arith, is, start, inside)
piece-blanked (template_string ls) before rest h =
    ap (λ t. space ∷ t) (template-blanked ls (space ∷ before) rest h)

open_line-blanked :
    (body before : Text)
    → All (λ c. (c == newline) ≡ false) body
    → strip_from line before body ≡ spaces body
unfolding strip_from strip_byte
open_line-blanked [] before h = refl
open_line-blanked (c ∷ body) before h =
    rw (h.0) (ap (λ t. space ∷ t) (open_line-blanked body (space ∷ before) h.1))

open_block-blanked :
    (body before : Text) → has_no_mark body ≡ true → strip_from block before body ≡ kept_breaks body
unfolding strip_from strip_byte
open_block-blanked [] before h = refl
open_block-blanked (c ∷ body) before h = ground (arith, open_block-blanked body (kept c ∷ before))

open_string-blanked :
    (q : ℕ) (ls : List Letter) (lone : Bool) (before : Text)
    → is_quote q ≡ true
    → All (IsLetter (ends_string q)) ls
    → strip_from (quoted q) before (open_letters ls lone) ≡ spaces (open_letters ls lone)
unfolding strip_from strip_byte
open_string-blanked q [] true before is h = ground arith
open_string-blanked q [] false before is h = refl
open_string-blanked q (byte c ∷ ls) lone before is h =
    ground (arith, open_string-blanked q ls lone (space ∷ before) is h.1)
open_string-blanked q (behind_backslash c ∷ ls) lone before is h =
    ground (arith, open_string-blanked q ls lone (space ∷ space ∷ before) is h.1)

open_template-blanked :
    (ls : List Letter) (lone : Bool) (before : Text)
    → All (IsLetter (λ c. c == b'`')) ls
    → strip_from template before (open_letters ls lone) ≡ blank_open_template ls lone
unfolding strip_from strip_byte
open_template-blanked [] true before h = refl
open_template-blanked [] false before h = refl
open_template-blanked (byte c ∷ ls) lone before h =
    ground (arith, open_template-blanked ls lone (kept c ∷ before) h.1)
open_template-blanked (behind_backslash c ∷ ls) lone before h =
    ground (arith, open_template-blanked ls lone (space ∷ space ∷ before) h.1)

end-blanked :
    (e : End) (before : Text)
    → FitsEnd before e
    → strip_from code before (source_end e) ≡ blanked_end e
unfolding strip_from strip_byte
end-blanked closed before h = refl
end-blanked (open_line body) before h =
    ap (λ t. space ∷ space ∷ t) (open_line-blanked body (space ∷ space ∷ before) h)
end-blanked (open_block body) before h =
    ap (λ t. space ∷ space ∷ t) (open_block-blanked body (space ∷ space ∷ before) h)
end-blanked (open_string q ls lone) before (is, start, fits) =
    let inside = open_string-blanked q ls lone (space ∷ before) is fits in
    ground (arith, is, start, inside)
end-blanked (open_template ls lone) before h =
    ap (λ t. space ∷ t) (open_template-blanked ls lone (space ∷ before) h)

strip_from-blanks :
    (before : Text) (ps : List Piece) (e : End)
    → Fits before ps e
    → strip_from code before (sources ps e) ≡ blanks ps e
strip_from-blanks before [] e h = end-blanked e before h
strip_from-blanks before (p ∷ ps) e h =
    piece-blanked p before (sources ps e) h.0
    ∙ ap (λ t. blanked p ++ t) (strip_from-blanks (rewritten (blanked p) before) ps e h.1)

-- Stripping a source that is made of pieces leaves what is to stand in their places.
pub strip-blanks :
    (ps : List Piece) (e : End)
    → Fits [] ps e
    → strip_strings_and_comments (sources ps e) ≡ blanks ps e
unfolding strip_strings_and_comments
strip-blanks ps e h = strip_from-blanks [] ps e h
