-- ===== src/Compile/Strip/Newlines.antt =====
-- stripStringsAndComments: when the line numbers of the result are those of the source.
use vibe_forge.Base.{ℕ, ◌≡◌, ◌≢◌, ◌⊎◌, Bool, false, ◌&&◌, ◌||◌, [], ◌∷◌, Text, arith, ◌==◌}
use vibe_forge.Compile.Lexical.{newline, is_string_start_pos}
use vibe_forge.Compile.Strip.{
  Mode, code, block_open, block_close, quoted, escaped, template_escaped, next_is, strip_byte,
  strip_from, strip_strings_and_comments,
}

-- A backslash stands right before a line break somewhere.
abbrev pub has_escaped_newline : Text → Bool
has_escaped_newline [] = false
has_escaped_newline (c ∷ rest) = (c == 92 && next_is newline rest) || has_escaped_newline rest

-- The line breaks of `out` stand exactly where those of `src` stand.
abbrev pub SameLines : Text → Text → Type 0
SameLines [] [] = Unit
SameLines [] (o ∷ out) = ⊥
SameLines (c ∷ src) [] = ⊥
SameLines (c ∷ src) (o ∷ out) = ((o == newline) ≡ (c == newline)) × SameLines src out

-- What a mode knows of the next byte.
abbrev Expects : Mode → Text → Type 0
Expects block_open rest = next_is newline rest ≡ false
Expects block_close rest = next_is newline rest ≡ false
Expects (escaped q) rest = next_is newline rest ≡ false
Expects template_escaped rest = next_is newline rest ≡ false
Expects _ rest = Unit

-- No quote character is a line break.
abbrev QuoteIsSafe : Mode → Type 0
QuoteIsSafe (quoted q) = q ≢ newline
QuoteIsSafe (escaped q) = q ≢ newline
QuoteIsSafe _ = Unit

module _ (m : Mode) (before rest : Text) (c : ℕ) where
  strip_byte-Expects :
      (c == 92 && next_is newline rest) ≡ false → Expects (strip_byte m before rest c).0 rest
  unfolding strip_byte
  strip_byte-Expects h = ground arith

  strip_byte-QuoteIsSafe : QuoteIsSafe m → QuoteIsSafe (strip_byte m before rest c).0
  unfolding strip_byte
  strip_byte-QuoteIsSafe h = ground arith

  strip_byte-newline :
      Expects m (c ∷ rest)
      → QuoteIsSafe m
      → ((strip_byte m before rest c).1 == newline) ≡ (c == newline)
  unfolding strip_byte
  strip_byte-newline h q = ground arith

strip_from-SameLines :
    (m : Mode) (before src : Text)
    → has_escaped_newline src ≡ false
    → Expects m src
    → QuoteIsSafe m
    → SameLines src (strip_from m before src)
unfolding strip_from
strip_from-SameLines m before [] h e q = tt
strip_from-SameLines m before (c ∷ rest) h e q =
    let (m', out) = strip_byte m before rest c in
    (
      strip_byte-newline m before rest c e q,
      strip_from-SameLines m' (out ∷ before) rest (ground arith)
          (strip_byte-Expects m before rest c (ground arith))
          (strip_byte-QuoteIsSafe m before rest c q),
    )

-- In a source where no backslash stands right before a line break, every line break stays where it
-- is and no other appears, so the scanners count the source's lines.
pub strip-SameLines :
    (src : Text) → has_escaped_newline src ≡ false → SameLines src (strip_strings_and_comments src)
unfolding strip_strings_and_comments
strip-SameLines src h = strip_from-SameLines code [] src h tt tt

-- A text that opens with a quote, a backslash and a line break loses that line break, whatever
-- follows: the scanners then report lines that are too small.
pub strip_loses_newline :
    (q : ℕ) (rest : Text)
    → ((q ≡ b'"') ⊎ (q ≡ 39)) ⊎ (q ≡ b'`')
    → ¬ SameLines (q ∷ 92 ∷ newline ∷ rest) (strip_strings_and_comments (q ∷ 92 ∷ newline ∷ rest))
unfolding strip_strings_and_comments is_string_start_pos
strip_loses_newline q rest h same = ground arith
