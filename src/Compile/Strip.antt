-- ===== src/Compile/Strip.antt =====
-- internal/compile/compile.go: stripStringsAndComments. The loops over the buffer are one machine
-- that reads a byte, writes a byte and knows in which loop it is. `before` is the part of the
-- buffer that is already rewritten, reversed, as `isStringStartPos` sees it.
pub mod Bytes
pub mod Newlines
pub mod Pieces
use vibe_forge.Base.{ℕ, Bool, true, false, ◌&&◌, ◌||◌, not, [], ◌∷◌, Text, ◌==◌, if◌then◌else◌}
use vibe_forge.Compile.Lexical.{newline, space, is_string_start_pos}

-- `block_open` and `block_close` stand for the second byte of a comment's mark, `escaped` and
-- `template_escaped` for the byte behind a backslash.
pub data Mode : Type 0 where
  code line block_open block block_close : Mode
  quoted : ℕ → Mode
  escaped : ℕ → Mode
  template template_escaped : Mode

abbrev pub next_is : ℕ → Text → Bool
next_is c [] = false
next_is c (d ∷ rest) = d == c

abbrev pub has_next : Text → Bool
has_next [] = false
has_next (d ∷ rest) = true

-- One byte: the mode for the next byte, and the byte that is written.
unfoldable pub strip_byte : Mode → Text → Text → ℕ → Mode × ℕ
strip_byte code before rest c =
    if c == b'/' && next_is b'/' rest
    then (line, space)
    else if c == b'/' && next_is b'*' rest
    then (block_open, space)
    else if (c == b'"' || c == 39) && is_string_start_pos before
    then (quoted c, space)
    else if c == b'`'
    then (template, space)
    else (code, c)
strip_byte line before rest c = if c == newline then (code, c) else (line, space)
strip_byte block_open before rest c = (block, space)
strip_byte block before rest c =
    if c == b'*' && next_is b'/' rest
    then (block_close, space)
    else (block, if c == newline then c else space)
strip_byte block_close before rest c = (code, space)
strip_byte (quoted q) before rest c =
    if c == q
    then (code, space)
    else if c == newline
    then (code, c)
    else if c == 92 && has_next rest
    then (escaped q, space)
    else (quoted q, space)
strip_byte (escaped q) before rest c = (quoted q, space)
strip_byte template before rest c =
    if c == b'`'
    then (code, space)
    else if c == 92 && has_next rest
    then (template_escaped, space)
    else (template, if c == newline then c else space)
strip_byte template_escaped before rest c = (template, space)

unfoldable pub strip_from : Mode → Text → Text → Text
strip_from m before [] = []
strip_from m before (c ∷ rest) =
    let (m', out) = strip_byte m before rest c in out ∷ strip_from m' (out ∷ before) rest

unfoldable pub strip_strings_and_comments : Text → Text
unfolding strip_from strip_byte
strip_strings_and_comments src = strip_from code [] src
