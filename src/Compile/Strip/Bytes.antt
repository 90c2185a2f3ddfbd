-- ===== src/Compile/Strip/Bytes.antt =====
-- stripStringsAndComments: what it does to each byte.
use vibe_forge.Base.{ℕ, ◌≡◌, ◌⊎◌, [], ◌∷◌, Text, arith}
use vibe_forge.Compile.Lexical.{space}
use vibe_forge.Compile.Strip.{Mode, strip_byte, strip_from, strip_strings_and_comments, code}

-- `out` is `src` with some bytes written over by spaces: same length, same offsets.
abbrev pub Blanked : Text → Text → Type 0
Blanked [] [] = Unit
Blanked [] (o ∷ out) = ⊥
Blanked (c ∷ src) [] = ⊥
Blanked (c ∷ src) (o ∷ out) = ((o ≡ c) ⊎ (o ≡ space)) × Blanked src out

strip_byte_blanks :
    (m : Mode) (before rest : Text) (c : ℕ)
    → ((strip_byte m before rest c).1 ≡ c) ⊎ ((strip_byte m before rest c).1 ≡ space)
unfolding strip_byte
strip_byte_blanks m before rest c = ground arith

strip_from-Blanked : (m : Mode) (before src : Text) → Blanked src (strip_from m before src)
unfolding strip_from
strip_from-Blanked m before [] = tt
strip_from-Blanked m before (c ∷ rest) =
    let (m', out) = strip_byte m before rest c in
    (strip_byte_blanks m before rest c, strip_from-Blanked m' (out ∷ before) rest)

-- Stripping keeps the length and every offset: byte by byte the result is the source's byte or a
-- space.
pub strip-Blanked : (src : Text) → Blanked src (strip_strings_and_comments src)
unfolding strip_strings_and_comments
strip-Blanked src = strip_from-Blanked code [] src
