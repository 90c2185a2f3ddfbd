-- ===== src/Compile/Lexical.antt =====
-- internal/compile/compile.go: the byte classes and the look-behind that the scanners share.
-- A source text is the list of its bytes; what stands before an index is that list reversed.
use mathlib.Core.List.{reverse}
use vibe_forge.Base.{
  ℕ, Bool, true, false, ◌&&◌, ◌||◌, List, [], ◌∷◌, Text, codes, text_eq, any, leb, ◌==◌,
  if◌then◌else◌,
}

abbrev pub newline : ℕ
newline = 10

abbrev pub space : ℕ
space = 32

unfoldable pub is_name_start : ℕ → Bool
is_name_start c = (leb b'A' c && leb c b'Z') || (leb b'a' c && leb c b'z') || c == b'_'

abbrev pub is_digit : ℕ → Bool
is_digit c = leb b'0' c && leb c b'9'

unfoldable pub is_name_char : ℕ → Bool
unfolding is_name_start
is_name_char c = is_name_start c || is_digit c || c == b'.' || c == b'-'

-- The test of the loops that walk back over white space.
abbrev pub is_blank : ℕ → Bool
is_blank c = c == space || c == 9 || c == newline || c == 13

unfoldable pub skip_blanks : Text → Text
skip_blanks [] = []
skip_blanks (c ∷ before) = let more = skip_blanks before in if is_blank c then more else c ∷ before

-- The longest name at the head of a text.
unfoldable pub span_name : Text → Text
unfolding is_name_char
span_name [] = []
span_name (c ∷ s) = let more = span_name s in if is_name_char c then c ∷ more else []

abbrev pub one_of : Text → ℕ → Bool
one_of s c = any (λ x. x == c) s

-- The `case "return", …` of both look-behinds.
abbrev pub expression_keywords : List Text
expression_keywords =
    codes "return"
    ∷ codes "throw"
    ∷ codes "yield"
    ∷ codes "await"
    ∷ codes "typeof"
    ∷ codes "void"
    ∷ codes "delete"
    ∷ codes "new"
    ∷ codes "instanceof"
    ∷ codes "in"
    ∷ codes "of"
    ∷ codes "do"
    ∷ codes "else"
    ∷ codes "case"
    ∷ codes "default"
    ∷ []

-- Whether the name that ends where `before` begins is one of the keywords.
unfoldable pub ends_in_keyword : Text → Bool
unfolding span_name
ends_in_keyword before = any (text_eq (reverse (span_name before))) expression_keywords

abbrev string_openers : Text
string_openers = codes "=([{,:?+-*/%&|^~!<>;`"

abbrev string_closers : Text
string_closers = codes ")]}\"'."

-- The byte that decides, with what stands before it.
abbrev string_start_after : Text → Bool
string_start_after [] = true
string_start_after (c ∷ before) =
    if one_of string_openers c
    then true
    else if one_of string_closers c
    then false
    else if is_digit c
    then false
    else if is_name_char c
    then ends_in_keyword (c ∷ before)
    else false

unfoldable pub is_string_start_pos : Text → Bool
unfolding skip_blanks is_name_char ends_in_keyword
is_string_start_pos before = string_start_after (skip_blanks before)

abbrev jsx_openers : Text
jsx_openers = codes "=>+-*/%&|^~!?:([{},;<."

abbrev jsx_closers : Text
jsx_closers = codes ")]\"'`"

abbrev jsx_after : Text → Bool
jsx_after [] = true
jsx_after (c ∷ before) =
    if one_of jsx_openers c
    then true
    else if one_of jsx_closers c
    then false
    else if is_digit c
    then false
    else if is_name_char c
    then ends_in_keyword (c ∷ before)
    else true

unfoldable pub jsx_position : Text → Bool
unfolding skip_blanks is_name_char ends_in_keyword
jsx_position before = jsx_after (skip_blanks before)

unfoldable pub is_type_name : Text → Bool
is_type_name name = any (text_eq name) (
    codes "string"
    ∷ codes "number"
    ∷ codes "boolean"
    ∷ codes "any"
    ∷ codes "unknown"
    ∷ codes "void"
    ∷ codes "null"
    ∷ codes "undefined"
    ∷ codes "never"
    ∷ codes "object"
    ∷ codes "symbol"
    ∷ codes "bigint"
    ∷ codes "const"
    ∷ codes "typeof"
    ∷ codes "keyof"
    ∷ codes "infer"
    ∷ codes "readonly"
    ∷ codes "unique"
    ∷ [])
