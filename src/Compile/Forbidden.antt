-- ===== src/Compile/Forbidden.antt =====
-- internal/compile/compile.go: ForbiddenCodePatterns and ForbiddenInCode. `to_lower` is
-- strings.ToLower as far as ASCII patterns can see it: it writes every ASCII byte that ToLower
-- writes, two code points beyond ASCII whose lower case is an ASCII letter included (U+0130 gives i,
-- U+212A gives k); the other bytes from 128 on, which ToLower turns into such bytes, stay.
pub mod Cases
pub mod Patterns
use vibe_forge.Base.{
  ℕ, zero, suc, ◌+◌, ◌==◌, starts_with, Bool, ◌&&◌, Option, none, some, List, [], ◌∷◌, Text, codes,
  contains, leb, if◌then◌else◌,
}

abbrev pub lower_byte : ℕ → ℕ
lower_byte c = if leb b'A' c && leb c b'Z' then c + 32 else c

abbrev pub drop : ℕ → Text → Text
drop zero s = s
drop (suc n) [] = []
drop (suc n) (c ∷ s) = drop n s

unfoldable pub to_lower : Text → Text
to_lower [] = []
to_lower (c ∷ s) =
    let more = to_lower s in
    if c == 0xc4 && starts_with (0xb0 ∷ []) s
    then b'i' ∷ drop 1 more
    else (if c == 0xe2 && starts_with (0x84 ∷ 0xaa ∷ []) s
        then b'k' ∷ drop 2 more
        else lower_byte c ∷ more)

abbrev pub spawn_sync : Text
spawn_sync = codes "spawnSync"

abbrev pub forbidden_code_patterns : List Text
forbidden_code_patterns =
    codes "child_process"
    ∷ codes "execsync"
    ∷ spawn_sync
    ∷ codes "require('fs')"
    ∷ codes "require(\"fs\")"
    ∷ codes "npm install"
    ∷ codes "npx "
    ∷ codes "yarn add"
    ∷ codes "pnpm add"
    ∷ codes "import fs"
    ∷ codes "process.env"
    ∷ []

unfoldable pub first_pattern : Text → List Text → Option Text
first_pattern lower [] = none
first_pattern lower (pat ∷ patterns) =
    let more = first_pattern lower patterns in if contains lower pat then some pat else more

unfoldable pub forbidden_in_code : Text → Option Text
unfolding first_pattern
forbidden_in_code content = first_pattern (to_lower content) forbidden_code_patterns
