-- ===== src/Compile/Validate.antt =====
-- internal/compile/compile.go: Validate, hasDefaultExport and Result. Result.FilesHash is set by the
-- callers.
pub mod Gate
use vibe_forge.Base.{
  ℕ, zero, suc, ◌-◌, ◌==◌, ◌&&◌, ltb, starts_with, Bool, true, false, ◌||◌, not, Option, none, some,
  List, [], ◌∷◌, ◌++◌, Text, codes, length, contains, trim, is_ascii_space, leb, text_eq,
  if◌then◌else◌,
}
use vibe_forge.Contract.{file_content_max_bytes}
use vibe_forge.Compile.Report.{CompileError, error_at}
use vibe_forge.Compile.Strip.{strip_strings_and_comments}
use vibe_forge.Compile.Braces.{brace_balance}
use vibe_forge.Compile.Jsx.{jsx_sanity}
use vibe_forge.Compile.Forbidden.{forbidden_in_code}

pub record CompileResult : Type 0 where
  pub pass : Bool
  pub errors : List CompileError

unfoldable pub has_default_export : Text → Bool
has_default_export src =
    let s = strip_strings_and_comments src in
    contains s (codes "exportdefault") || contains s (codes "export default")

abbrev pub size_errors : Text → List CompileError
size_errors app_tsx =
    if leb (length app_tsx) file_content_max_bytes
    then []
    else error_at 1 (codes "file exceeds the 200KB size limit") ∷ []

-- The bytes of the white space (unicode.IsSpace) in UTF-8 that a text starts with; 0 if it starts
-- with none.
abbrev two_byte_space : ℕ → Text → Bool
two_byte_space c s = c == 0xc2 && (starts_with (0x85 ∷ []) s || starts_with (0xa0 ∷ []) s)

abbrev general_space : Text → Bool
general_space [] = false
general_space (d ∷ s) = (leb 0x80 d && leb d 0x8a) || d == 0xa8 || d == 0xa9 || d == 0xaf

abbrev after_byte : ℕ → Text → Text
after_byte b [] = []
after_byte b (c ∷ s) = if c == b then s else []

abbrev three_byte_space : ℕ → Text → Bool
three_byte_space c s =
    (c == 0xe1 && starts_with (0x9a ∷ 0x80 ∷ []) s)
    || (c == 0xe2 && (general_space (after_byte 0x80 s) || starts_with (0x81 ∷ 0x9f ∷ []) s))
    || (c == 0xe3 && starts_with (0x80 ∷ 0x80 ∷ []) s)

abbrev space_length : ℕ → Text → ℕ
space_length c s =
    if is_ascii_space c
    then 1
    else (if two_byte_space c s then 2 else (if three_byte_space c s then 3 else 0))

-- `strings.TrimSpace(s) == ""`; the first `n` bytes belong to a white space that is read already.
unfoldable pub blank_from : ℕ → Text → Bool
blank_from n [] = true
blank_from (suc n) (c ∷ s) = blank_from n s
blank_from zero (c ∷ s) =
    let rest = blank_from (space_length c s - 1) s in
    if ltb 0 (space_length c s) then rest else false

abbrev pub empty_errors : Text → List CompileError
empty_errors app_tsx =
    if blank_from 0 app_tsx then error_at 1 (codes "App.tsx is empty") ∷ [] else []

abbrev pub forbidden_errors : Option Text → List CompileError
forbidden_errors none = []
forbidden_errors (some pat) =
    error_at 1 (
      codes "forbidden token in generated code: "
      ++ pat
      ++ codes " (shell/install are not allowed)")
    ∷ []

abbrev pub export_errors : Bool → List CompileError
export_errors true = []
export_errors false =
    error_at 1 (codes "missing a default export (e.g. `export default function App()`)") ∷ []

abbrev pub scan_errors : Option CompileError → List CompileError
scan_errors none = []
scan_errors (some e) = e ∷ []

abbrev pub is_empty : List CompileError → Bool
is_empty [] = true
is_empty (e ∷ es) = false

unfoldable pub validate : Text → CompileResult
validate app_tsx =
    let errs =
      size_errors app_tsx
      ++ (empty_errors app_tsx
          ++ (forbidden_errors (forbidden_in_code app_tsx)
              ++ (export_errors (has_default_export app_tsx)
                  ++ (scan_errors (brace_balance app_tsx) ++ scan_errors (jsx_sanity app_tsx))))) in
    record { pass = is_empty errs; errors = errs }
