-- ===== src/Compile/Report.antt =====
-- internal/compile/compile.go: Error, and what one step of a scanner over the text yields.
use vibe_forge.Base.{
  ℕ, ◌+◌, Bool, true, false, Option, none, some, List, [], ◌∷◌, Text, if◌then◌else◌, ◌==◌,
}
use vibe_forge.Contract.{writable_file_path}
use vibe_forge.Compile.Lexical.{newline}

pub record CompileError : Type 0 where
  pub file : Text
  pub line : ℕ
  pub message : Text

abbrev pub error_at : ℕ → Text → CompileError
error_at n text = record { file = writable_file_path; line = n; message = text }

-- An opening delimiter or tag that waits for its partner.
pub record Frame {ℓ} (A : Type ℓ) : Type ℓ where
  pub name : A
  pub line : ℕ

-- A scanner returns with an error, or goes on with a new state.
pub data Outcome {ℓ} (S : Type ℓ) : Type ℓ where
  stop : CompileError → Outcome S
  go_on : S → Outcome S

abbrev pub and_then {ℓ} : {S : Type ℓ} → Outcome S → (S → Option CompileError) → Option CompileError
and_then (stop e) k = some e
and_then (go_on s) k = k s

abbrev pub next_line : ℕ → ℕ → ℕ
next_line n c = if c == newline then n + 1 else n

-- A scanner's answer as a test: `none` is no error.
abbrev pub passes {ℓ} : {A : Type ℓ} → Option A → Bool
passes none = true
passes (some e) = false

abbrev pub names {ℓ} : {A : Type ℓ} → List (Frame A) → List A
names [] = []
names (f ∷ fs) = f.name ∷ names fs
