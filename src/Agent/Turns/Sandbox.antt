-- ===== src/Agent/Turns/Sandbox.antt =====
-- The sandbox of the tool write_file (internal/agent/agent.go, engineerTurn).
use vibe_forge.Base.{ℕ, ◌≤◌, ◌≡◌, ◌⊎◌, none, [], Text, length}
use vibe_forge.Contract.{file_content_max_bytes}
use vibe_forge.Compile.Forbidden.{forbidden_in_code}
use vibe_forge.Agent.Runner.{World}
use vibe_forge.Agent.Runner.Hoare.{Hoare}
use vibe_forge.Agent.Turns.{Written}
use vibe_forge.Agent.Turns.Bounds.{AtMost}

-- A content that the sandbox lets through.
pub record IsAllowed (content : Text) : Type 0 where
  pub fits : length content ≤ file_content_max_bytes
  pub is_clean : forbidden_in_code content ≡ none

-- Nothing is written yet, or the last content that was written is allowed.
abbrev pub Accepted : Text → Type 0
Accepted app_tsx = (app_tsx ≡ []) ⊎ IsAllowed app_tsx

-- The turn has called the model at most `n` times, and what it returns is accepted.
abbrev Turned : ℕ → Written → World → Type 0
Turned n r w = AtMost n w × Accepted r.0
