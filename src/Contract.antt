-- ===== src/Contract.antt =====
-- contracts/contract.go and contracts/contract.json: the constants that the other parts read.
use vibe_forge.Base.{ℕ, Bool, true, false, List, [], ◌∷◌, Text, codes}

-- Limits, as contract.json sets them.
abbrev pub prompt_min_chars : ℕ
prompt_min_chars = 1

abbrev pub prompt_max_chars : ℕ
prompt_max_chars = 4000

abbrev pub file_content_max_bytes : ℕ
file_content_max_bytes = 204800

abbrev pub writable_file_path : Text
writable_file_path = codes "/src/App.tsx"

abbrev pub max_auto_fix_rounds : ℕ
max_auto_fix_rounds = 2

-- Seconds within which an idempotency key replays.
abbrev pub ttl_seconds : ℕ
ttl_seconds = 30

-- The four serial stages, and their order.
pub data Stage : Type 0 where
  pm architect engineer qa : Stage

abbrev pub stage_order : List Stage
stage_order = pm ∷ architect ∷ engineer ∷ qa ∷ []

pub data ErrorCode : Type 0 where
  validation_error not_found conflict rate_limited dependency_unavailable internal : ErrorCode

unfoldable pub http_status_for : ErrorCode → ℕ
http_status_for validation_error = 422
http_status_for not_found = 404
http_status_for conflict = 409
http_status_for rate_limited = 429
http_status_for dependency_unavailable = 503
http_status_for internal = 500

unfoldable pub is_retryable : ErrorCode → Bool
is_retryable validation_error = false
is_retryable not_found = false
is_retryable conflict = false
is_retryable rate_limited = true
is_retryable dependency_unavailable = true
is_retryable internal = true
