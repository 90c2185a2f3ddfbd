-- ===== src/Agent/Client.antt =====
-- internal/agent/agent.go and prompts.go: the conversation with the model, and what the loop takes
-- from outside. A user turn is kept as the values that its text is written from; the input of a tool
-- call is what json.Unmarshal makes of it.
use vibe_forge.Base.{ℕ, Bool, Option, List, Text}
use vibe_forge.Store.Model.{Key, Db, Env}
use vibe_forge.Compile.Report.{CompileError}
use vibe_forge.Compile.Validate.{CompileResult}
use vibe_forge.Agent.Scaffold.{PathError}

pub record WriteInput : Type 0 where
  pub path : Text
  pub content : Text

-- The content blocks of a message; `none` is an input that does not parse.
pub data Block : Type 0 where
  text : Text → Block
  tool_use : ℕ → Text → Option WriteInput → Block
  thinking redacted_thinking : Text → Block
  unknown : Block

pub data StopReason : Type 0 where
  end_turn max_tokens tool_use : StopReason

pub record Message : Type 0 where
  pub content : List Block
  pub stop_reason : StopReason

pub data ToolResult : Type 0 where
  malformed too_large : ToolResult
  bad_path : PathError → ToolResult
  forbidden : Text → ToolResult
  wrote : Text → ToolResult

pub data Prompt : Type 0 where
  pm_turn architect_turn : Text → Prompt
  engineer_turn : Text → Text → Prompt
  repair_turn : List CompileError → Prompt

pub data Turn : Type 0 where
  user : Prompt → Turn
  assistant : List Block → Turn
  tool_results : List (ℕ × ToolResult) → Turn

-- The errors that classifyError tells apart: context.Canceled or context.DeadlineExceeded, an error
-- of the API with its status, and any other error.
pub data Failure : Type 0 where
  context_ended : Failure
  api_error : ℕ → Failure
  other_failure : Failure

pub data Streamed : Type 0 where
  broken : Failure → Streamed
  replied : Message → Streamed

-- One streaming call: the text chunks that arrive, and how it ends.
pub record Stream : Type 0 where
  pub deltas : List Text
  pub ending : Streamed

-- What the loop takes from outside. The calls of the store are numbered, and so are those of the
-- model. A call of the store may be refused, by a context that is cancelled or by the database, and
-- then it writes nothing; `others` is what other requests do to the tables before a call.
pub record Outside : Type 0 where
  pub env : ℕ → Env
  pub refuses : ℕ → Option Failure
  pub others : ℕ → Db → Db
  pub stream : ℕ → List Turn → Bool → Stream
  pub embedded : Text → Text
  pub result_json : CompileResult → Option Text → Text
  pub file_ref : Key → Text
  pub shut_down : Bool
  pub watchdog_fired : Bool
