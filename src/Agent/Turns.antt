-- ===== src/Agent/Turns.antt =====
-- internal/agent/agent.go: textTurn and engineerTurn, with the sandbox of the tool write_file.
pub mod Bounds
pub mod Sandbox
use vibe_forge.Base.{
  ℕ, zero, suc, Bool, true, false, Option, none, some, List, [], ◌∷◌, ◌++◌, Text, codes, length,
  ltb, text_eq, if◌then◌else◌,
}
use vibe_forge.Contract.{file_content_max_bytes}
use vibe_forge.Store.Model.{Key}
use vibe_forge.Compile.Forbidden.{forbidden_in_code}
use vibe_forge.Agent.Scaffold.{PathError, validate_file_path}
use vibe_forge.Agent.Client.{
  WriteInput, Block, StopReason, ToolResult, malformed, too_large, bad_path, forbidden, wrote,
  Prompt, Turn, user, assistant, tool_results, Outside,
}
use vibe_forge.Agent.Runner.{Step, return, stream, ◌>>=◌}

-- The text blocks of a reply, joined.
unfoldable pub reply_text : List Block → Text
reply_text [] = []
reply_text (Block.text s ∷ bs) = s ++ reply_text bs
reply_text (_ ∷ bs) = reply_text bs

-- The blocks that are echoed back to the model.
unfoldable pub assistant_param : List Block → List Block
assistant_param [] = []
assistant_param (Block.unknown ∷ bs) = assistant_param bs
assistant_param (b ∷ bs) = b ∷ assistant_param bs

abbrev pub write_file_name : Text
write_file_name = codes "write_file"

abbrev check_code : Text → Option Text → ToolResult
check_code path (some pat) = forbidden pat
check_code path none = wrote path

abbrev check_content : WriteInput → Option PathError → ToolResult
check_content i (some e) = bad_path e
check_content i none =
    if ltb file_content_max_bytes (length i.content)
    then too_large
    else check_code i.path (forbidden_in_code i.content)

-- The answer to a call of write_file: the sandbox.
unfoldable pub tool_result : Option WriteInput → ToolResult
tool_result none = malformed
tool_result (some i) = check_content i (validate_file_path i.path)

-- The content of App.tsx behind the call.
abbrev pub written : Option WriteInput → ToolResult → Text → Text
written (some i) (wrote path) app_tsx = i.content
written _ _ app_tsx = app_tsx

-- The calls of write_file in a reply, in order: their answers, and App.tsx behind them.
unfoldable pub run_tools : List Block → Text → List (ℕ × ToolResult) × Text
run_tools [] app_tsx = ([], app_tsx)
run_tools (Block.tool_use id name input ∷ bs) app_tsx =
    let r = tool_result input in
    let here = run_tools bs (written input r app_tsx) in
    let past = run_tools bs app_tsx in
    if text_eq name write_file_name then ((id, r) ∷ here.0, here.1) else past
run_tools (_ ∷ bs) app_tsx = run_tools bs app_tsx

abbrev pub calls_tools : StopReason → Bool
calls_tools StopReason.tool_use = true
calls_tools _ = false

abbrev pub Written : Type 0
Written = Text × List Turn

-- Goes on with the answers, or ends where there is none.
abbrev pub on_results : List (ℕ × ToolResult) → Written → (List Turn → Step Written) → Step Written
on_results [] (app_tsx, messages) more = return (app_tsx, messages)
on_results (r ∷ rs) (app_tsx, messages) more = more (messages ++ tool_results (r ∷ rs) ∷ [])

-- The bound on the tool rounds.
abbrev pub tool_rounds : ℕ
tool_rounds = 8

module _ (out : Outside) where
  unfoldable pub text_turn : Key → List Turn → Prompt → Step Written
  text_turn run messages prompt = do
    let asked = messages ++ user prompt ∷ []
    msg ← stream out run asked false
    return (reply_text msg.content, asked ++ assistant (assistant_param msg.content) ∷ [])

  unfoldable pub tool_loop : ℕ → Key → Text → List Turn → Step Written
  tool_loop zero run app_tsx messages = return (app_tsx, messages)
  tool_loop (suc n) run app_tsx messages = do
    msg ← stream out run messages true
    let heard = messages ++ assistant (assistant_param msg.content) ∷ []
    let (results, next_app) = run_tools msg.content app_tsx
    if calls_tools msg.stop_reason
        then on_results results (next_app, heard) (tool_loop n run next_app)
        else return (app_tsx, heard)

  -- The last content that passed the sandbox, or the empty one.
  unfoldable pub engineer_turn : Key → List Turn → Prompt → Step Written
  engineer_turn run messages prompt = tool_loop tool_rounds run [] (messages ++ user prompt ∷ [])
