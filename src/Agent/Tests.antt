-- ===== src/Agent/Tests.antt =====
-- Runs of the agent loop on small answers of the model.
use vibe_forge.Base.{
  ℕ, ◌+◌, ◌*◌, ◌≤◌, ◌≡◌, ◌↔◌, refl, Bool, ◌||◌, true, false, Option, none, some, List, [], ◌∷◌,
  Text, codes, Occurs, ◌==◌, if◌then◌else◌,
}
use vibe_forge.Store.Model.{Run, RunStatus}
use vibe_forge.Store.Runs.{active_run_of}
use vibe_forge.Store.Sound.Tables.{stable_of}
use vibe_forge.Store.Scenario.{env_at, running, store_code}
use vibe_forge.Agent.Client.{Block, StopReason, replied, Stream, Outside, other_failure}
use vibe_forge.Agent.Scaffold.{elements, validate_file_path}
use vibe_forge.Agent.Scaffold.Paths.{names, writable_names, validate_file_path_iff}
use vibe_forge.Agent.Runner.{World}
use vibe_forge.Agent.Runner.Hoare.{Ends}
use vibe_forge.Agent.Turns.{write_file_name, engineer_turn}
use vibe_forge.Agent.Loop.{start_world, loop_run}
use vibe_forge.Agent.Loop.Gate.{SameOrPromoted, loop_run-gated}
use vibe_forge.Store.Drafts.Settling.{Ended}
use vibe_forge.Agent.Loop.Ends.{loop_run-ends}
use vibe_forge.Agent.Loop.Bounds.{loop_run-calls}

abbrev small_app : Text
small_app = codes "export default () => 1"

abbrev says : Text → Stream
says s = record {
  deltas = s ∷ [];
  ending = replied (record { content = Block.text s ∷ []; stop_reason = StopReason.end_turn });
}

abbrev writes : Text → Stream
writes s = record {
  deltas = [];
  ending = replied (record {
    content =
        Block.tool_use 7 write_file_name (some (record { path = codes "src/App.tsx"; content = s }))
        ∷ [];
    stop_reason = StopReason.tool_use;
  });
}

-- The model talks, and writes the content at its third and at every further odd call.
abbrev answers : Text → ℕ → Stream
answers app n = if n == 2 || n == 4 || n == 6 then writes app else says (codes "ok")

abbrev model : Text → Outside
model app = record {
  env = λ n. env_at (1000 + 10 * n);
  refuses = λ n. none;
  others = λ n db. db;
  stream = λ n messages tools. answers app n;
  embedded = λ path. path;
  result_json = λ r h. [];
  file_ref = λ k. [];
  shut_down = false;
  watchdog_fired = false;
}

abbrev behind : Text → World
behind app = loop_run (model app) 200 (start_world running)

-- Opens the code of the loop, with the store's and the gate's.
unfoldable agent_code : Unit {0}
unfolding store_code vibe_forge.Base.split_on vibe_forge.Agent.Scaffold.resolve
    vibe_forge.Agent.Scaffold.rooted vibe_forge.Agent.Scaffold.clean
    vibe_forge.Agent.Scaffold.validate_file_path vibe_forge.Agent.Scaffold.build_files_map
    vibe_forge.Agent.Scaffold.to_snapshots vibe_forge.Agent.Runner.return
    vibe_forge.Agent.Runner.raise vibe_forge.Agent.Runner.quietly vibe_forge.Agent.Runner.change
    vibe_forge.Agent.Runner.◌>>=◌ vibe_forge.Agent.Runner.store_call
    vibe_forge.Agent.Runner.emit_payload vibe_forge.Agent.Runner.emit_deltas
    vibe_forge.Agent.Runner.stream vibe_forge.Agent.Runner.persist_assistant
    vibe_forge.Agent.Runner.record_artifact vibe_forge.Agent.Turns.reply_text
    vibe_forge.Agent.Turns.assistant_param vibe_forge.Agent.Turns.tool_result
    vibe_forge.Agent.Turns.run_tools vibe_forge.Agent.Turns.text_turn
    vibe_forge.Agent.Turns.tool_loop vibe_forge.Agent.Turns.engineer_turn
    vibe_forge.Agent.Rounds.replace_draft vibe_forge.Agent.Rounds.qa_round
    vibe_forge.Agent.Rounds.complete vibe_forge.Agent.Rounds.give_up
    vibe_forge.Agent.Rounds.repair_loop vibe_forge.Agent.Rounds.engineer_qa
    vibe_forge.Agent.Loop.classify_error vibe_forge.Agent.Loop.text_stage
    vibe_forge.Agent.Loop.run_stages vibe_forge.Agent.Loop.run_pipeline
    vibe_forge.Agent.Loop.fail_infra vibe_forge.Agent.Loop.loop_run
    vibe_forge.Compile.Validate.has_default_export vibe_forge.Compile.Validate.blank_from
    vibe_forge.Compile.Validate.validate vibe_forge.Compile.Forbidden.to_lower
    vibe_forge.Compile.Forbidden.first_pattern vibe_forge.Compile.Forbidden.forbidden_in_code
    vibe_forge.Compile.Strip.strip_byte vibe_forge.Compile.Strip.strip_from
    vibe_forge.Compile.Strip.strip_strings_and_comments vibe_forge.Compile.Braces.match_close
    vibe_forge.Compile.Braces.delimiter_step vibe_forge.Compile.Braces.balance_loop
    vibe_forge.Compile.Braces.brace_balance vibe_forge.Compile.Jsx.self_closes
    vibe_forge.Compile.Jsx.jsx_token vibe_forge.Compile.Jsx.tag_step vibe_forge.Compile.Jsx.jsx_loop
    vibe_forge.Compile.Jsx.jsx_sanity vibe_forge.Compile.Lexical.is_name_start
    vibe_forge.Compile.Lexical.is_name_char vibe_forge.Compile.Lexical.skip_blanks
    vibe_forge.Compile.Lexical.span_name vibe_forge.Compile.Lexical.ends_in_keyword
    vibe_forge.Compile.Lexical.is_string_start_pos vibe_forge.Compile.Lexical.jsx_position
    vibe_forge.Compile.Lexical.is_type_name vibe_forge.Base.starts_with vibe_forge.Base.contains
agent_code = tt

-- A content that passes becomes the stable version; one that fails three times leaves none.
good_run : stable_of 100 (behind small_app).db.projects ≡ some 1170
unfolding agent_code
good_run = refl

abbrev bad_app : Text
bad_app = codes "export default ("

bad_run : ((behind bad_app).db.projects ≡ running.projects) × ((behind bad_app).streams ≡ 8)
unfolding agent_code
bad_run = (refl, refl)

-- Where the database refuses the call 30, the one that fails the last draft, the loop ends, and the
-- run is still active.
abbrev refusing : Outside
refusing = record (model bad_app) { refuses = λ n. if n == 30 then some other_failure else none }

abbrev behind_refusal : World
behind_refusal = loop_run refusing 200 (start_world running)

abbrev status_of : Option Run → Option RunStatus
status_of none = none
status_of (some r) = some r.status

left_running :
    (active_run_of 100 (behind bad_app).db ≡ none)
    × (status_of (active_run_of 100 behind_refusal.db) ≡ some RunStatus.running)
unfolding agent_code
left_running = (refl, refl)

loop_run-gated_example :
    SameOrPromoted (model small_app) running.projects (behind small_app).db.projects
loop_run-gated_example = loop_run-gated (model small_app) (λ n db. refl) 200 (start_world running)

loop_run-calls_example : (behind bad_app).streams ≤ 0 + 26
loop_run-calls_example = loop_run-calls (model bad_app) 200 (start_world running)

loop_run-ends_example : Ended 200 (behind bad_app).db.runs
unfolding agent_code
loop_run-ends_example =
    loop_run-ends (model bad_app) 200 (start_world running) (λ n. refl) refl
      (record { held = λ n db h. h; over = λ n db h. h; draft = λ n k db h. h }) refl
      (_, refl, refl)

validate_file_path_iff_example : (validate_file_path (codes "src//./App.tsx") ≡ none) ↔ (
    (names (elements (codes "src//./App.tsx")) ≡ writable_names)
    × (¬ Occurs (codes "..") (codes "src//./App.tsx")))
validate_file_path_iff_example = validate_file_path_iff (codes "src//./App.tsx")
