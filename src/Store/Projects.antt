-- ===== src/Store/Projects.antt =====
-- internal/store/project.go: creating a project with its first message.
pub mod Title
use vibe_forge.Base.{
  ℕ, suc, none, [], ◌∷◌, ◌++◌, Text, codes, length, leb, ◌==◌, trim, is_unicode_space,
  if◌then◌else◌,
}
use vibe_forge.Store.Model.{Project, ProjectStatus, Message, Role, Body, Endpoint, Env}
use vibe_forge.Store.Rows.{insert_project, insert_message}
use vibe_forge.Store.Pointer.{init_project_workflow}
use vibe_forge.Store.Runs.{prompt_out_of_range, range_error}
use vibe_forge.Store.Ledger.{run_idempotent, IdempotentResult}
use vibe_forge.Store.Tx.{Tx, pure, fail_if, ◌>>◌}

abbrev pub take : ℕ → Text → Text
take ℕ.zero s = []
take (suc n) [] = []
take (suc n) (c ∷ s) = c ∷ take n s

-- Up to the first line break.
abbrev pub first_line : Text → Text
first_line [] = []
first_line (c ∷ s) = let more = first_line s in if c == 10 then [] else c ∷ more

-- The ellipsis is U+2026.
unfoldable pub shorten : Text → Text
shorten line = if leb (length line) 60 then line else take 60 line ++ 0x2026 ∷ []

-- deriveTitle, on code points.
unfoldable pub derive_title : Text → Text
derive_title prompt = shorten (trim is_unicode_space (first_line (trim is_unicode_space prompt)))

abbrev pub title_or_derived : Text → Text → Text
title_or_derived [] prompt = derive_title prompt
title_or_derived (c ∷ title) prompt = c ∷ title

abbrev pub new_project : Env → Text → Project
new_project env title = record {
  id = env.new_id 0;
  title = title;
  status = ProjectStatus.active;
  stable_version_id = none;
  created_at = env.now;
  updated_at = env.now;
}

abbrev first_message : Env → Text → Message
first_message env prompt = record {
  id = env.new_id 1;
  project_id = env.new_id 0;
  role = Role.user;
  content = prompt;
  created_at = env.now;
}

unfoldable pub create_project_writes : Env → Text → Text → Tx (ℕ × Body)
create_project_writes env title prompt = do
  insert_project (new_project env title)
  init_project_workflow (env.new_id 0) env.now
  insert_message (first_message env prompt)
  pure (201, Body.project_body (new_project env title))

unfoldable pub create_project_body : Env → Text → Text → Tx (ℕ × Body)
create_project_body env title initial_prompt = do
  let prompt = trim is_unicode_space initial_prompt
  fail_if (prompt_out_of_range prompt)
      (range_error (codes "initialPrompt length out of range") prompt)
  create_project_writes env (title_or_derived (trim is_unicode_space title) prompt) prompt

unfoldable pub create_project : Env → Text → Text → ℕ → Tx IdempotentResult
create_project env title initial_prompt key =
    run_idempotent env Endpoint.create_project key (create_project_body env title initial_prompt)
