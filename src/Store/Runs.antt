-- ===== src/Store/Runs.antt =====
-- internal/store/run.go: the life of a run.
pub mod OneActive
pub mod Retry
pub mod Statements
pub mod Success
use vibe_forge.Base.{
  ℕ, ◌+◌, Bool, true, false, ◌||◌, not, Option, none, some, Text, codes, length, trim,
  is_unicode_space, ltb, ◌==◌, if◌then◌else◌,
}
use vibe_forge.Contract.{validation_error, not_found, conflict, prompt_min_chars, prompt_max_chars}
use vibe_forge.Store.Model.{
  Key, Time, Message, Role, Run, RunStatus, Attempt, Iteration, Kind, Event, EventType,
  WorkflowStatus, Body, Endpoint, Db, Env, Error, Details, no_details, out_of_range, base_mismatch,
  active_run, not_retryable, coded,
}
use vibe_forge.Store.Table.{first_where, count_where, max_where}
use vibe_forge.Store.Rows.{
  opt_is, project_of, run_of, is_active_in, insert_run, update_run, insert_attempt,
  insert_iteration, insert_message, insert_event,
}
use vibe_forge.Store.Pointer.{run_workflow_status, point_project_workflow, bump_workflow_for_run}
use vibe_forge.Store.Stages.{init_attempt_stages}
use vibe_forge.Store.Ledger.{run_idempotent, IdempotentResult}
use vibe_forge.Store.Tx.{Tx, pure, query, or_fail, fail, fail_if, ◌>>=◌, ◌>>◌}

abbrev pub prompt_out_of_range : Text → Bool
prompt_out_of_range prompt =
    ltb (length prompt) prompt_min_chars || ltb prompt_max_chars (length prompt)

abbrev pub range_error : Text → Text → Error
range_error msg prompt =
    coded validation_error msg (out_of_range prompt_min_chars prompt_max_chars (length prompt))

-- The optimistic lock: a base that is given must be the stable version.
abbrev pub lock_fails : Option Key → Option Key → Bool
lock_fails none stable = false
lock_fails (some base) stable = not (opt_is stable base)

abbrev pub lock_details : Option Key → Option Key → Details
lock_details none stable = no_details
lock_details (some base) stable = base_mismatch stable base

-- SELECT id FROM runs WHERE project_id = ? AND status IN ('queued','running') LIMIT 1
abbrev pub active_run_of : Key → Db → Option Run
active_run_of project db = first_where (is_active_in project) db.runs

abbrev pub refuse_found : Text → Option Run → Tx (Unit {0})
refuse_found msg none = pure tt
refuse_found msg (some r) = fail (coded conflict msg (active_run r.id))

unfoldable pub refuse_active : Text → Key → Tx (Unit {0})
refuse_active msg project = do active ← query (active_run_of project); refuse_found msg active

-- The checks of CreateRun, in order; the project's stable version.
unfoldable pub create_run_checks : Key → Text → Option Key → Tx (Option Key)
create_run_checks project prompt base = do
  fail_if (prompt_out_of_range prompt) (range_error (codes "prompt length out of range") prompt)
  found ← query λ db. project_of db project
  p ← or_fail (coded not_found (codes "project not found") no_details) found
  fail_if (lock_fails base p.stable_version_id) (
      coded conflict (codes "baseVersionId does not match current stable version")
        (lock_details base p.stable_version_id))
  refuse_active (codes "project already has an active run") project
  pure p.stable_version_id

abbrev pub first_status : Bool → RunStatus
first_status true = RunStatus.queued
first_status false = RunStatus.failed

abbrev pub new_run : Env → Key → Text → Option Key → Bool → Run
new_run env project prompt stable can_start = record {
  id = env.new_id 0;
  project_id = project;
  status = first_status can_start;
  prompt = prompt;
  base_version_id = stable;
  active_attempt_id = none;
  created_at = env.now;
  updated_at = env.now;
}

abbrev pub new_attempt_row : Env → Bool → Attempt
new_attempt_row env can_start = record {
  id = env.new_id 1;
  run_id = env.new_id 0;
  sequence = 1;
  status = first_status can_start;
  auto_fix_round = 0;
  created_at = env.now;
}

abbrev pub new_iteration : Env → Key → Text → Option Key → Iteration
new_iteration env project prompt stable = record {
  id = env.new_id 2;
  project_id = project;
  run_id = some (env.new_id 0);
  kind = Kind.agent;
  base_version_id = stable;
  result_version_id = none;
  prompt = some prompt;
  created_at = env.now;
}

abbrev pub edit_message : Env → Key → Text → Message
edit_message env project prompt = record {
  id = env.new_id 3;
  project_id = project;
  role = Role.user;
  content = prompt;
  created_at = env.now;
}

abbrev not_started : Env → ℕ → Event
not_started env seq = record {
  id = env.new_id 4;
  run_id = env.new_id 0;
  seq = seq;
  type = EventType.run_failed;
  payload = record { stage = none; code = some (codes "DEPENDENCY_UNAVAILABLE") };
  created_at = env.now;
}

abbrev pub is_event_of : Key → Event → Bool
is_event_of run e = e.run_id == run

-- COALESCE(MAX(seq), 0) + 1
abbrev pub next_seq : Key → Db → ℕ
next_seq run db = max_where (is_event_of run) (λ (e : Event). e.seq) db.events + 1

-- A run that cannot start is stored as failed, with the event that says so.
unfoldable pub record_unstarted : Env → Tx (ℕ × Body)
record_unstarted env = do
  seq ← query (next_seq (env.new_id 0))
  insert_event (not_started env seq)
  pure (503, Body.no_body)

-- The writes of CreateRun, behind its checks.
unfoldable pub create_run_writes : Env → Key → Text → Option Key → Bool → Tx (ℕ × Body)
create_run_writes env project prompt stable can_start = do
  prior ← query λ db. count_where (λ (r : Run). r.project_id == project) db.runs
  insert_run (new_run env project prompt stable can_start)
  insert_attempt (new_attempt_row env can_start)
  update_run (env.new_id 0) (λ r. record r { active_attempt_id = some (env.new_id 1) })
  init_attempt_stages (env.new_id 0) (env.new_id 1) 1 env.now
  point_project_workflow project (env.new_id 0) (run_workflow_status (first_status can_start))
      env.now
  insert_iteration (new_iteration env project prompt stable)
  if ltb 0 prior then insert_message (edit_message env project prompt) else pure tt
  if can_start then pure (202, Body.run_body (env.new_id 0)) else record_unstarted env

unfoldable pub create_run_body : Env → Key → Text → Option Key → Bool → Tx (ℕ × Body)
create_run_body env project prompt base can_start = do
  let trimmed = trim is_unicode_space prompt
  stable ← create_run_checks project trimmed base
  create_run_writes env project trimmed stable can_start

-- CreateRun; a prompt is the list of its code points.
unfoldable pub create_run : Env → Key → Text → Option Key → ℕ → Bool → Tx IdempotentResult
create_run env project prompt base key can_start =
    run_idempotent env Endpoint.create_run key (create_run_body env project prompt base can_start)

abbrev pub is_retryable_status : RunStatus → Bool
is_retryable_status RunStatus.failed = true
is_retryable_status RunStatus.interrupted = true
is_retryable_status _ = false

abbrev pub is_attempt_of : Key → Attempt → Bool
is_attempt_of run a = a.run_id == run

abbrev pub max_sequence : Key → Db → ℕ
max_sequence run db = max_where (is_attempt_of run) (λ (a : Attempt). a.sequence) db.attempts

abbrev pub activate : Key → Time → Run → Run
activate attempt now r = record r {
  active_attempt_id = some attempt;
  status = RunStatus.running;
  updated_at = now;
}

-- The writes that RetryRun and NewAttempt share: a running attempt with the next sequence, the
-- run's active one.
unfoldable pub start_attempt : Env → Key → ℕ → Tx Attempt
start_attempt env run round = do
  max_seq ← query (max_sequence run)
  let a : Attempt = record {
    id = env.new_id 0;
    run_id = run;
    sequence = max_seq + 1;
    status = RunStatus.running;
    auto_fix_round = round;
    created_at = env.now;
  }
  insert_attempt a
  update_run run (activate a.id env.now)
  init_attempt_stages run a.id a.sequence env.now
  bump_workflow_for_run run WorkflowStatus.running env.now
  pure a

unfoldable pub retry_run_body : Env → Key → Tx (ℕ × Body)
retry_run_body env run = do
  found ← query λ db. run_of db run
  r ← or_fail (coded not_found (codes "run not found") no_details) found
  fail_if (not (is_retryable_status r.status))
      (coded conflict (codes "run is not retryable") (not_retryable r.status run))
  a ← start_attempt env run 0
  pure (202, Body.attempt_body a.id)

unfoldable pub retry_run : Env → Key → ℕ → Tx IdempotentResult
retry_run env run key = run_idempotent env Endpoint.retry_run key (retry_run_body env run)
