-- ===== src/Store/Scenario.antt =====
-- A small history for the tests: a project, its run, and the commit of its first version.
use vibe_forge.Base.{ℕ, ◌+◌, ◌≡◌, refl, true, none, some, [], codes}
use vibe_forge.Store.Model.{
  Project, ProjectStatus, Run, RunStatus, Version, VersionStatus, Iteration, Kind, Db, Env,
  empty_db,
}
use vibe_forge.Store.Table.{max_where, count_where, update_where}
use vibe_forge.Store.Rows.{iteration_of, project_of, version_of, base_holds}
use vibe_forge.Store.Runs.{active_run_of, create_run_body, is_event_of}
use vibe_forge.Store.Events.{
  append_event, list_events, mark_active_runs_interrupted, is_active_run, interrupt, is_event_after,
}
use vibe_forge.Store.Ledger.{within_ttl, IdempotentResult, run_idempotent}
use vibe_forge.Store.Versions.{
  CommitInput, fail_none, commit_version, fail_version, restore_version_body,
}
use vibe_forge.Store.Drafts.{fail_draft_version, fail_run}
use vibe_forge.Store.Files.{write_file_body}
use vibe_forge.Store.Operation.{Operation, perform, Reached, at_start, next}
use vibe_forge.Store.Sound.Tables.{stable_of}
use vibe_forge.Store.Tx.{Tx, pure, in_tx, ok}

-- At second `t`, with the identifiers from `t` on; the digest is the text itself.
abbrev pub env_at : ℕ → Env
env_at t = record { now = t; new_id = λ n. t + n; sha256 = λ s. s }

-- The project 100 and its run 200, with the iteration 202; then the version 300.
abbrev pub created : Db
created = perform (env_at 100) (Operation.create_project [] (codes "a counter") 1) empty_db

abbrev pub running : Db
running = perform (env_at 200) (Operation.create_run 100 (codes "a counter") none 2 true) created

abbrev pub commit_input : CommitInput
commit_input = record {
  project_id = 100;
  iteration_id = 202;
  run_id = some 200;
  attempt_id = some 201;
  files = [];
}

abbrev pub committed : Db
committed = perform (env_at 300) (Operation.commit_version commit_input fail_none) running

abbrev pub reached_running : Reached empty_db running
reached_running = next (next at_start (env_at 100) _) (env_at 200) _

abbrev pub reached_committed : Reached empty_db committed
reached_committed = next reached_running (env_at 300) _

-- Opens the code of the store.
unfoldable pub store_code : Unit {0}
unfolding vibe_forge.Store.Table.first_where vibe_forge.Store.Table.select_where
    vibe_forge.Store.Table.update_where vibe_forge.Store.Table.count_where
    vibe_forge.Store.Table.max_where vibe_forge.Store.Table.by_key vibe_forge.Store.Table.update_key
    vibe_forge.Store.Tx.pure vibe_forge.Store.Tx.fail vibe_forge.Store.Tx.query
    vibe_forge.Store.Tx.or_fail vibe_forge.Store.Tx.fail_if vibe_forge.Store.Tx.modify
    vibe_forge.Store.Tx.write_if vibe_forge.Store.Tx.◌>>=◌ vibe_forge.Store.Tx.in_tx
    vibe_forge.Store.Rows.insert_project vibe_forge.Store.Rows.insert_message
    vibe_forge.Store.Rows.insert_run vibe_forge.Store.Rows.update_run
    vibe_forge.Store.Rows.insert_attempt vibe_forge.Store.Rows.update_attempts
    vibe_forge.Store.Rows.insert_artifact vibe_forge.Store.Rows.insert_iteration
    vibe_forge.Store.Rows.set_iteration_result vibe_forge.Store.Rows.insert_version
    vibe_forge.Store.Rows.set_version_status vibe_forge.Store.Rows.insert_file
    vibe_forge.Store.Rows.insert_files vibe_forge.Store.Rows.insert_event
    vibe_forge.Store.Rows.cas_stable vibe_forge.Store.Pointer.run_workflow_status
    vibe_forge.Store.Pointer.init_project_workflow vibe_forge.Store.Pointer.point_project_workflow
    vibe_forge.Store.Pointer.bump_followers vibe_forge.Store.Pointer.bump_workflow_for_run
    vibe_forge.Store.Pointer.bump_project_workflow_snapshot vibe_forge.Store.Stages.add_waiting
    vibe_forge.Store.Stages.init_attempt_stages vibe_forge.Store.Stages.latest_attempt
    vibe_forge.Store.Stages.active_attempt vibe_forge.Store.Stages.set_stage_state_for_attempt
    vibe_forge.Store.Stages.set_stage_state vibe_forge.Store.Stages.apply_workflow_event
    vibe_forge.Store.Ledger.within_ttl vibe_forge.Store.Ledger.record_result
    vibe_forge.Store.Ledger.run_fresh vibe_forge.Store.Ledger.evict vibe_forge.Store.Ledger.on_hit
    vibe_forge.Store.Ledger.run_idempotent vibe_forge.Store.Ledger.gc_idempotency
    vibe_forge.Store.Runs.refuse_active vibe_forge.Store.Runs.create_run_checks
    vibe_forge.Store.Runs.record_unstarted vibe_forge.Store.Runs.create_run_writes
    vibe_forge.Store.Runs.create_run_body vibe_forge.Store.Runs.create_run
    vibe_forge.Store.Runs.start_attempt vibe_forge.Store.Runs.retry_run_body
    vibe_forge.Store.Runs.retry_run vibe_forge.Store.Events.get_active_run
    vibe_forge.Store.Events.append_message vibe_forge.Store.Events.record_stage_artifact
    vibe_forge.Store.Events.record_compile_result vibe_forge.Store.Events.append_event
    vibe_forge.Store.Events.insert_by_seq vibe_forge.Store.Events.sort_by_seq
    vibe_forge.Store.Events.list_events vibe_forge.Store.Events.set_run_status
    vibe_forge.Store.Events.cancel_stages vibe_forge.Store.Events.cancel_workflows
    vibe_forge.Store.Events.interrupt_runs vibe_forge.Store.Events.mark_active_runs_interrupted
    vibe_forge.Store.Hash.insert_by_path vibe_forge.Store.Hash.sort_by_path
    vibe_forge.Store.Hash.hashed_bytes vibe_forge.Store.Hash.files_hash
    vibe_forge.Store.Versions.fetch_version vibe_forge.Store.Versions.settle_run
    vibe_forge.Store.Versions.commit_new_version vibe_forge.Store.Versions.commit_version_steps
    vibe_forge.Store.Versions.commit_version vibe_forge.Store.Versions.fail_new_version
    vibe_forge.Store.Versions.fail_version vibe_forge.Store.Versions.restore_version_body
    vibe_forge.Store.Versions.restore_version vibe_forge.Store.Drafts.create_draft_version
    vibe_forge.Store.Drafts.find_draft vibe_forge.Store.Drafts.promote_from
    vibe_forge.Store.Drafts.promote vibe_forge.Store.Drafts.promote_draft_version
    vibe_forge.Store.Drafts.fail_draft vibe_forge.Store.Drafts.fail_draft_version
    vibe_forge.Store.Drafts.begin_attempt vibe_forge.Store.Drafts.fail_run
    vibe_forge.Store.Drafts.new_attempt vibe_forge.Store.Drafts.get_run
    vibe_forge.Store.Drafts.get_attempt vibe_forge.Store.Drafts.get_active_attempt
    vibe_forge.Store.Drafts.get_attempt_by_sequence vibe_forge.Store.Drafts.get_run_iteration
    vibe_forge.Store.Drafts.get_project_stable vibe_forge.Store.Files.apply_override
    vibe_forge.Store.Files.read_version_files vibe_forge.Store.Files.write_file_checks
    vibe_forge.Store.Files.write_draft vibe_forge.Store.Files.accept_edit
    vibe_forge.Store.Files.reject_edit vibe_forge.Store.Files.write_file_body
    vibe_forge.Store.Files.write_file vibe_forge.Store.Files.list_files
    vibe_forge.Store.Projects.shorten vibe_forge.Store.Projects.derive_title
    vibe_forge.Store.Projects.create_project_writes vibe_forge.Store.Projects.create_project_body
    vibe_forge.Store.Projects.create_project vibe_forge.Store.Provenance.walk
    vibe_forge.Store.Provenance.preview_workflow_run vibe_forge.Store.Recovery.latest_run
    vibe_forge.Store.Recovery.last_attempt vibe_forge.Store.Recovery.events_seen
    vibe_forge.Store.Recovery.artifacts_seen vibe_forge.Store.Recovery.historical_evidence
    vibe_forge.Store.Recovery.recovered_status vibe_forge.Store.Recovery.insert_stage_run
    vibe_forge.Store.Recovery.insert_workflow vibe_forge.Store.Recovery.backfill_stages
    vibe_forge.Store.Recovery.recover_run vibe_forge.Store.Recovery.recover_workflow
    vibe_forge.Store.Reconcile.open_conflict_codes vibe_forge.Store.Reconcile.stage_conflicts
    vibe_forge.Store.Reconcile.conflicts_of vibe_forge.Store.Reconcile.record_conflicts
    vibe_forge.Store.Reconcile.write_conflicts vibe_forge.Store.Reconcile.resolve_conflicts
    vibe_forge.Store.Reconcile.unique_codes vibe_forge.Store.Reconcile.settle_conflicts
    vibe_forge.Store.Reconcile.reconcile_run vibe_forge.Store.Reconcile.reconcile_consistency
    vibe_forge.Store.Snapshot.load_latest_stages vibe_forge.Store.Snapshot.artifacts_for_run_attempt
    vibe_forge.Store.Snapshot.last_artifact vibe_forge.Store.Snapshot.hydrate
    vibe_forge.Store.Snapshot.project_rows vibe_forge.Store.Snapshot.last_run
    vibe_forge.Store.Snapshot.detail vibe_forge.Store.Snapshot.load_workflow_snapshot
    vibe_forge.Store.Snapshot.touch_project vibe_forge.Store.Snapshot.get_project
    vibe_forge.Store.Snapshot.list_projects vibe_forge.Store.Table.insert_by
    vibe_forge.Store.Table.sort_by vibe_forge.Store.Operation.perform
store_code = tt

pub committed_stable : stable_of 100 committed.projects ≡ some 300
unfolding store_code
committed_stable = refl

abbrev pub first_version : Version
first_version = record {
  id = 300;
  project_id = 100;
  iteration_id = 202;
  status = VersionStatus.stable;
  files_hash = some [];
  created_at = 300;
}

pub committed_holds : version_of committed 300 ≡ some first_version
unfolding store_code
committed_holds = refl

abbrev pub first_iteration : Iteration
first_iteration = record {
  id = 202;
  project_id = 100;
  run_id = some 200;
  kind = Kind.agent;
  base_version_id = none;
  result_version_id = none;
  prompt = some (codes "a counter");
  created_at = 200;
}

pub running_iteration : iteration_of running 202 ≡ some first_iteration
unfolding store_code
running_iteration = refl

abbrev pub active : Run
active = record {
  id = 200;
  project_id = 100;
  status = RunStatus.queued;
  prompt = codes "a counter";
  base_version_id = none;
  active_attempt_id = some 201;
  created_at = 200;
  updated_at = 200;
}

pub busy_now : active_run_of 100 running ≡ some active
unfolding store_code
busy_now = refl

abbrev pub owner : Project
owner = record {
  id = 100;
  title = codes "a counter";
  status = ProjectStatus.active;
  stable_version_id = some 300;
  created_at = 100;
  updated_at = 300;
}

pub row_of_100 : project_of committed 100 ≡ some owner
unfolding store_code
row_of_100 = refl
