-- ===== src/Store/Tests/Life.antt =====
-- internal/store: instances of the theorems on runs and events.
use vibe_forge.Base.{◌≡◌, refl, Bool, true, none, some, [], ◌∷◌, codes, ◌&&◌}
use vibe_forge.Store.Model.{Run, RunStatus, Event, EventType, Payload, Db}
use vibe_forge.Store.Table.{max_where, count_where, update_where}
use vibe_forge.Store.Runs.{active_run_of, create_run_body, is_event_of}
use vibe_forge.Store.Runs.OneActive.{busy_project-refuses}
use vibe_forge.Store.Events.{
  append_event, list_events, mark_active_runs_interrupted, is_active_run, interrupt,
}
use vibe_forge.Base.{◌↔◌, ◌<◌, ltb, ◌==◌}
use vibe_forge.Store.Table.Members.{IsIn}
use vibe_forge.Store.Events.Order.{IsAscending, append_event-resume, list_events_complete}
use vibe_forge.Store.Events.Interrupt.{mark_active_runs_interrupted-all}
use vibe_forge.Store.Versions.{restore_version_body}
use vibe_forge.Store.Files.{write_file_body}
use vibe_forge.Store.Operation.{Operation, perform}
use vibe_forge.Store.Tx.{in_tx, ok}
use vibe_forge.Store.Scenario.{env_at, running, store_code, active, busy_now}
use vibe_forge.Store.Rows.{run_of}
use vibe_forge.Store.Runs.{retry_run_body}
use vibe_forge.Base.{Text, none}
use vibe_forge.Store.Runs.Retry.{retry_run-database_error}
use vibe_forge.Store.Tx.{err}
use vibe_forge.Store.Model.{database}

busy_project-refuses_example :
    ((in_tx (create_run_body (env_at 300) 100 (codes "more") none true) running).1 ≡ running)
    × ((in_tx (write_file_body (env_at 300) 100 (codes "x") none) running).1 ≡ running)
    × ((in_tx (restore_version_body (env_at 300) 100 300) running).1 ≡ running)
busy_project-refuses_example =
    busy_project-refuses (env_at 300) 100 300 (codes "more") (codes "x") none true active running
      busy_now

abbrev started : Payload
started = record { stage = none; code = none }

abbrev start_event : Event
start_event = record {
  id = 300;
  run_id = 200;
  seq = 1;
  type = EventType.run_started;
  payload = started;
  created_at = 300;
}

abbrev started_db : Db
started_db = perform (env_at 300) (Operation.append_event 200 EventType.run_started started) running

append_runs :
    append_event (env_at 300) 200 EventType.run_started started running
    ≡ ok (start_event, started_db)
unfolding store_code
append_runs = refl

append_event-resume_example :
    list_events 200 (max_where (is_event_of 200) (λ (d : Event). d.seq) running.events) started_db
    ≡ start_event ∷ []
append_event-resume_example =
    append_event-resume (env_at 300) 200 EventType.run_started started running started_db
      start_event append_runs

list_events_complete_example :
    IsAscending (list_events 200 0 started_db)
    × ((e : Event)
        → IsIn e (list_events 200 0 started_db)
          ↔ (IsIn e started_db.events × (e.run_id ≡ 200) × (0 < e.seq)))
    × ((test : Event → Bool)
        → count_where test (list_events 200 0 started_db)
          ≡ count_where (λ e. (e.run_id == 200 && ltb 0 e.seq) && test e) started_db.events)
list_events_complete_example = list_events_complete 200 0 started_db

abbrev recovered : Db
recovered = perform (env_at 300) Operation.mark_active_runs_interrupted running

recovery_runs : mark_active_runs_interrupted (env_at 300) running ≡ ok (1, recovered)
unfolding store_code
recovery_runs = refl

mark_active_runs_interrupted-all_example :
    (1 ≡ count_where is_active_run running.runs)
    × (count_where is_active_run recovered.runs ≡ 0)
    × (recovered.runs ≡ update_where is_active_run (interrupt 300) running.runs)
mark_active_runs_interrupted-all_example =
    mark_active_runs_interrupted-all (env_at 300) running recovered 1 recovery_runs

-- A failed run 199 of the project, beside the queued one.
abbrev failed_run : Run
failed_run = record active { id = 199; status = RunStatus.failed }

abbrev beside : Db
beside = record running { runs = failed_run ∷ active ∷ [] }

beside_failed : run_of beside 199 ≡ some failed_run
unfolding store_code
beside_failed = refl

still_busy : active_run_of 100 beside ≡ some active
unfolding store_code
still_busy = refl

retry_run-database_error_example : retry_run_body (env_at 300) 199 beside ≡ err database
retry_run-database_error_example =
    retry_run-database_error (env_at 300) 199 failed_run active beside beside_failed refl still_busy

-- A second prompt, once the first run is done.
abbrev second_prompt : Text
second_prompt = codes " more "
