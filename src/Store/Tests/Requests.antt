-- ===== src/Store/Tests/Requests.antt =====
-- internal/store: instances of the theorems on the ledger, on edits and on projects.
use vibe_forge.Base.{ℕ, ◌≡◌, refl, true, false, none, some, Text, codes}
use vibe_forge.Compile.Validate.{blank_from, validate}
use vibe_forge.Store.Model.{Body, Endpoint, Db, empty_db}
use vibe_forge.Store.Ledger.{within_ttl, IdempotentResult, run_idempotent}
use vibe_forge.Store.Ledger.Replay.{run_idempotent-replay}
use vibe_forge.Store.Files.{write_file_body}
use vibe_forge.Store.Files.Gate.{write_file-gate}
use vibe_forge.Store.Operation.{Operation, perform}
use vibe_forge.Store.Sound.Tables.{stable_of}
use vibe_forge.Store.Tx.{Tx, pure, in_tx, ok}
use vibe_forge.Store.Scenario.{env_at, committed, store_code}
use vibe_forge.Store.Table.{first_where}
use vibe_forge.Store.Model.{LedgerRow}
use vibe_forge.Store.Ledger.{is_record, gc_idempotency}
use vibe_forge.Store.Ledger.Collect.{gc_idempotency-replay}

abbrev answer : Tx (ℕ × Body)
answer = pure (202, Body.run_body 7)

abbrev answered : IdempotentResult
answered = record { status = 202; body = Body.run_body 7; replayed = false }

abbrev answered_db : Db
answered_db = (in_tx (run_idempotent (env_at 100) Endpoint.create_run 9 answer) empty_db).1

answer_runs :
    run_idempotent (env_at 100) Endpoint.create_run 9 answer empty_db ≡ ok (answered, answered_db)
unfolding store_code
answer_runs = refl

within : within_ttl 129 100 ≡ true
unfolding store_code
within = refl

run_idempotent-replay_example :
    run_idempotent (env_at 129) Endpoint.create_run 9 answer answered_db
    ≡ ok (record { status = 202; body = Body.run_body 7; replayed = true }, answered_db)
run_idempotent-replay_example =
    run_idempotent-replay (env_at 100) (env_at 129) Endpoint.create_run 9 answer answer empty_db
      answered_db answered answer_runs refl refl within

abbrev blank_edit : Text
blank_edit = codes " "

abbrev refusal : ℕ × Body
refusal = (422, Body.compile_errors_body (validate blank_edit).errors)

abbrev edited : Db
edited = (in_tx (write_file_body (env_at 500) 100 blank_edit none) committed).1

edit_runs : write_file_body (env_at 500) 100 blank_edit none committed ≡ ok (refusal, edited)
unfolding store_code validate blank_from
edit_runs = refl

write_file-gate_example :
    ((validate blank_edit).pass ≡ false
      → (◌≡◌ {A = ℕ × Body} refusal refusal) × (edited.projects ≡ committed.projects))
    × ((validate blank_edit).pass ≡ true
        → (◌≡◌ {A = ℕ} 422 202) × (stable_of 100 edited.projects ≡ some 501))
write_file-gate_example =
    write_file-gate (env_at 500) 100 blank_edit none committed edited refusal edit_runs

abbrev answer_row : LedgerRow
answer_row = record {
  key = 9;
  endpoint = Endpoint.create_run;
  status_code = 202;
  response_body = Body.run_body 7;
  created_at = 100;
}

answered_row : first_where (is_record 9 Endpoint.create_run) answered_db.ledger ≡ some answer_row
unfolding store_code
answered_row = refl

abbrev collected : Db
collected = perform (env_at 129) Operation.gc_idempotency_keys answered_db

collection_runs : gc_idempotency 129 answered_db ≡ ok (tt, collected)
unfolding store_code
collection_runs = refl

gc_idempotency-replay_example :
    run_idempotent (env_at 129) Endpoint.create_run 9 answer collected
    ≡ ok (record { status = 202; body = Body.run_body 7; replayed = true }, collected)
gc_idempotency-replay_example =
    gc_idempotency-replay (env_at 129) 9 Endpoint.create_run answer answer_row answered_db collected
      answered_row within collection_runs
