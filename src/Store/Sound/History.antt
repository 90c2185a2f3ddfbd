-- ===== src/Store/Sound/History.antt =====
-- The invariant of the stable version over a whole history of operations.
use vibe_forge.Base.{◌≡◌, true, some}
use vibe_forge.Store.Model.{Key, Version, Db, Env, empty_db, is_stable}
use vibe_forge.Store.Table.{by_key, first_where}
use vibe_forge.Store.Operation.{Operation, perform, Reached, at_start, next}
use vibe_forge.Store.Tx.Keeps.{in_tx-keeps}
use vibe_forge.Store.Frame.{On, gc-Keeps}
use vibe_forge.Store.Rows.{version_of}
use vibe_forge.Store.Sound.Tables.{Kept, serves, stable_of}
use vibe_forge.Store.Sound.Steps.{Sound}
use vibe_forge.Store.Sound.Commits.{commit_version_steps-Sound, fail_version-Sound}
use vibe_forge.Store.Sound.Drafts.{
  create_draft_version-Sound, promote_draft_version-Sound, fail_draft_version-Sound,
  begin_attempt-Keeps, fail_run-Keeps, new_attempt-Keeps,
}
use vibe_forge.Store.Sound.Edits.{write_file-Sound, restore_version-Sound}
use vibe_forge.Store.Sound.Life.{
  create_project-Sound, create_run-Keeps, retry_run-Keeps, append_message-Keeps,
  record_stage_artifact-Keeps, record_compile_result-Keeps, append_event-Keeps,
  set_run_status-Keeps, mark_interrupted-Keeps,
}
use vibe_forge.Store.Sound.Reads.{get_project-Sound}

module _ {K : Kept} where
  perform-Sound :
      (env : Env) (op : Operation) (db : Db) → On (Sound K) db → On (Sound K) (perform env op db)
  unfolding perform
  perform-Sound env (Operation.create_project title prompt key) db h =
      in_tx-keeps _ (create_project-Sound env title prompt key) db h
  perform-Sound env (Operation.create_run project prompt base key can_start) db h =
      in_tx-keeps _ (create_run-Keeps (Sound K) env project prompt base key can_start) db h
  perform-Sound env (Operation.retry_run run key) db h =
      in_tx-keeps _ (retry_run-Keeps (Sound K) env run key) db h
  perform-Sound env (Operation.append_message project role content) db h =
      in_tx-keeps _ (append_message-Keeps (Sound K) env project role content) db h
  perform-Sound env (Operation.record_stage_artifact run attempt stage type ref) db h =
      in_tx-keeps _ (record_stage_artifact-Keeps (Sound K) env run attempt stage type ref) db h
  perform-Sound env (Operation.record_compile_result run attempt ref) db h =
      in_tx-keeps _ (record_compile_result-Keeps (Sound K) env run attempt ref) db h
  perform-Sound env (Operation.append_event run type payload) db h =
      in_tx-keeps _ (append_event-Keeps (Sound K) env run type payload) db h
  perform-Sound env (Operation.set_run_status run status) db h =
      in_tx-keeps _ (set_run_status-Keeps (Sound K) env run status) db h
  perform-Sound env Operation.mark_active_runs_interrupted db h =
      in_tx-keeps _ (mark_interrupted-Keeps (Sound K) env) db h
  perform-Sound env (Operation.commit_version input point) db h =
      in_tx-keeps _ (commit_version_steps-Sound env input point) db h
  perform-Sound env (Operation.fail_version input) db h =
      in_tx-keeps _ (fail_version-Sound env input) db h
  perform-Sound env (Operation.restore_version project version key) db h =
      in_tx-keeps _ (restore_version-Sound env project version key) db h
  perform-Sound env (Operation.create_draft_version project iteration files) db h =
      in_tx-keeps _ (create_draft_version-Sound env project iteration files) db h
  perform-Sound env (Operation.promote_draft_version draft run attempt) db h =
      in_tx-keeps _ (promote_draft_version-Sound env draft run attempt) db h
  perform-Sound env (Operation.fail_draft_version draft run attempt) db h =
      in_tx-keeps _ (fail_draft_version-Sound env draft run attempt) db h
  perform-Sound env (Operation.begin_attempt run attempt) db h =
      in_tx-keeps _ (begin_attempt-Keeps (Sound K) env run attempt) db h
  perform-Sound env (Operation.fail_run run) db h =
      in_tx-keeps _ (fail_run-Keeps (Sound K) env run) db h
  perform-Sound env (Operation.new_attempt run round) db h =
      in_tx-keeps _ (new_attempt-Keeps (Sound K) env run round) db h
  perform-Sound env (Operation.write_file project content base key) db h =
      in_tx-keeps _ (write_file-Sound env project content base key) db h
  perform-Sound env (Operation.get_project project) db h =
      in_tx-keeps _ (get_project-Sound env project) db h
  perform-Sound env Operation.gc_idempotency_keys db h =
      in_tx-keeps _ (gc-Keeps (Sound K) env.now) db h

  history-Sound : {start db : Db} → Reached start db → On (Sound K) start → On (Sound K) db
  history-Sound at_start h = h
  history-Sound (next reached env op) h = perform-Sound env op _ (history-Sound reached h)

empty-Sound : On (Sound (λ v. ⊥)) empty_db
unfolding by_key first_where
empty-Sound = record {
  at = λ p v e. absurd (cc);
  keyed = λ test w e. absurd (cc);
  lasts = λ w k e. absurd k;
}

-- In the tables that any sequence of operations reaches from empty ones, failed and rolled back
-- transactions included, the stable version of a project, where it has one, is a stored version of
-- that project with the status `stable`.
pub reached-serves :
    {db : Db}
    → Reached empty_db db
    → (project version : Key) → stable_of project db.projects ≡ some version
    → serves (version_of db version) project ≡ true
reached-serves reached project version e = (history-Sound reached empty-Sound).at project version e

-- A version that is stable in tables reached from empty ones is stored unchanged, its status, its
-- project, its iteration and its digest included, after every further sequence of operations.
pub stable_version-lasts :
    {db later : Db}
    → Reached empty_db db
    → Reached db later
    → (v : Version) → version_of db v.id ≡ some v
    → is_stable v.status ≡ true
    → version_of later v.id ≡ some v
stable_version-lasts {db} reached further v e s =
    let here : On (Sound (λ v. ⊥)) db = history-Sound reached empty-Sound in
    let there : On (Sound (λ w. version_of db w.id ≡ some w)) db = record {
      at = here.at;
      keyed = here.keyed;
      lasts = λ w k t. k;
    } in
    (history-Sound further there).lasts v e s
