-- ===== src/Api/Handlers/Launch.antt =====
-- How often the agent loop is started for a request (createRun and retryRun of internal/api).
use vibe_forge.Base.{
  ℕ, ◌≡◌, ◌⊎◌, refl, ap, Bool, true, false, Option, none, some, Text, arith, Bool-cases, inl, inr,
}
use vibe_forge.Store.Model.{Key, Body, Endpoint, LedgerRow, Db, Env}
use vibe_forge.Store.Tx.{Tx, Result, ok, err, settle, in_tx, ◌>>◌}
use vibe_forge.Store.Tx.Triple.{Triple, after, after_any, on_if, on_pure}
use vibe_forge.Store.Ledger.{
  IdempotentResult, within_ttl, is_success, run_fresh, evict, on_hit, run_idempotent,
}
use vibe_forge.Store.Ledger.Replay.{run_idempotent-replay}
use vibe_forge.Store.Runs.{
  create_run_body, create_run_writes, record_unstarted, retry_run_body, start_attempt,
}
use vibe_forge.Store.Runs
use vibe_forge.Api.Handlers.{
  Server, decoded, Handled, respond, RunBody, idempotency_key, launch_if, run_named, stored,
  with_store, after_create, create_run,
}

abbrev Succeeds : ℕ × Body → Db → Type 0
Succeeds outcome db = is_success outcome.0 ≡ true

-- A fresh outcome succeeds.
abbrev FreshSucceeds : IdempotentResult → Db → Type 0
FreshSucceeds r db = r.replayed ≡ false → is_success r.status ≡ true

module _ (env : Env) (e : Endpoint) (key : ℕ) (fn : Tx (ℕ × Body))
    (succeeds : Triple (λ db. Unit {0}) fn Succeeds) where
  run_fresh-FreshSucceeds : Triple (λ db. Unit {0}) (run_fresh env e key fn) FreshSucceeds
  unfolding run_fresh
  run_fresh-FreshSucceeds = after fn _ succeeds λ o.
      after {R = λ u db. is_success o.0 ≡ true} _ _ (record { at = λ db h u db' q. h })
        λ u. on_pure _ λ db h fresh. h

  on_hit-FreshSucceeds :
      (o : Option LedgerRow) → Triple (λ db. Unit {0}) (on_hit env e key fn o) FreshSucceeds
  unfolding on_hit
  on_hit-FreshSucceeds none = run_fresh-FreshSucceeds
  on_hit-FreshSucceeds (some r) =
      on_if (within_ttl env.now r.created_at) _ (evict key e >> run_fresh env e key fn)
        (λ w. on_pure _ λ db h fresh. absurd (cc))
        (λ w. after_any (evict key e) _ λ u. run_fresh-FreshSucceeds)

  run_idempotent-FreshSucceeds : Triple (λ db. Unit {0}) (run_idempotent env e key fn) FreshSucceeds
  unfolding run_idempotent
  run_idempotent-FreshSucceeds = after_any _ _ λ o. on_hit-FreshSucceeds o

create_run_body-Succeeds :
    (env : Env) (project : Key) (prompt : Text) (base : Option Key) (can_start : Bool)
    → can_start ≡ true
    → Triple (λ db. Unit {0}) (create_run_body env project prompt base can_start) Succeeds
unfolding create_run_body create_run_writes
create_run_body-Succeeds env project prompt base can_start t = rw (t) (
    after_any _ _ λ stable. after_any _ _ λ prior. after_any _ _ λ u1. after_any _ _ λ u2.
      after_any _ _ λ u3.
        after_any _ _
          λ u4. after_any _ _ λ u5. after_any _ _ λ u6. after_any _ _ λ u7. on_pure _ λ db h. refl)

abbrev as_replay : IdempotentResult → IdempotentResult
as_replay r = record { status = r.status; body = r.body; replayed = true }

-- A launch is one of a transaction that committed, and that was no replay.
launch-fresh :
    (r : Bool) (has_loop : Bool) (named : Option Key) (run : Key)
    → launch_if r has_loop named ≡ some run
    → r ≡ false
launch-fresh true has_loop named run h = absurd (ground arith)
launch-fresh false has_loop named run h = refl

abbrev Committed : Tx IdempotentResult → Db → Type 0
Committed m db = (r : IdempotentResult) × (db' : Db) × (m db ≡ ok (r, db')) × (r.replayed ≡ false)

create-Committed :
    (server : Server) (m : Tx IdempotentResult) (db : Db) (run : Key)
    → (after_create server (in_tx m db)).launched ≡ some run
    → Committed m db × (server.model_configured ≡ true)
unfolding in_tx
create-Committed server m db run = settled (m db) refl (Bool-cases server.model_configured)
  where
    settled :
        (r : Result (IdempotentResult × Db))
        → m db ≡ r
        → (server.model_configured ≡ true) ⊎ (server.model_configured ≡ false)
        → (after_create server (settle db r)).launched ≡ some run
        → Committed m db × (server.model_configured ≡ true)
    settled (err x) e c h = absurd (ground arith)
    settled (ok (r, db')) e (inl t) h =
        ((r, db', e, launch-fresh r.replayed server.has_loop _ run (rw (t) at h)), t)
    settled (ok (r, db')) e (inr f) h = absurd (ground arith)

in_tx-ok :
    {A : Type 0} (m : Tx A) (db db' : Db) (a : A) → m db ≡ ok (a, db') → in_tx m db ≡ (ok a, db')
unfolding in_tx
in_tx-ok m db db' a e = ap (settle db) e

-- The second transaction under the key of a fresh success.
module _ (env later : Env) (e : Endpoint) (key : ℕ) (fn again : Tx (ℕ × Body))
    (succeeds : Triple (λ db. Unit {0}) fn Succeeds) where
  second_replays :
      (db db' : Db) (r : IdempotentResult)
      → run_idempotent env e key fn db ≡ ok (r, db')
      → r.replayed ≡ false
      → within_ttl later.now env.now ≡ true
      → in_tx (run_idempotent later e key again) db' ≡ (ok (as_replay r), db')
  second_replays db db' r h fresh w = in_tx-ok _ db' db' _ (
      run_idempotent-replay env later e key fn again db db' r h fresh
        ((run_idempotent-FreshSucceeds env e key fn succeeds).at db tt r db' h fresh) w)

-- Where a create request starts the loop for a run, the server has its store.
store_there :
    (server : Server) (db : Db) (rest : Handled) (run : Key)
    → (with_store server db rest).launched ≡ some run
    → (server.has_store ≡ true) × (rest.launched ≡ some run)
store_there server db rest run h = elim (Bool-cases server.has_store) [
  | inl t ↦ (t, rw (t) at h)
  | inr f ↦ absurd (ground arith)
]

module _ (server : Server) (env later : Env) (project other : Key) (header header2 : Option ℕ)
    (body again : RunBody) (key : ℕ) (k : idempotency_key header body.body_key ≡ some key)
    (k2 : idempotency_key header2 again.body_key ≡ some key) (db : Db)
    (w : within_ttl later.now env.now ≡ true) where
  abbrev creation : Tx IdempotentResult
  creation =
      Runs.create_run env project body.prompt body.base_version_id key server.model_configured

  -- The first request and the second, where the first one committed.
  abbrev first_create : Handled
  first_create = create_run server env project header (decoded body) db

  abbrev second_create : Db → Handled
  second_create = create_run server later other header2 (decoded again)

  module _ (r : IdempotentResult) (db' : Db) (there : server.has_store ≡ true)
      (configured : server.model_configured ≡ true) (e : creation db ≡ ok (r, db')) where
    created_first : first_create ≡ record {
      response = stored r;
      db = db';
      launched = launch_if r.replayed server.has_loop (run_named r.body);
    }
    unfolding create_run
    created_first = rw (k, in_tx-ok creation db db' r e, configured, there) refl

    created_second : r.replayed ≡ false → second_create db' ≡ respond (stored r) db'
    unfolding create_run Runs.create_run
    created_second fresh =
        let second =
          second_replays env later Endpoint.create_run key
            (create_run_body env project body.prompt body.base_version_id server.model_configured)
            (create_run_body later other again.prompt again.base_version_id server.model_configured)
            (create_run_body-Succeeds env project body.prompt body.base_version_id
              server.model_configured configured)
            db db' r e fresh w in
        rw (k2, second, configured, there) refl

    repeated_create :
        r.replayed ≡ false
        → second_create first_create.db ≡ respond first_create.response first_create.db
    repeated_create fresh = rw (created_first) (created_second fresh)

  ran :
      (run : Key)
      → first_create.launched ≡ some run
      → (server.has_store ≡ true) × ((after_create server (in_tx creation db)).launched ≡ some run)
  unfolding create_run Runs.create_run
  ran run h = let there = store_there server db _ run h in (there.0, rw (k) at there.1)

-- A request that creates a run starts the agent loop once: where it started the loop, a request with
-- the same key, less than the time to live later, whatever project and prompt it names, gets the same
-- response, changes no table and starts nothing.
pub create_run-launches_once :
    (server : Server) (env later : Env) (project other : Key) (header header2 : Option ℕ)
    (body again : RunBody) (key : ℕ) (db : Db) (run : Key)
    → idempotency_key header body.body_key ≡ some key
    → idempotency_key header2 again.body_key ≡ some key
    → (create_run server env project header (decoded body) db).launched ≡ some run
    → within_ttl later.now env.now ≡ true
    → create_run server later other header2
        (decoded again)
        (create_run server env project header (decoded body) db).db
      ≡ respond
          (create_run server env project header (decoded body) db).response
          (create_run server env project header (decoded body) db).db
create_run-launches_once server env later project other header header2 body again key db run k k2 h
      w =
    let (there, started) =
      ran server env later project other header header2 body again key k k2 db w run h in
    let (committed, configured) = create-Committed server _ db run started in
    let (r, db', e, fresh) = committed in
    repeated_create server env later project other header header2 body again key k k2 db w r db'
      there configured e fresh
