-- ===== src/Store/Ledger/Replay.antt =====
-- What a repeated idempotency key returns (internal/store/idempotency.go).
use vibe_forge.Base.{
  ℕ, ◌≡◌, refl, Bool, true, false, not, Option, none, some, List, [], ◌∷◌, ◌++◌, arith,
}
use vibe_forge.Store.Model.{Time, Body, Endpoint, LedgerRow, Db, Env}
use vibe_forge.Store.Table.{first_where}
use vibe_forge.Store.Rows.{is_some}
use vibe_forge.Store.Tx.{Tx, ok, pure, ◌>>=◌, ◌>>◌}
use vibe_forge.Store.Tx.Triple.{Triple, after, after_any, on_if, on_write_if, on_pure, from_after}
use vibe_forge.Store.Ledger.{
  IdempotentResult, is_record, within_ttl, is_success, record_result, run_fresh, evict, on_hit,
  run_idempotent,
}

-- The ledger answers the key with the response, as it was recorded at `now`.
abbrev Answers : ℕ → Endpoint → Time → ℕ → Body → Db → Type 0
Answers key e now status body db =
    first_where (is_record key e) db.ledger
    ≡ some (record {
      key = key;
      endpoint = e;
      status_code = status;
      response_body = body;
      created_at = now;
    })

first_where-append {ℓ} :
    {R : Type ℓ} (test : R → Bool) (rows : List R) (r : R)
    → first_where test rows ≡ none
    → test r ≡ true
    → first_where test (rows ++ r ∷ []) ≡ some r
unfolding first_where
first_where-append test [] r e t = ground arith
first_where-append test (q ∷ rows) r e t = ground (arith, first_where-append test rows r)

is_record_self :
    (key : ℕ) (e : Endpoint) (status : ℕ) (body : Body) (now : Time)
    → is_record key e (record {
      key = key;
      endpoint = e;
      status_code = status;
      response_body = body;
      created_at = now;
    })
      ≡ true
is_record_self key e status body now = ground arith

unfound : (o : Option LedgerRow) → not (is_some o) ≡ true → o ≡ none
unfound none t = refl
unfound (some r) t = cc

record_result-Answers :
    (key : ℕ) (e : Endpoint) (status : ℕ) (body : Body) (now : Time)
    → Triple
        (λ db. Unit {0})
        (record_result key e status body now)
        (λ _. Answers key e now status body)
unfolding record_result
record_result-Answers key e status body now = on_write_if _ _ λ db t h.
    first_where-append (is_record key e) db.ledger _ (unfound _ t)
      (is_record_self key e status body now)

-- A fresh 2xx outcome is in the ledger.
Recorded : Env → Endpoint → ℕ → IdempotentResult → Db → Type 0
Recorded env e key r db =
    r.replayed ≡ false → is_success r.status ≡ true → Answers key e env.now r.status r.body db

run_fresh-Recorded :
    (env : Env) (e : Endpoint) (key : ℕ) (fn : Tx (ℕ × Body))
    → Triple (λ db. Unit {0}) (run_fresh env e key fn) (Recorded env e key)
unfolding run_fresh Recorded
run_fresh-Recorded env e key fn = after_any _ _ λ o.
    after {R = λ u db. is_success o.0 ≡ true → Answers key e env.now o.0 o.1 db} _ _
      (on_if (is_success o.0) (record_result key e o.0 o.1 env.now) (pure tt)
        (λ s. from_after (λ u db a s. a) (record_result-Answers key e o.0 o.1 env.now))
        (λ f. on_pure _ λ db h s. absurd (ground arith)))
      λ u. on_pure _ λ db h fresh s. h s

replayed-Recorded :
    (env : Env) (e : Endpoint) (key : ℕ) (r : LedgerRow)
    → Triple
        (λ db. Unit {0})
        (pure (record { status = r.status_code; body = r.response_body; replayed = true }))
        (Recorded env e key)
unfolding Recorded
replayed-Recorded env e key r = on_pure _ λ db h fresh s. absurd (cc)

on_hit-Recorded :
    (env : Env) (e : Endpoint) (key : ℕ) (fn : Tx (ℕ × Body)) (o : Option LedgerRow)
    → Triple (λ db. Unit {0}) (on_hit env e key fn o) (Recorded env e key)
unfolding on_hit
on_hit-Recorded env e key fn none = run_fresh-Recorded env e key fn
on_hit-Recorded env e key fn (some r) =
    on_if (within_ttl env.now r.created_at) _ (evict key e >> run_fresh env e key fn)
      (λ w. replayed-Recorded env e key r)
      (λ w. after_any (evict key e) _ λ u. run_fresh-Recorded env e key fn)

run_idempotent-Recorded :
    (env : Env) (e : Endpoint) (key : ℕ) (fn : Tx (ℕ × Body))
    → Triple (λ db. Unit {0}) (run_idempotent env e key fn) (Recorded env e key)
unfolding run_idempotent
run_idempotent-Recorded env e key fn = after_any _ _ λ o. on_hit-Recorded env e key fn o

-- What the ledger answers is returned; the handler's body is not run.
replays :
    (env later : Env) (e : Endpoint) (key : ℕ) (fn : Tx (ℕ × Body)) (status : ℕ) (body : Body)
    (db : Db)
    → Answers key e env.now status body db
    → within_ttl later.now env.now ≡ true
    → run_idempotent later e key fn db
      ≡ ok (record { status = status; body = body; replayed = true }, db)
unfolding run_idempotent on_hit ◌>>=◌
replays env later e key fn status body db a w = rw (a, w) refl

-- Where a call under an idempotency key ran its handler and returned a 2xx status, a second call
-- of the endpoint under the same key, less than the time to live later, returns the same status
-- and body as a replay and leaves every table as it is, whatever its own handler would do.
pub run_idempotent-replay :
    (env later : Env) (e : Endpoint) (key : ℕ) (fn again : Tx (ℕ × Body)) (db db' : Db)
    (r : IdempotentResult)
    → run_idempotent env e key fn db ≡ ok (r, db')
    → r.replayed ≡ false
    → is_success r.status ≡ true
    → within_ttl later.now env.now ≡ true
    → run_idempotent later e key again db'
      ≡ ok (record { status = r.status; body = r.body; replayed = true }, db')
unfolding Recorded
run_idempotent-replay env later e key fn again db db' r run fresh s w =
    replays env later e key again r.status r.body db'
      ((run_idempotent-Recorded env e key fn).at db tt r db' run fresh s) w
