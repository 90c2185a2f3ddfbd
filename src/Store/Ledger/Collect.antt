-- ===== src/Store/Ledger/Collect.antt =====
-- The garbage collection of the ledger (`GCIdempotency` of internal/store/idempotency.go).
use vibe_forge.Base.{ℕ, ◌+◌, ◌≡◌, refl, Bool, true, some, List, [], ◌∷◌, arith, leb}
use vibe_forge.Contract.{ttl_seconds}
use vibe_forge.Store.Model.{Body, Endpoint, LedgerRow, Db, Env}
use vibe_forge.Store.Table.{first_where, select_where}
use vibe_forge.Store.Tx.{Tx, ok, ◌>>=◌}
use vibe_forge.Store.Tx.Triple.{Triple, on_modify}
use vibe_forge.Store.Ledger.{is_record, within_ttl, run_idempotent, on_hit, gc_idempotency}

-- Rows that the first match is not among may go.
first_where-select {ℓ} :
    {R : Type ℓ} (test stays : R → Bool) (rows : List R) (r : R)
    → first_where test rows ≡ some r
    → stays r ≡ true
    → first_where test (select_where stays rows) ≡ some r
unfolding first_where select_where
first_where-select test stays [] r e s = e
first_where-select test stays (q ∷ rows) r e s =
    ground (arith, first_where-select test stays rows r)

collected :
    (env : Env) (key : ℕ) (e : Endpoint) (r : LedgerRow)
    → within_ttl env.now r.created_at ≡ true
    → Triple
        (λ db. first_where (is_record key e) db.ledger ≡ some r)
        (gc_idempotency env.now)
        (λ _ db. first_where (is_record key e) db.ledger ≡ some r)
unfolding gc_idempotency within_ttl
collected env key e r w = on_modify _ λ db h.
    first_where-select (is_record key e) (λ q. leb env.now (q.created_at + ttl_seconds)) db.ledger r
      h (ground arith)

-- The collection never takes a record that a repeated key would still replay: where the record of
-- a key is within its time to live, the call behind a collection at that moment replays it and
-- writes nothing.
pub gc_idempotency-replay :
    (env : Env) (key : ℕ) (e : Endpoint) (fn : Tx (ℕ × Body)) (r : LedgerRow) (db db' : Db)
    → first_where (is_record key e) db.ledger ≡ some r
    → within_ttl env.now r.created_at ≡ true
    → gc_idempotency env.now db ≡ ok (tt, db')
    → run_idempotent env e key fn db'
      ≡ ok (record { status = r.status_code; body = r.response_body; replayed = true }, db')
unfolding run_idempotent on_hit ◌>>=◌
gc_idempotency-replay env key e fn r db db' found w gone =
    let still : first_where (is_record key e) db'.ledger ≡ some r =
      (collected env key e r w).at db found tt db' gone in
    rw (still, w) refl
