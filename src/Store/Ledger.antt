-- ===== src/Store/Ledger.antt =====
-- internal/store/idempotency.go: the ledger of idempotency keys.
pub mod Replay
pub mod Collect
use vibe_forge.Base.{
  ℕ, ◌+◌, ◌-◌, Bool, true, false, ◌&&◌, not, Option, none, some, [], ◌∷◌, ◌++◌, leb, ltb, ◌==◌,
  if◌then◌else◌,
}
use vibe_forge.Contract.{ttl_seconds}
use vibe_forge.Store.Model.{
  Time, Body, Endpoint, create_project, create_run, retry_run, write_file, restore_version,
  LedgerRow, Env,
}
use vibe_forge.Store.Table.{first_where, select_where}
use vibe_forge.Store.Rows.{is_some}
use vibe_forge.Store.Tx.{Tx, pure, query, modify, write_if, ◌>>=◌, ◌>>◌}

pub record IdempotentResult : Type 0 where
  pub status : ℕ
  pub body : Body
  pub replayed : Bool

abbrev endpoint_number : Endpoint → ℕ
endpoint_number create_project = 0
endpoint_number create_run = 1
endpoint_number retry_run = 2
endpoint_number write_file = 3
endpoint_number restore_version = 4

-- WHERE key = ? AND endpoint = ?
abbrev pub is_record : ℕ → Endpoint → LedgerRow → Bool
is_record key endpoint r = r.key == key && endpoint_number r.endpoint == endpoint_number endpoint

-- `s.now().Sub(t) < ttl`: where the stored time lies ahead, the difference is negative in Go and 0
-- here, and both are below the limit.
unfoldable pub within_ttl : Time → Time → Bool
within_ttl now created_at = ltb (now - created_at) ttl_seconds

abbrev pub is_success : ℕ → Bool
is_success status = leb 200 status && ltb status 300

unfoldable pub record_result : ℕ → Endpoint → ℕ → Body → Time → Tx (Unit {0})
record_result key endpoint status body now =
    write_if (λ db. not (is_some (first_where (is_record key endpoint) db.ledger)))
      (λ db. record db {
        ledger =
            db.ledger
            ++ record {
              key = key;
              endpoint = endpoint;
              status_code = status;
              response_body = body;
              created_at = now;
            }
              ∷ [];
      })

-- The handler's body, and the record of a 2xx outcome.
unfoldable pub run_fresh : Env → Endpoint → ℕ → Tx (ℕ × Body) → Tx IdempotentResult
run_fresh env endpoint key fn = do
  outcome ← fn
  if is_success outcome.0 then record_result key endpoint outcome.0 outcome.1 env.now else pure tt
  pure (record { status = outcome.0; body = outcome.1; replayed = false })

unfoldable pub evict : ℕ → Endpoint → Tx (Unit {0})
evict key endpoint =
    modify λ db. record db { ledger = select_where (λ r. not (is_record key endpoint r)) db.ledger }

-- What to do with the record found: replay it, or evict it and start afresh.
unfoldable pub on_hit : Env → Endpoint → ℕ → Tx (ℕ × Body) → Option LedgerRow → Tx IdempotentResult
on_hit env endpoint key fn none = run_fresh env endpoint key fn
on_hit env endpoint key fn (some r) =
    if within_ttl env.now r.created_at
    then pure (record { status = r.status_code; body = r.response_body; replayed = true })
    else do evict key endpoint; run_fresh env endpoint key fn

unfoldable pub run_idempotent : Env → Endpoint → ℕ → Tx (ℕ × Body) → Tx IdempotentResult
run_idempotent env endpoint key fn = do
  hit ← query λ db. first_where (is_record key endpoint) db.ledger
  on_hit env endpoint key fn hit

-- DELETE … WHERE created_at < now - ttl
unfoldable pub gc_idempotency : Time → Tx (Unit {0})
gc_idempotency now =
    modify λ db. record db {
      ledger = select_where (λ r. leb now (r.created_at + ttl_seconds)) db.ledger;
    }
