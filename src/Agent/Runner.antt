-- ===== src/Agent/Runner.antt =====
-- internal/agent/agent.go: the runner, its calls of the store and of the model, and its events. The
-- watchdog's clock is not kept: what it does to a call stands in `Outside`.
pub mod Hoare
pub mod Served
use vibe_forge.Base.{ℕ, ◌+◌, Option, none, some, List, [], ◌∷◌, Text, Bool}
use vibe_forge.Contract.{Stage}
use vibe_forge.Store.Model.{Key, Db, Env, Payload, EventType, ArtifactType, Role}
use vibe_forge.Store.Tx.{Tx, Result, ok, err, in_tx}
use vibe_forge.Store.Events.{append_event, append_message, record_stage_artifact}
use vibe_forge.Agent.Client.{
  Turn, Failure, other_failure, Streamed, broken, replied, Stream, Message, Outside,
}

-- The runner's fields, the tables, and the numbers of calls so far.
pub record World : Type 0 where
  pub db : Db
  pub calls : ℕ
  pub streams : ℕ
  pub stage : Option Stage
  pub attempt_id : Option Key
  pub current_draft : Option Key
  pub msg_seq : ℕ

pub data Outcome (A : Type 0) : Type 0 where
  done : A → Outcome A
  failed : Failure → Outcome A

abbrev pub Step : Type 0 → Type 0
Step A = World → Outcome A × World

module _ {A : Type 0} where
  unfoldable pub return : A → Step A
  return a w = (done a, w)

  unfoldable pub raise : Failure → Step A
  raise f w = (failed f, w)

  abbrev forget : Outcome A × World → Outcome (Unit {0}) × World
  forget r = (done tt, r.1)

  -- The error is logged alone.
  unfoldable pub quietly : Step A → Step (Unit {0})
  quietly m w = forget (m w)

unfoldable pub change : (World → World) → Step (Unit {0})
change f w = (done tt, f w)

abbrev pub carry_on : {A B : Type 0} → Outcome A × World → (A → Step B) → Outcome B × World
carry_on (done a, w) f = f a w
carry_on (failed e, w) f = (failed e, w)

infixl 5 ◌>>=◌ ◌>>◌
-- Opening this opens the steps too.
unfoldable pub ◌>>=◌ : {A B : Type 0} → Step A → (A → Step B) → Step B
unfolding return raise quietly change
◌>>=◌ m f w = carry_on (m w) f

abbrev pub ◌>>◌ : {B : Type 0} → Step (Unit {0}) → Step B → Step B
m >> k = m >>= λ _. k

abbrev plain : Payload
plain = record { stage = none; code = none }

abbrev pub of_stage : Stage → Payload
of_stage s = record { stage = some s; code = none }

abbrev pub answered : {A : Type 0} → World → Result A × Db → Outcome A × World
answered w (ok a, db) = (done a, record w { db = db })
answered w (err e, db) = (failed other_failure, record w { db = db })

module _ (out : Outside) where
  abbrev pub before_call : World → World
  before_call w = record w { db = out.others w.calls w.db; calls = w.calls + 1 }

  abbrev pub call_unless : {A : Type 0} → Option Failure → Tx A → Step A
  call_unless (some f) tx w = (failed f, w)
  call_unless none tx w = answered w (in_tx tx w.db)

  -- A call of the store: one transaction.
  unfoldable pub store_call : {A : Type 0} → (Env → Tx A) → Step A
  store_call tx w = call_unless (out.refuses w.calls) (tx (out.env w.calls)) (before_call w)

  unfoldable pub emit_payload : Key → EventType → Payload → Step (Unit {0})
  emit_payload run type payload = quietly (store_call λ env. append_event env run type payload)

  abbrev pub emit : Key → EventType → Step (Unit {0})
  emit run type = emit_payload run type plain

  unfoldable pub emit_deltas : Key → List Text → Step (Unit {0})
  emit_deltas run [] = return tt
  emit_deltas run (t ∷ ts) = do
    change λ w. record w { msg_seq = w.msg_seq + 1 }
    emit run EventType.message_delta
    emit_deltas run ts

  abbrev pub ended : Streamed → Step Message
  ended (broken f) = raise f
  ended (replied msg) = return msg

  abbrev pub with_reply : Key → Stream → Step Message
  with_reply run s = do emit_deltas run s.deltas; ended s.ending

  -- One streaming call, with the tools or without; its text chunks are events.
  unfoldable pub stream : Key → List Turn → Bool → Step Message
  stream run messages tools w =
      with_reply run (out.stream w.streams messages tools) (record w { streams = w.streams + 1 })

  unfoldable pub persist_assistant : Key → Text → Step (Unit {0})
  persist_assistant project [] = return tt
  persist_assistant project (c ∷ content) =
      quietly (store_call λ env. append_message env project Role.assistant (c ∷ content))

  unfoldable pub record_artifact : Key → Key → Stage → ArtifactType → Text → Step (Unit {0})
  record_artifact run attempt stage type ref = do
    quietly (store_call λ env. record_stage_artifact env run attempt stage type ref)
    emit_payload run EventType.stage_artifact (of_stage stage)
