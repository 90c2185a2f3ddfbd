-- ===== src/Api/Stream/Delivery.antt =====
-- What a client of the stream gets (runEvents of internal/api/agent_handlers.go).
use mathlib.Core.List.{Memᴰ}
use mathlib.Core.List.Memᴰ
use vibe_forge.Base.{◌↔◌, ◌⊎◌, All, ℕ, ◌<◌, ◌≡◌, ◌≢◌, some, List}
use vibe_forge.Store.Model.{Key, Event, Db}
use vibe_forge.Store.Table.Members.{IsIn}
use vibe_forge.Store.Events.Order.{IsAscending}
use vibe_forge.Api.Stream.{Look, Closing, waiting}

-- All numbers are greater.
abbrev pub AllAfter : ℕ → List Event → Type 0
AllAfter n = All λ (e : Event). n < e.seq

-- In order, and behind what the client has.
abbrev pub Delivered : ℕ → List Event → Type 0
Delivered after events = IsAscending events × AllAfter after events

-- The stream is not left waiting.
abbrev Ended : Closing → Type 0
Ended end = end ≢ waiting

-- The tables `db` hold every event of the tables `d`, and a further one of the run has a greater number.
abbrev pub Extends : Key → Db → Db → Type 0
Extends run d db =
    ((e : Event) → IsIn e d.events → IsIn e db.events)
    × ((e : Event)
        → IsIn e db.events
        → e.run_id ≡ run
        → IsIn e d.events ⊎ ((f : Event) → IsIn f d.events → f.run_id ≡ run → f.seq < e.seq))

-- What a look has read is extended by `db`.
abbrev pub Precedes : Key → Db → Look → Type 0
Precedes run db look = (d : Db) → look.events_in ≡ some d → Extends run d db

-- The events of the run in `db` behind the number, and no other.
abbrev pub Exact : Key → ℕ → Db → List Event → Type 0
Exact run after db events =
    (e : Event) → IsIn e events ↔ (IsIn e db.events × (e.run_id ≡ run) × (after < e.seq))
