-- ===== src/Api/Stream.antt =====
-- internal/api/agent_handlers.go: runEvents, the stream of a run's events. A look is one turn of its
-- loop, which reads the tables twice; `none` is a read that fails. The stream is left waiting where
-- the client goes away.
pub mod Delivery
use vibe_forge.Base.{
  ℕ, Bool, true, false, ◌||◌, any, Option, none, some, List, [], ◌∷◌, ◌++◌, Text, if◌then◌else◌,
}
use vibe_forge.Store.Model.{Key, RunStatus, Event, EventType, Db}
use vibe_forge.Store.Rows.{run_of}
use vibe_forge.Store.Events.{list_events}

pub record Look : Type 0 where
  pub events_in : Option Db
  pub status_in : Option Db

-- How the stream stands: open, closed, or closed with a synthesized run_failed.
pub data Closing : Type 0 where
  waiting closed synthesized : Closing

abbrev pub is_terminal_event : EventType → Bool
is_terminal_event EventType.run_completed = true
is_terminal_event EventType.run_failed = true
is_terminal_event _ = false

abbrev pub is_run_terminal : RunStatus → Bool
is_run_terminal RunStatus.succeeded = true
is_run_terminal RunStatus.failed = true
is_run_terminal RunStatus.interrupted = true
is_run_terminal _ = false

abbrev pub status_of : Key → Option Db → Option RunStatus
status_of run none = none
status_of run (some db) = elim (run_of db run) [ none ↦ none | some r ↦ some r.status ]

-- Of a run that ended without a terminal event, whether one is synthesized.
abbrev pub close_as : RunStatus → Closing
close_as RunStatus.failed = synthesized
close_as RunStatus.interrupted = synthesized
close_as _ = closed

-- Behind the drained events: how the stream closes, or that it waits for the next look.
abbrev pub closing : Bool → Option RunStatus → Closing
closing true status = closed
closing false none = closed
closing false (some status) = if is_run_terminal status then close_as status else waiting

abbrev pub drained : Key → ℕ → Option Db → List Event
drained run after none = []
drained run after (some db) = list_events run after db

abbrev pub has_terminal : List Event → Bool
has_terminal events = any (λ (e : Event). is_terminal_event e.type) events

abbrev pub look_closing : Key → ℕ → Look → Closing
look_closing run after look = elim look.events_in [
  | none ↦ closed
  | some db ↦ closing (has_terminal (list_events run after db)) (status_of run look.status_in)
]

abbrev pub last_seq : ℕ → List Event → ℕ
last_seq after [] = after
last_seq after (e ∷ events) = last_seq e.seq events

abbrev pub sent_then : List Event → Closing → List Event × Closing → List Event × Closing
sent_then events waiting (more, end) = (events ++ more, end)
sent_then events now rest = (events, now)

-- The events that are sent, and how the stream stands behind the looks.
unfoldable pub run_events : Key → ℕ → List Look → List Event × Closing
run_events run after [] = ([], waiting)
run_events run after (look ∷ looks) =
    let events = drained run after look.events_in in
    let rest = run_events run (last_seq after events) looks in
    sent_then events (look_closing run after look) rest
