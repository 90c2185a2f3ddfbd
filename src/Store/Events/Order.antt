-- ===== src/Store/Events/Order.antt =====
-- The replay of a run's events in the order of their sequence numbers (`AppendEvent` and
-- `ListEvents` of internal/store/run.go).
use vibe_forge.Base.{
  All, ℕ, ◌+◌, ◌≤◌, ◌≡◌, ◌∙◌, sym, ap, refl, Bool, true, ◌&&◌, List, [], ◌∷◌, ◌++◌, arith, leb,
  Bool-cases, inl, inr, ◌↔◌, ◌<◌, ltb, ◌==◌,
}
use vibe_forge.Store.Model.{Key, Event, EventType, Payload, Db, Env}
use vibe_forge.Store.Table.{count_where, select_where, max_where}
use vibe_forge.Store.Rows.{insert_event}
use vibe_forge.Store.Runs.{is_event_of}
use vibe_forge.Store.Events.{
  new_event, append_event, list_events, is_event_after, insert_by_seq, sort_by_seq,
}
use vibe_forge.Store.Events.Listing.{list_events-IsIn}
use vibe_forge.Store.Table.Members.{IsIn}
use vibe_forge.Store.Tx.{ok}
use vibe_forge.Store.Tx.Triple.{Triple, after, after_keeps, after_query, on_write_if, on_pure}
use vibe_forge.Store.Follow.{apply-Keeps}

-- No event of the run lies after its greatest number.
select_after-max :
    (run : Key) (events : List Event) (n : ℕ)
    → max_where (is_event_of run) (λ (e : Event). e.seq) events ≤ n
    → select_where (is_event_after run n) events ≡ []
unfolding select_where max_where
select_after-max run [] n h = refl
select_after-max run (e ∷ events) n h = ground (arith, select_after-max run events n)

select_where-append {ℓ} :
    {R : Type ℓ} (test : R → Bool) (rows : List R) (r : R)
    → test r ≡ true
    → select_where test (rows ++ r ∷ []) ≡ select_where test rows ++ r ∷ []
unfolding select_where
select_where-append test [] r t = ground arith
select_where-append test (q ∷ rows) r t = ground (arith, select_where-append test rows r t)

append_event-Triple :
    (before : List Event) (env : Env) (run : Key) (type : EventType) (payload : Payload)
    → Triple
        (λ db. db.events ≡ before)
        (append_event env run type payload)
        (λ e db.
          (db.events ≡ before ++ e ∷ [])
          × (e.run_id ≡ run)
          × (e.seq ≡ max_where (is_event_of run) (λ (d : Event). d.seq) before + 1))
unfolding append_event insert_event
append_event-Triple before env run type payload = after_query _ _ λ seq.
    after _ _
      (on_write_if _ _
        {R = λ db.
          (db.events ≡ before ++ new_event env run type payload seq ∷ [])
          × (seq ≡ max_where (is_event_of run) (λ (d : Event). d.seq) before + 1)}
        λ db t h. (
          ap (λ es. es ++ new_event env run type payload seq ∷ []) h.0,
          sym h.1 ∙ ap (λ es. max_where (is_event_of run) (λ (d : Event). d.seq) es + 1) h.0,
        ))
      λ _.
        after_keeps _ _ (apply-Keeps _ (λ db w h. h) (λ db s h. h) run type env.now payload)
          λ _. on_pure _ λ db h. (h.0, refl, h.1)

-- A client that has read every event of a run and asks for those after the last one's number gets,
-- once an event is appended, that event and no other.
pub append_event-resume :
    (env : Env) (run : Key) (type : EventType) (payload : Payload) (db db' : Db) (e : Event)
    → append_event env run type payload db ≡ ok (e, db')
    → list_events run (max_where (is_event_of run) (λ (d : Event). d.seq) db.events) db' ≡ e ∷ []
unfolding list_events sort_by_seq insert_by_seq
append_event-resume env run type payload db db' e done =
    let result = (append_event-Triple db.events env run type payload).at db refl e db' done in
    let last : ℕ = max_where (is_event_of run) (λ (d : Event). d.seq) db.events in
    let later : is_event_after run last e ≡ true = ground (arith, result.2, result.1) in
    let rows : select_where (is_event_after run last) db'.events ≡ e ∷ [] =
      ap (select_where (is_event_after run last)) result.0
      ∙ select_where-append (is_event_after run last) db.events e later
      ∙ ap (λ es. es ++ e ∷ []) (select_after-max run db.events last (ground arith)) in
    ap sort_by_seq rows

-- In ascending order of the numbers.
abbrev pub IsAscending : List Event → Type 0
IsAscending [] = Unit
IsAscending (e ∷ events) = All (λ (d : Event). e.seq ≤ d.seq) events × IsAscending events

All-insert :
    (n : ℕ) (e : Event) (events : List Event)
    → n ≤ e.seq
    → All (λ (d : Event). n ≤ d.seq) events
    → All (λ (d : Event). n ≤ d.seq) (insert_by_seq e events)
unfolding insert_by_seq
All-insert n e [] l h = (l, tt)
All-insert n e (d ∷ events) l h = elim (Bool-cases (leb e.seq d.seq)) [
  | inl t ↦ rw (t) (l, h)
  | inr f ↦ rw (f) (h.0, All-insert n e events l h.1)
]

All-weaken :
    (m n : ℕ) (events : List Event)
    → m ≤ n
    → All (λ (d : Event). n ≤ d.seq) events
    → All (λ (d : Event). m ≤ d.seq) events
All-weaken m n [] l h = tt
All-weaken m n (d ∷ events) l h = (ground arith, All-weaken m n events l h.1)

insert-IsAscending :
    (e : Event) (events : List Event) → IsAscending events → IsAscending (insert_by_seq e events)
unfolding insert_by_seq
insert-IsAscending e [] h = (tt, tt)
insert-IsAscending e (d ∷ events) h = elim (Bool-cases (leb e.seq d.seq)) [
  | inl t ↦ rw (t) ((ground arith, All-weaken e.seq d.seq events (ground arith) h.0), h)
  | inr f ↦ rw (f) (All-insert d.seq e events (ground arith) h.0, insert-IsAscending e events h.1)
]

pub sort-IsAscending : (events : List Event) → IsAscending (sort_by_seq events)
unfolding sort_by_seq
sort-IsAscending [] = tt
sort-IsAscending (e ∷ events) = insert-IsAscending e (sort_by_seq events) (sort-IsAscending events)

count-insert :
    (test : Event → Bool) (e : Event) (events : List Event)
    → count_where test (insert_by_seq e events) ≡ count_where test (e ∷ events)
unfolding insert_by_seq count_where
count-insert test e [] = refl
count-insert test e (d ∷ events) = ground (arith, count-insert test e events)

count-sort :
    (test : Event → Bool) (events : List Event)
    → count_where test (sort_by_seq events) ≡ count_where test events
unfolding sort_by_seq count_where
count-sort test [] = refl
count-sort test (e ∷ events) =
    ground (arith, count-insert test e (sort_by_seq events), count-sort test events)

count-select :
    (p test : Event → Bool) (events : List Event)
    → count_where test (select_where p events) ≡ count_where (λ e. p e && test e) events
unfolding select_where count_where
count-select p test [] = refl
count-select p test (e ∷ events) = ground (arith, count-select p test events)

-- The events listed are in ascending order of their numbers; an event is listed exactly when it is
-- stored, belongs to the run and has a number behind the given one; and each is listed as often as it
-- is stored, so that every test counts as many.
pub list_events_complete :
    (run : Key) (last : ℕ) (db : Db)
    → IsAscending (list_events run last db)
      × ((e : Event)
          → IsIn e (list_events run last db)
            ↔ (IsIn e db.events × (e.run_id ≡ run) × (last < e.seq)))
      × ((test : Event → Bool)
          → count_where test (list_events run last db)
            ≡ count_where (λ e. (e.run_id == run && ltb last e.seq) && test e) db.events)
unfolding list_events
list_events_complete run last db = (
  sort-IsAscending (select_where (is_event_after run last) db.events),
  list_events-IsIn run last db,
  λ test.
      count-sort test (select_where (is_event_after run last) db.events)
      ∙ count-select (is_event_after run last) test db.events,
)
