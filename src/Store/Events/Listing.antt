-- ===== src/Store/Events/Listing.antt =====
-- Which events ListEvents of internal/store/run.go returns.
use mathlib.Core.List.{Memᴰ}
use mathlib.Core.List.Memᴰ
use vibe_forge.Base.{ℕ, ◌<◌, ◌≡◌, ◌⊎◌, ◌↔◌, true, List, [], ◌∷◌, arith, leb, Bool-cases, inl, inr}
use vibe_forge.Store.Model.{Key, Event, Db}
use vibe_forge.Store.Table.{select_where}
use vibe_forge.Store.Table.Members.{IsIn, select_where-IsIn}
use vibe_forge.Store.Events.{list_events, is_event_after, insert_by_seq, sort_by_seq}

insert-IsIn :
    (x e : Event) (events : List Event)
    → IsIn x (insert_by_seq e events) ↔ ((x ≡ e) ⊎ IsIn x events)
unfolding insert_by_seq
insert-IsIn x e [] =
    (λ m. Memᴰ.cases_cons m, elim [ inl q ↦ Memᴰ.head q | inr m ↦ absurd (Memᴰ.not-nil m) ])
insert-IsIn x e (d ∷ events) = elim (Bool-cases (leb e.seq d.seq)) [
  | inl t ↦ rw (t) (λ m. Memᴰ.cases_cons m, elim [ inl q ↦ Memᴰ.head q | inr m ↦ Memᴰ.tail m ])
  | inr f ↦
      let more = insert-IsIn x e events in
      rw (f) (
        λ m. elim (Memᴰ.cases_cons m) [
          | inl q ↦ inr (Memᴰ.head q)
          | inr n ↦ elim (more.0 n) [ inl q ↦ inl q | inr k ↦ inr (Memᴰ.tail k) ]
        ],
        elim [
          | inl q ↦ Memᴰ.tail (more.1 (inl q))
          | inr m ↦ elim (Memᴰ.cases_cons m) [
            | inl q ↦ Memᴰ.head q
            | inr k ↦ Memᴰ.tail (more.1 (inr k))
          ]
        ],
      )
]

sort-IsIn : (x : Event) (events : List Event) → IsIn x (sort_by_seq events) ↔ IsIn x events
unfolding sort_by_seq
sort-IsIn x [] = (λ m. m, λ m. m)
sort-IsIn x (e ∷ events) =
    let here = insert-IsIn x e (sort_by_seq events) in
    let more = sort-IsIn x events in
    (
      λ m. elim (here.0 m) [ inl q ↦ Memᴰ.head q | inr n ↦ Memᴰ.tail (more.0 n) ],
      λ m. elim (Memᴰ.cases_cons m) [ inl q ↦ here.1 (inl q) | inr n ↦ here.1 (inr (more.1 n)) ],
    )

after_iff :
    (run : Key) (last : ℕ) (e : Event)
    → (is_event_after run last e ≡ true) ↔ ((e.run_id ≡ run) × (last < e.seq))
after_iff run last e = (λ h. (ground arith, ground arith), λ h. ground arith)

-- The events of the run behind the number, and no other.
pub list_events-IsIn :
    (run : Key) (last : ℕ) (db : Db) (e : Event)
    → IsIn e (list_events run last db) ↔ (IsIn e db.events × (e.run_id ≡ run) × (last < e.seq))
unfolding list_events
list_events-IsIn run last db e =
    let sorted = sort-IsIn e (select_where (is_event_after run last) db.events) in
    let selected = select_where-IsIn (is_event_after run last) e db.events in
    let test = after_iff run last e in
    (
      λ m. let k = selected.0 (sorted.0 m) in let t = test.0 k.1 in (k.0, t.0, t.1),
      λ h. sorted.1 (selected.1 (h.0, test.1 (h.1, h.2))),
    )
