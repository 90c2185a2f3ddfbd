-- ===== src/Store/Runs/Statements.antt =====
-- When the statements that write runs and what belongs to them succeed (internal/store/run.go).
use vibe_forge.Base.{◌+◌, ◌≤◌, ◌≡◌, refl, Bool, Option, none, some, List, [], ◌∷◌, ◌++◌, arith}
use vibe_forge.Store.Model.{Key, Project, Run, Attempt, Message, Iteration, Db}
use vibe_forge.Store.Table.{first_where, count_where, by_key, update_key, by_key-insert}
use vibe_forge.Store.Rows.{
  project_of, run_of, attempt_of, iteration_of, is_active_in, runs_after, insert_run,
  insert_attempt, update_run, insert_iteration, insert_message,
}
use vibe_forge.Store.Runs.{active_run_of}
use vibe_forge.Store.Tx.{ok, ◌>>=◌}

pub count-none :
    (test : Run → Bool) (rows : List Run) → first_where test rows ≡ none → count_where test rows ≡ 0
unfolding first_where count_where
count-none test [] e = refl
count-none test (r ∷ rows) e = ground (arith, count-none test rows)

pub count-append :
    (test : Run → Bool) (rows : List Run) (r : Run)
    → count_where test (rows ++ r ∷ []) ≤ count_where test rows + 1
unfolding count_where
count-append test [] r = ground arith
count-append test (q ∷ rows) r = ground (arith, count-append test rows r)

-- An update that keeps what the test reads keeps the count.
pub count-update :
    (test : Run → Bool) (k : Key) (f : Run → Run) (rows : List Run)
    → ((r : Run) → test (f r) ≡ test r)
    → count_where test (update_key (λ (r : Run). r.id) k f rows) ≡ count_where test rows
unfolding count_where update_key
count-update test k f [] same = refl
count-update test k f (r ∷ rows) same = ground (arith, count-update test k f rows same, same r)

pub insert_run-succeeds :
    (r : Run) (p : Project) (db : Db)
    → run_of db r.id ≡ none
    → project_of db r.project_id ≡ some p
    → active_run_of r.project_id db ≡ none
    → insert_run r db ≡ ok (tt, record db { runs = db.runs ++ r ∷ [] })
unfolding insert_run ◌>>=◌
insert_run-succeeds r p db fresh owner idle = ground (
  arith,
  count-none (is_active_in r.project_id) db.runs idle,
  count-append (is_active_in r.project_id) db.runs r,
)

pub insert_attempt-succeeds :
    (a : Attempt) (r : Run) (db : Db)
    → attempt_of db a.id ≡ none
    → run_of db a.run_id ≡ some r
    → insert_attempt a db ≡ ok (tt, record db { attempts = db.attempts ++ a ∷ [] })
unfolding insert_attempt ◌>>=◌
insert_attempt-succeeds a r db fresh there = ground arith

pub update_run-succeeds :
    (k : Key) (f : Run → Run) (r : Run) (db : Db)
    → run_of db k ≡ some r
    → count_where (is_active_in r.project_id) db.runs ≤ 1
    → ((q : Run) → is_active_in r.project_id (f q) ≡ is_active_in r.project_id q)
    → update_run k f db ≡ ok (tt, record db { runs = runs_after k f db })
unfolding update_run ◌>>=◌
update_run-succeeds k f r db there few same =
    ground (arith, count-update (is_active_in r.project_id) k f db.runs same)

pub insert_iteration-succeeds :
    (i : Iteration) (run : Key) (r : Run) (p : Project) (db : Db)
    → i.run_id ≡ some run
    → i.result_version_id ≡ none
    → run_of db run ≡ some r
    → project_of db i.project_id ≡ some p
    → iteration_of db i.id ≡ none
    → insert_iteration i db ≡ ok (tt, record db { iterations = db.iterations ++ i ∷ [] })
unfolding insert_iteration ◌>>=◌
insert_iteration-succeeds i run r p db of_run no_result there owner fresh = ground arith

abbrev pub message_of : Db → Key → Option Message
message_of db k = by_key (λ (m : Message). m.id) k db.messages

pub insert_message-succeeds :
    (m : Message) (p : Project) (db : Db)
    → message_of db m.id ≡ none
    → project_of db m.project_id ≡ some p
    → insert_message m db ≡ ok (tt, record db { messages = db.messages ++ m ∷ [] })
unfolding insert_message ◌>>=◌
insert_message-succeeds m p db fresh owner = ground arith

pub new_run-there :
    (r : Run) (rows : List Run)
    → by_key (λ (q : Run). q.id) r.id rows ≡ none
    → by_key (λ (q : Run). q.id) r.id (rows ++ r ∷ []) ≡ some r
new_run-there r rows fresh = ground (arith, by_key-insert (λ (q : Run). q.id) r.id rows r)
