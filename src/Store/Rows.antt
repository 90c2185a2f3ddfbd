-- ===== src/Store/Rows.antt =====
-- The statements that write a row, with the constraints of internal/db/migrations/0001_init.sql
-- that they can run into: the primary keys, the foreign keys of an INSERT, the unique path in a
-- version, and the unique index `idx_runs_one_active` (one queued or running run for a project).
use vibe_forge.Base.{
  ℕ, suc, Bool, true, false, ◌&&◌, not, Option, none, some, List, [], ◌∷◌, ◌++◌, Text, leb, ◌==◌,
  text_eq, if◌then◌else◌,
}
use vibe_forge.Store.Model.{
  Key, Time, Project, Message, Run, Attempt, StageArtifact, Iteration, Version, VersionStatus, File,
  FileSnapshot, Event, Db, Env, is_active,
}
use vibe_forge.Store.Table.{by_key, update_key, update_where, count_where, first_where}
use vibe_forge.Store.Tx.{Tx, pure, query, write_if, modify, ◌>>=◌, ◌>>◌}

abbrev pub is_some {ℓ} : {A : Type ℓ} → Option A → Bool
is_some none = false
is_some (some a) = true

abbrev pub opt_is : Option Key → Key → Bool
opt_is none k = false
opt_is (some j) k = j == k

-- COALESCE(a, '') = COALESCE(b, ''): no identifier is the empty string.
abbrev pub opt_eq : Option Key → Option Key → Bool
opt_eq none none = true
opt_eq none (some b) = false
opt_eq (some a) none = false
opt_eq (some a) (some b) = a == b

module _ (db : Db) (k : Key) where
  abbrev pub project_of : Option Project
  project_of = by_key (λ (p : Project). p.id) k db.projects

  abbrev pub run_of : Option Run
  run_of = by_key (λ (r : Run). r.id) k db.runs

  abbrev pub attempt_of : Option Attempt
  attempt_of = by_key (λ (a : Attempt). a.id) k db.attempts

  abbrev pub iteration_of : Option Iteration
  iteration_of = by_key (λ (i : Iteration). i.id) k db.iterations

  abbrev pub version_of : Option Version
  version_of = by_key (λ (v : Version). v.id) k db.versions

-- A foreign key that may be NULL.
abbrev pub refers : (Key → Bool) → Option Key → Bool
refers exists none = true
refers exists (some k) = exists k

unfoldable pub insert_project : Project → Tx (Unit {0})
insert_project p =
    write_if (λ db. not (is_some (project_of db p.id)))
      (λ db. record db { projects = db.projects ++ p ∷ [] })

unfoldable pub insert_message : Message → Tx (Unit {0})
insert_message m =
    write_if
      (λ db.
        not (is_some (by_key (λ (n : Message). n.id) m.id db.messages))
        && is_some (project_of db m.project_id))
      (λ db. record db { messages = db.messages ++ m ∷ [] })

abbrev pub is_active_in : Key → Run → Bool
is_active_in project r = r.project_id == project && is_active r.status

-- idx_runs_one_active, for one project.
abbrev pub one_active : Key → List Run → Bool
one_active project runs = leb (count_where (is_active_in project) runs) 1

unfoldable pub insert_run : Run → Tx (Unit {0})
insert_run r =
    write_if
      (λ db.
        not (is_some (run_of db r.id))
        && is_some (project_of db r.project_id)
        && one_active r.project_id (db.runs ++ r ∷ []))
      (λ db. record db { runs = db.runs ++ r ∷ [] })

abbrev pub runs_after : Key → (Run → Run) → Db → List Run
runs_after id f db = update_key (λ (r : Run). r.id) id f db.runs

abbrev pub index_holds : Key → (Run → Run) → Db → Bool
index_holds id f db = elim (run_of db id) [
  | none ↦ true
  | some r ↦ one_active r.project_id (runs_after id f db)
]

-- UPDATE runs SET … WHERE id = ?; `f` changes neither the id nor the project.
unfoldable pub update_run : Key → (Run → Run) → Tx (Unit {0})
update_run id f = write_if (index_holds id f) (λ db. record db { runs = runs_after id f db })

unfoldable pub insert_attempt : Attempt → Tx (Unit {0})
insert_attempt a =
    write_if (λ db. not (is_some (attempt_of db a.id)) && is_some (run_of db a.run_id))
      (λ db. record db { attempts = db.attempts ++ a ∷ [] })

unfoldable pub update_attempts : (Attempt → Bool) → (Attempt → Attempt) → Tx (Unit {0})
update_attempts test f = modify λ db. record db { attempts = update_where test f db.attempts }

unfoldable pub insert_artifact : StageArtifact → Tx (Unit {0})
insert_artifact a =
    write_if
      (λ db.
        not (is_some (by_key (λ (b : StageArtifact). b.id) a.id db.artifacts))
        && is_some (run_of db a.run_id)
        && is_some (attempt_of db a.attempt_id))
      (λ db. record db { artifacts = db.artifacts ++ a ∷ [] })

unfoldable pub insert_iteration : Iteration → Tx (Unit {0})
insert_iteration i =
    write_if
      (λ db.
        not (is_some (iteration_of db i.id))
        && is_some (project_of db i.project_id)
        && refers (λ k. is_some (run_of db k)) i.run_id
        && refers (λ k. is_some (version_of db k)) i.result_version_id)
      (λ db. record db { iterations = db.iterations ++ i ∷ [] })

-- UPDATE iterations SET result_version_id = ? WHERE id = ?
unfoldable pub set_iteration_result : Key → Key → Tx (Unit {0})
set_iteration_result version id = modify λ db. record db {
  iterations =
      update_key (λ (i : Iteration). i.id) id (λ i. record i { result_version_id = some version })
        db.iterations;
}

unfoldable pub insert_version : Version → Tx (Unit {0})
insert_version v =
    write_if
      (λ db.
        not (is_some (version_of db v.id))
        && is_some (project_of db v.project_id)
        && is_some (iteration_of db v.iteration_id))
      (λ db. record db { versions = db.versions ++ v ∷ [] })

-- UPDATE versions SET status = ? WHERE id = ?
unfoldable pub set_version_status : VersionStatus → Key → Tx (Unit {0})
set_version_status status id = modify λ db. record db {
  versions = update_key (λ (v : Version). v.id) id (λ v. record v { status = status }) db.versions;
}

abbrev pub is_file_at : Key → Text → File → Bool
is_file_at version path f = f.version_id == version && text_eq f.snapshot.path path

unfoldable pub insert_file : File → Tx (Unit {0})
insert_file f =
    write_if
      (λ db.
        not (is_some (by_key (λ (g : File). g.id) f.id db.files))
        && is_some (version_of db f.version_id)
        && not (is_some (first_where (is_file_at f.version_id f.snapshot.path) db.files)))
      (λ db. record db { files = db.files ++ f ∷ [] })

-- The loop over a snapshot; the n-th identifier of the call is for its first file.
unfoldable pub insert_files : Env → ℕ → Key → List FileSnapshot → Tx (Unit {0})
insert_files env n version [] = pure tt
insert_files env n version (s ∷ files) = do
  insert_file (record { id = env.new_id n; version_id = version; snapshot = s })
  insert_files env (suc n) version files

unfoldable pub insert_event : Event → Tx (Unit {0})
insert_event e =
    write_if
      (λ db.
        not (is_some (by_key (λ (d : Event). d.id) e.id db.events)) && is_some (run_of db e.run_id))
      (λ db. record db { events = db.events ++ e ∷ [] })

abbrev pub point_stable : Time → Key → Option Key → Project → Project
point_stable now version base p =
    if opt_eq p.stable_version_id base
    then record p { stable_version_id = some version; updated_at = now }
    else p

abbrev pub base_holds : Option Project → Option Key → Bool
base_holds none base = false
base_holds (some p) base = opt_eq p.stable_version_id base

-- The compare-and-swap: UPDATE projects SET stable_version_id = ?, updated_at = ?
-- WHERE id = ? AND COALESCE(stable_version_id, '') = COALESCE(?, ''); whether a row was affected.
unfoldable pub cas_stable : Time → Key → Option Key → Key → Tx Bool
cas_stable now project base version = do
  swapped ← query λ db. base_holds (project_of db project) base
  modify λ db. record db {
    projects =
        update_key (λ (p : Project). p.id) project (point_stable now version base) db.projects;
  }
  pure swapped
