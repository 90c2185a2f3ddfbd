-- ===== src/Store/Reads/Digest.antt =====
-- The digest of a version and its files as they are read back (internal/store: CreateDraftVersion,
-- filesHash and GetVersionFilesSnapshot).
use vibe_forge.Base.{
  ℕ, suc, ◌≡◌, ◌∙◌, refl, sym, ap, true, false, some, List, [], ◌∷◌, ◌++◌, append-nil, append_assoc,
  Text, arith, Bool-cases, inl, inr,
}
use vibe_forge.Store.Model.{Key, File, FileSnapshot, Version, Db, Env}
use vibe_forge.Store.Table.{select_where}
use vibe_forge.Store.Rows.{insert_version, insert_file, insert_files}
use vibe_forge.Store.Hash.{text_before, insert_by_path, sort_by_path, hashed_bytes, files_hash}
use vibe_forge.Store.Files.{is_file_of, snapshots, read_version_files}
use vibe_forge.Store.Drafts.{create_draft_version}
use vibe_forge.Store.Tx.{ok}
use vibe_forge.Store.Tx.Triple.{
  Triple, after, after_fail_if, on_pure, on_write_if, after_query, from_after,
}
use vibe_forge.Store.Reads.{get_version_files_snapshot}

text_before_asym : (s t : Text) → text_before s t ≡ true → text_before t s ≡ false
text_before_asym [] [] h = refl
text_before_asym [] (d ∷ t) h = refl
text_before_asym (c ∷ s) [] h = absurd (cc)
text_before_asym (c ∷ s) (d ∷ t) h = ground (arith, text_before_asym s t)

-- The path in front does not stand before this one.
abbrev IsLeader : FileSnapshot → List FileSnapshot → Type 0
IsLeader f [] = Unit
IsLeader f (g ∷ files) = text_before g.path f.path ≡ false

abbrev IsByPath : List FileSnapshot → Type 0
IsByPath [] = Unit
IsByPath (f ∷ files) = IsLeader f files × IsByPath files

insert-IsLeader :
    (g f : FileSnapshot) (files : List FileSnapshot)
    → text_before f.path g.path ≡ false
    → IsLeader g files
    → IsLeader g (insert_by_path f files)
unfolding insert_by_path
insert-IsLeader g f [] a h = a
insert-IsLeader g f (k ∷ files) a h = elim (Bool-cases (text_before k.path f.path)) [
  | inl t ↦ rw (t) h
  | inr n ↦ rw (n) a
]

insert-IsByPath :
    (f : FileSnapshot) (files : List FileSnapshot)
    → IsByPath files
    → IsByPath (insert_by_path f files)
unfolding insert_by_path
insert-IsByPath f [] h = (tt, tt)
insert-IsByPath f (g ∷ files) h = elim (Bool-cases (text_before g.path f.path)) [
  | inl t ↦ rw (t) (
    insert-IsLeader g f files (text_before_asym g.path f.path t) h.0,
    insert-IsByPath f files h.1,
  )
  | inr n ↦ rw (n) (n, h)
]

sort-IsByPath : (files : List FileSnapshot) → IsByPath (sort_by_path files)
unfolding sort_by_path
sort-IsByPath [] = tt
sort-IsByPath (f ∷ files) = insert-IsByPath f (sort_by_path files) (sort-IsByPath files)

insert-leader :
    (f : FileSnapshot) (files : List FileSnapshot)
    → IsLeader f files
    → insert_by_path f files ≡ f ∷ files
unfolding insert_by_path
insert-leader f [] h = refl
insert-leader f (g ∷ files) h = rw (h) refl

sort_sorted : (files : List FileSnapshot) → IsByPath files → sort_by_path files ≡ files
unfolding sort_by_path
sort_sorted [] h = refl
sort_sorted (f ∷ files) h =
    ap (insert_by_path f) (sort_sorted files h.1) ∙ insert-leader f files h.0

-- Sorting twice is sorting once.
sort_by_path-sort_by_path :
    (files : List FileSnapshot) → sort_by_path (sort_by_path files) ≡ sort_by_path files
sort_by_path-sort_by_path files = sort_sorted (sort_by_path files) (sort-IsByPath files)

-- The files of a version, in the order in which they are stored.
abbrev stored_files : Key → Db → List FileSnapshot
stored_files version db = snapshots (select_where (is_file_of version) db.files)

stored_one :
    (version : Key) (id : Key) (s : FileSnapshot) (files : List File)
    → snapshots (
        select_where
          (is_file_of version)
          (files ++ record { id = id; version_id = version; snapshot = s } ∷ []))
      ≡ snapshots (select_where (is_file_of version) files) ++ s ∷ []
unfolding select_where
stored_one version id s [] = ground arith
stored_one version id s (f ∷ files) = ground (arith, stored_one version id s files)

-- The files stored so far.
abbrev Stored : Key → List FileSnapshot → Db → Type 0
Stored version files db = stored_files version db ≡ files

insert_files-Stored :
    (env : Env) (n : ℕ) (version : Key) (files done : List FileSnapshot)
    → Triple
        (Stored version done)
        (insert_files env n version files)
        (λ _. Stored version (done ++ files))
unfolding insert_files insert_file
insert_files-Stored env n version [] done = on_pure _ λ db h. h ∙ sym (append-nil done)
insert_files-Stored env n version (s ∷ files) done =
    after {R = λ _. Stored version (done ++ s ∷ [])} _ _
      (on_write_if _ _
        λ db t h. stored_one version (env.new_id n) s db.files ∙ ap (λ r. r ++ s ∷ []) h)
      λ u.
        from_after (λ v db h. h ∙ append_assoc done (s ∷ []) files)
          (insert_files-Stored env (suc n) version files (done ++ s ∷ []))

-- The version has the digest of the files, which are stored for it.
abbrev Digested : Env → List FileSnapshot → Version → Db → Type 0
Digested env files v db = Stored v.id files db × (v.files_hash ≡ some (files_hash env files))

create_draft_version-Digested :
    (env : Env) (project iteration : Key) (files : List FileSnapshot)
    → Triple
        (Stored (env.new_id 0) [])
        (create_draft_version env project iteration files)
        (Digested env files)
unfolding create_draft_version insert_version
create_draft_version-Digested env project iteration files = after_query _ _ λ exists.
    after_fail_if _ _ _ λ there.
      after {R = λ _. Stored (env.new_id 0) []} _ _ (on_write_if _ _ λ db t h. h.0) λ u.
        after _ _ (insert_files-Stored env 1 (env.new_id 0) files [])
          λ u2. on_pure _ λ db h. (h, refl)

files_hash-sort_by_path :
    (env : Env) (files : List FileSnapshot)
    → files_hash env (sort_by_path files) ≡ files_hash env files
unfolding files_hash
files_hash-sort_by_path env files =
    ap (λ r. env.sha256 (hashed_bytes r)) (sort_by_path-sort_by_path files)

same_digest :
    (env : Env) (files : List FileSnapshot) (v : Version) (db : Db)
    → Digested env files v db
    → (get_version_files_snapshot v.id db ≡ sort_by_path files)
      × (v.files_hash ≡ some (files_hash env (get_version_files_snapshot v.id db)))
unfolding get_version_files_snapshot read_version_files
same_digest env files v db (stored, digest) =
    let read : sort_by_path (stored_files v.id db) ≡ sort_by_path files = ap sort_by_path stored in
    (read, rw (read) (digest ∙ ap some (sym (files_hash-sort_by_path env files))))

-- What the agent loop writes as a draft is read back: where no file is stored under the identifier of
-- the new version, its files come back in the order of their paths and nothing else does, and the
-- digest of the version is that of the files that come back.
pub create_draft_version-reads_back :
    (env : Env) (project iteration : Key) (files : List FileSnapshot) (db db' : Db) (v : Version)
    → create_draft_version env project iteration files db ≡ ok (v, db')
    → select_where (is_file_of (env.new_id 0)) db.files ≡ []
    → (get_version_files_snapshot v.id db' ≡ sort_by_path files)
      × (v.files_hash ≡ some (files_hash env (get_version_files_snapshot v.id db')))
create_draft_version-reads_back env project iteration files db db' v done none_before =
    same_digest env files v db' (
      (create_draft_version-Digested env project iteration files).at db (ap snapshots none_before) v
        db' done)
