-- ===== src/Store/Provenance/Lineage.antt =====
-- The lineage of a version (previewWorkflowRunTx of internal/store/workflow_state.go): its creator's
-- run, or the lineage of the version that its creator is based on.
use vibe_forge.Base.{ℕ, suc, ◌<◌, ◌≡◌, Bool, not, none, some, List, All}
use vibe_forge.Store.Model.{Key, Version, Iteration, Db}
use vibe_forge.Store.Provenance.{is_seen, creator}

-- From the version to the run in so many steps over bases.
pub data Lineage (db : Db) (run : Key) : ℕ → Key → Type 0 where
  created :
      (version : Key) (i : Iteration)
      → creator db version ≡ some i
      → i.run_id ≡ some run
      → Lineage db run 0 version
  based :
      (version base : Key) (n : ℕ) (i : Iteration)
      → creator db version ≡ some i
      → i.run_id ≡ none
      → i.base_version_id ≡ some base
      → Lineage db run n base
      → Lineage db run (suc n) version

module _ (db : Db) where
  module _ (run : Key) where
    -- Every version that was seen has more steps to go.
    abbrev Deeper : ℕ → List Key → Type 0
    Deeper m = All λ s. (k : ℕ) × (m < k) × Lineage db run k s

  -- A version that was not seen yet.
  abbrev unseen : List Key → Version → Bool
  unseen seen v = not (is_seen seen v.id)
