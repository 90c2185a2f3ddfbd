-- ===== src/Store/Provenance.antt =====
-- internal/store/workflow_state.go: previewWorkflowRunTx, the run that a stable version comes from.
-- The number of versions, and one, bounds its loop.
pub mod Lineage
use vibe_forge.Base.{
  ℕ, zero, suc, ◌+◌, Bool, Option, none, some, List, [], ◌∷◌, ◌==◌, any, if◌then◌else◌,
}
use vibe_forge.Base
use vibe_forge.Store.Model.{Key, Version, Iteration, Db}
use vibe_forge.Store.Rows.{iteration_of, version_of}

abbrev pub is_seen : List Key → Key → Bool
is_seen seen k = any (λ s. s == k) seen

abbrev pub iteration_of_version : Db → Option Version → Option Iteration
iteration_of_version db none = none
iteration_of_version db (some v) = iteration_of db v.iteration_id

-- SELECT … FROM versions v JOIN iterations i ON i.id = v.iteration_id WHERE v.id = ?
abbrev pub creator : Db → Key → Option Iteration
creator db version = iteration_of_version db (version_of db version)

-- Where a version's creator leads: to its run, to its base, or nowhere.
abbrev pub follow : Option Key → Option Key → (Key → Option Key) → Option Key
follow (some run) base more = some run
follow none none more = none
follow none (some base) more = more base

abbrev pub follow_creator : Option Iteration → (Key → Option Key) → Option Key
follow_creator none more = none
follow_creator (some i) more = follow i.run_id i.base_version_id more

unfoldable pub walk : ℕ → Db → List Key → Key → Option Key
walk zero db seen version = none
walk (suc n) db seen version =
    let found = follow_creator (creator db version) (walk n db (version ∷ seen)) in
    if is_seen seen version then none else found

abbrev walk_from : Db → Option Key → Option Key
walk_from db none = none
walk_from db (some version) = walk (Base.length db.versions + 1) db [] version

unfoldable pub preview_workflow_run : Option Key → Db → Option Key
preview_workflow_run version db = walk_from db version
