-- ===== src/Store/Sound/Commits.antt =====
-- The invariant of the stable version and the transactions of internal/store/version.go.
use vibe_forge.Base.{refl, Option, none, some}
use vibe_forge.Store.Model.{Key, Version, Env}
use vibe_forge.Store.Versions.{
  replay_or, FailPoint, fail_after_version_insert, fail_after_files_insert,
  fail_after_iteration_update, break_at, CommitInput, commit_new_version, commit_version_steps,
  fail_new_version, fail_version,
}
use vibe_forge.Store.Tx.{Tx}
use vibe_forge.Store.Frame.{On, result-Keeps, files-Keeps, settle-Keeps, fetch-Keeps}
use vibe_forge.Store.Tx.Keeps.{Keeps, Keeps-fail_if, Keeps-query, keeps_rules}
use vibe_forge.Store.Tx.Triple.{after, after_keeps, of_keeps, to_keeps}
use vibe_forge.Store.Sound.Steps.{
  Tables, Sound, Ready, insert_version-Sound, insert_version-Ready, cas_stable-Sound, files_stay,
}
use vibe_forge.Store.Sound.Tables.{Kept}

pub break-Keeps : (P : Tables) (a b : FailPoint) → Keeps (On P) (break_at a b)
break-Keeps P fail_after_version_insert fail_after_version_insert = search keeps_rules
break-Keeps P fail_after_files_insert fail_after_files_insert = search keeps_rules
break-Keeps P fail_after_iteration_update fail_after_iteration_update = search keeps_rules
break-Keeps P _ _ = search keeps_rules

module _ {K : Kept} where
  commit_new_version-Sound :
      (env : Env) (input : CommitInput) (base : Option Key) (point : FailPoint)
      → Keeps (On (Sound K)) (commit_new_version env input base point)
  unfolding commit_new_version
  commit_new_version-Sound env input base point =
      let ready : Tables = Ready K (env.new_id 0) input.project_id in
      to_keeps (
        after_keeps _ _ (Keeps-query _) λ exists. after_keeps _ _ (Keeps-fail_if _ _) λ _.
          after _ _ (insert_version-Ready _ refl) λ _. after_keeps _ _ (break-Keeps ready _ _) λ _.
            after_keeps _ _ (files-Keeps ready (λ ps vs fs f h. h) env 1 _ input.files) λ _.
              after_keeps _ _ (break-Keeps ready _ _) λ _.
                after_keeps _ _ (result-Keeps ready _ _) λ _.
                  after_keeps _ _ (break-Keeps ready _ _) λ _.
                    after _ _ (cas_stable-Sound env.now input.project_id base _)
                      λ swapped. of_keeps (search (keeps_rules, settle-Keeps (Sound K))))

  replay-Sound :
      (o : Option Key) (fresh : Tx Version)
      → Keeps (On (Sound K)) fresh
      → Keeps (On (Sound K)) (replay_or o fresh)
  replay-Sound none fresh k = k
  replay-Sound (some version) fresh k = fetch-Keeps (Sound K) version

  pub commit_version_steps-Sound :
      (env : Env) (input : CommitInput) (point : FailPoint)
      → Keeps (On (Sound K)) (commit_version_steps env input point)
  unfolding commit_version_steps
  commit_version_steps-Sound env input point =
      search (keeps_rules, replay-Sound, commit_new_version-Sound)

  fail_new_version-Sound :
      (env : Env) (input : CommitInput) → Keeps (On (Sound K)) (fail_new_version env input)
  unfolding fail_new_version
  fail_new_version-Sound env input =
      search
        (
          keeps_rules,
          insert_version-Sound,
          files-Keeps (Sound K) files_stay,
          result-Keeps (Sound K),
          settle-Keeps (Sound K),
        )
        depth 12

  pub fail_version-Sound :
      (env : Env) (input : CommitInput) → Keeps (On (Sound K)) (fail_version env input)
  unfolding fail_version
  fail_version-Sound env input = search (keeps_rules, replay-Sound, fail_new_version-Sound)
