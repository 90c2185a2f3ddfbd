-- ===== src/Agent/Spares.antt =====
-- What the agent loop keeps of the tables: all that each of its calls of the store keeps, the
-- promotion of a draft apart, and the other requests between the calls.
use vibe_forge.Base.{Option, none, some, List, ◌==◌}
use vibe_forge.Store.Model.{Key, Db, Env, Payload, EventType, FileSnapshot}
use vibe_forge.Store.Tx.{Tx}
use vibe_forge.Store.Tx.Keeps.{Keeps, keeps_rules}
use vibe_forge.Store.Drafts.{
  begin_attempt, create_draft_version, fail_draft_version, fail_run, get_run, get_run_iteration,
  get_attempt, active_id, get_active_attempt,
}
use vibe_forge.Agent.Client.{Outside}
use vibe_forge.Agent.Runner.{store_call, emit_payload}
use vibe_forge.Agent.Runner.Hoare.{Stays, OnDb, on_change, bind-Stays, quietly-Stays, return-Stays}
use vibe_forge.Agent.Rounds.{Job, Round, fail_previous, replace_draft, give_up}
use vibe_forge.Agent.Loop.{fail_draft_or_run, fail_infra}
use vibe_forge.Agent.Quiet.{KeepsNotes, unless-Stays}
use vibe_forge.Agent.Quiet

pub record Spares {ℓ} (out : Outside) (K : Db → Type ℓ) : Type ℓ where
  pub notes : KeepsNotes out K
  pub begin : (env : Env) (run attempt : Key) → Keeps K (begin_attempt env run attempt)
  pub create :
      (env : Env) (project iteration : Key) (files : List FileSnapshot)
      → Keeps K (create_draft_version env project iteration files)
  pub fail :
      (env : Env) (draft : Key) (run attempt : Option Key)
      → Keeps K (fail_draft_version env draft run attempt)
  pub fail_run : (env : Env) (run : Key) → Keeps K (fail_run env run)

module _ {ℓ} (K : Db → Type ℓ) where
  pub get_run-Keeps : (run : Key) → Keeps K (get_run run)
  unfolding get_run
  get_run-Keeps run = search keeps_rules

  pub get_run_iteration-Keeps : (run : Key) → Keeps K (get_run_iteration run)
  unfolding get_run_iteration
  get_run_iteration-Keeps run = search keeps_rules

  get_attempt-Keeps : (a : Key) → Keeps K (get_attempt a)
  unfolding get_attempt
  get_attempt-Keeps a = search keeps_rules

  active_id-Keeps : (o : Option Key) → Keeps K (active_id o)
  active_id-Keeps none = search keeps_rules
  active_id-Keeps (some a) = search keeps_rules

  pub get_active_attempt-Keeps : (run : Key) → Keeps K (get_active_attempt run)
  unfolding get_active_attempt
  get_active_attempt-Keeps run = search (keeps_rules, active_id-Keeps, get_attempt-Keeps) depth 12

module _ {ℓ} {K : Db → Type ℓ} (out : Outside) (k : Spares out K) where
  -- A call of the store.
  pub spared :
      {A : Type 0} (tx : Env → Tx A)
      → ((env : Env) → Keeps K (tx env))
      → Stays (OnDb K) (store_call out tx)
  spared tx h = Quiet.noted out (λ c. k.notes) tx (λ c. h)

  pub emit-Stays :
      (run : Key) (type : EventType) (payload : Payload)
      → Stays (OnDb K) (emit_payload out run type payload)
  emit-Stays run type payload = Quiet.emit-Stays out (λ c. k.notes) run type payload

  fail_previous-Stays : (draft : Key) (o : Option Key) → Stays (OnDb K) (fail_previous out draft o)
  fail_previous-Stays draft none = return-Stays tt
  fail_previous-Stays draft (some previous) =
      unless-Stays (previous == draft) _
        (quietly-Stays _ (spared _ λ env. k.fail env previous none none))

  pub replace_draft-Stays : (draft : Key) → Stays (OnDb K) (replace_draft out draft)
  unfolding replace_draft
  replace_draft-Stays draft = record {
    at = λ w h.
        (bind-Stays _ _ (fail_previous-Stays draft w.current_draft)
            (λ u. on_change _ {R = OnDb K} λ x p. p)).at
          w h;
  }

  pub give_up-Stays : (job : Job) (r : Round) → Stays (OnDb K) (give_up out job r)
  unfolding give_up
  give_up-Stays job r =
      bind-Stays _ _ (quietly-Stays _ (spared _ λ env. k.fail env _ _ _)) λ u. emit-Stays _ _ _

  fail_draft_or_run-Stays :
      (run : Key) (attempt draft : Option Key)
      → Stays (OnDb K) (fail_draft_or_run out run attempt draft)
  fail_draft_or_run-Stays run attempt none = quietly-Stays _ (spared _ λ env. k.fail_run env run)
  fail_draft_or_run-Stays run attempt (some draft) =
      quietly-Stays _ (spared _ λ env. k.fail env draft _ _)

  pub fail_infra-Stays : (run : Key) → Stays (OnDb K) (fail_infra out run)
  unfolding fail_infra
  fail_infra-Stays run = record {
    at = λ w h. (fail_draft_or_run-Stays run w.attempt_id w.current_draft).at w h;
  }
