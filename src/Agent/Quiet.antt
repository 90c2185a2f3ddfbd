-- ===== src/Agent/Quiet.antt =====
-- What the agent loop keeps of its current draft and the tables while it only notes what it does: its
-- events, messages and artifacts, and the other requests between its calls.
use vibe_forge.Base.{refl, ℕ, ◌+◌, zero, suc, Bool, true, false, Option, List, [], ◌∷◌, Text}
use vibe_forge.Contract.{Stage}
use vibe_forge.Store.Model.{Key, Db, Env, Payload, EventType, ArtifactType, Role}
use vibe_forge.Store.Tx.{Tx}
use vibe_forge.Store.Tx.Keeps.{Keeps}
use vibe_forge.Store.Events.{append_event, append_message, record_stage_artifact}
use vibe_forge.Agent.Client.{Prompt, ToolResult, Turn, Streamed, broken, replied, Failure, Outside}
use vibe_forge.Agent.Runner.{
  World, Step, store_call, stream, emit_payload, emit_deltas, ended, persist_assistant,
  record_artifact,
}
use vibe_forge.Agent.Runner.Hoare.{
  Stays, OnWorld, call-Stays, same_tables-Stays, on_choice, bind-Stays, quietly-Stays, return-Stays,
  stays_rules,
}
use vibe_forge.Agent.Turns.{
  Written, on_results, run_tools, calls_tools, tool_loop, text_turn, engineer_turn,
}
use vibe_forge.Agent.Rounds.{Job, set_stage, unless}
use vibe_forge.Agent.Loop.{start_stage, text_stage, report}

pub record KeepsNotes {ℓ} (out : Outside) (K : Db → Type ℓ) : Type ℓ where
  pub others : (n : ℕ) (db : Db) → K db → K (out.others n db)
  pub event :
      (env : Env) (run : Key) (type : EventType) (payload : Payload)
      → Keeps K (append_event env run type payload)
  pub message :
      (env : Env) (project : Key) (role : Role) (content : Text)
      → Keeps K (append_message env project role content)
  pub artifact :
      (env : Env) (run attempt : Key) (s : Stage) (type : ArtifactType) (ref : Text)
      → Keeps K (record_stage_artifact env run attempt s type ref)

pub unless-Stays {ℓ} :
    {P : World → Type ℓ} (b : Bool) (m : Step (Unit {0})) → Stays P m → Stays P (unless b m)
unless-Stays true m h = return-Stays tt
unless-Stays false m h = h

module _ {ℓ} {K : Option Key → Db → Type ℓ} (out : Outside)
    (k : (c : Option Key) → KeepsNotes out (K c)) where
  pub noted :
      {A : Type 0} (tx : Env → Tx A)
      → ((c : Option Key) (env : Env) → Keeps (K c) (tx env))
      → Stays (OnWorld K) (store_call out tx)
  noted tx h = call-Stays K out (λ c. (k c).others) tx h

  pub emit-Stays :
      (run : Key) (type : EventType) (payload : Payload)
      → Stays (OnWorld K) (emit_payload out run type payload)
  unfolding emit_payload
  emit-Stays run type payload = quietly-Stays _ (noted _ λ c env. (k c).event env run type payload)

  deltas-Stays : (run : Key) (ts : List Text) → Stays (OnWorld K) (emit_deltas out run ts)
  unfolding emit_deltas
  deltas-Stays run [] = search stays_rules
  deltas-Stays run (t ∷ ts) =
      bind-Stays _ _ (same_tables-Stays K _ (λ w. refl) (λ w. refl))
        λ u. bind-Stays _ _ (emit-Stays run _ _) λ v. deltas-Stays run ts

  ended-Stays : (s : Streamed) → Stays (OnWorld K) (ended out s)
  ended-Stays (broken f) = search stays_rules
  ended-Stays (replied msg) = search stays_rules

  stream-Stays :
      (run : Key) (messages : List Turn) (tools : Bool)
      → Stays (OnWorld K) (stream out run messages tools)
  unfolding stream
  stream-Stays run messages tools = record {
    at = λ w h.
        (bind-Stays _ _ (deltas-Stays run (out.stream w.streams messages tools).deltas)
            (λ u. ended-Stays (out.stream w.streams messages tools).ending)).at
          (record w { streams = w.streams + 1 }) h;
  }

  pub assistant-Stays :
      (project : Key) (content : Text) → Stays (OnWorld K) (persist_assistant out project content)
  unfolding persist_assistant
  assistant-Stays project [] = search stays_rules
  assistant-Stays project (b ∷ content) =
      quietly-Stays _ (noted _ λ c env. (k c).message env project Role.assistant (b ∷ content))

  pub record-Stays :
      (run attempt : Key) (s : Stage) (type : ArtifactType) (ref : Text)
      → Stays (OnWorld K) (record_artifact out run attempt s type ref)
  unfolding record_artifact
  record-Stays run attempt s type ref =
      bind-Stays _ _ (quietly-Stays _ (noted _ λ c env. (k c).artifact env run attempt s type ref))
        λ u. emit-Stays run _ _

  pub text_turn-Stays :
      (run : Key) (messages : List Turn) (p : Prompt)
      → Stays (OnWorld K) (text_turn out run messages p)
  unfolding text_turn
  text_turn-Stays run messages p = search (stays_rules, stream-Stays)

  tool_loop-Stays :
      (n : ℕ) (run : Key) (app : Text) (messages : List Turn)
      → Stays (OnWorld K) (tool_loop out n run app messages)
  unfolding tool_loop
  tool_loop-Stays zero run app messages = search stays_rules
  tool_loop-Stays (suc n) run app messages = bind-Stays _ _ (stream-Stays run messages true) λ msg.
      on_choice (calls_tools msg.stop_reason) _ _
        (λ t.
          results-Stays (run_tools msg.content app).0 _ _ (λ heard. tool_loop-Stays n run _ heard))
        (λ f. search stays_rules)
    where
      results-Stays :
          (rs : List (ℕ × ToolResult)) (r : Written) (more : List Turn → Step Written)
          → ((heard : List Turn) → Stays (OnWorld K) (more heard))
          → Stays (OnWorld K) (on_results rs r more)
      results-Stays [] r more h = search stays_rules
      results-Stays (x ∷ xs) r more h = h _

  pub engineer_turn-Stays :
      (run : Key) (messages : List Turn) (p : Prompt)
      → Stays (OnWorld K) (engineer_turn out run messages p)
  unfolding engineer_turn
  engineer_turn-Stays run messages p = tool_loop-Stays _ run _ _

  pub set_stage-Stays : (s : Stage) → Stays (OnWorld K) (set_stage s)
  set_stage-Stays s = same_tables-Stays K _ (λ w. refl) (λ w. refl)

  pub start_stage-Stays : (run : Key) (s : Stage) → Stays (OnWorld K) (start_stage out run s)
  start_stage-Stays run s = bind-Stays _ _ (set_stage-Stays s) λ u. emit-Stays run _ _

  pub text_stage-Stays :
      (job : Job) (s : Stage) (type : ArtifactType) (p : Prompt) (messages : List Turn)
      → Stays (OnWorld K) (text_stage out job s type p messages)
  unfolding text_stage
  text_stage-Stays job s type p messages =
      search (stays_rules, start_stage-Stays, text_turn-Stays, assistant-Stays, record-Stays) depth
        12

  pub report-Stays : (run : Key) (f : Failure) → Stays (OnWorld K) (report out run f)
  report-Stays run f = record { at = λ w h. (emit-Stays run _ _).at w h }
