-- ===== src/Agent/Turns/Bounds.antt =====
-- How often the agent loop calls the model (internal/agent/agent.go).
use vibe_forge.Base.{
  ℕ, zero, suc, ◌+◌, ◌≤◌, ◌≡◌, refl, Bool, true, Option, none, some, List, [], ◌∷◌, Text, arith,
}
use vibe_forge.Contract.{Stage}
use vibe_forge.Store.Model.{Key, Db, Env, Payload, EventType, ArtifactType}
use vibe_forge.Store.Tx.{Tx, Result, ok, err, in_tx}
use vibe_forge.Agent.Client.{Failure, ToolResult, Turn, Prompt, Streamed, broken, replied, Outside}
use vibe_forge.Agent.Runner.{
  World, Step, change, store_call, call_unless, answered, before_call, emit_payload, emit_deltas,
  ended, stream, persist_assistant, record_artifact, ◌>>=◌,
}
use vibe_forge.Agent.Runner.Hoare.{
  Hoare, Stays, Ends, on_bind, on_change, on_choice, to_world, bind-Stays, stays_rules,
}
use vibe_forge.Agent.Turns.{Written, on_results, calls_tools, tool_loop, text_turn, engineer_turn}

-- The model was called at most `n` times.
abbrev pub AtMost : ℕ → World → Type 0
AtMost n w = w.streams ≤ n

module _ (out : Outside) (n : ℕ) where
  answered-AtMost :
      {A : Type 0} (w : World) (r : Result A × Db)
      → AtMost n w
      → Ends (λ a. AtMost n) (AtMost n) (answered w r)
  answered-AtMost w (ok a, db) h = h
  answered-AtMost w (err e, db) h = h

  call_unless-AtMost :
      {A : Type 0} (refusal : Option Failure) (tx : Tx A) (w : World)
      → AtMost n w
      → Ends (λ a. AtMost n) (AtMost n) (call_unless out refusal tx w)
  call_unless-AtMost (some f) tx w h = h
  call_unless-AtMost none tx w h = answered-AtMost w (in_tx tx w.db) h

  pub call-AtMost : {A : Type 0} (tx : Env → Tx A) → Stays (AtMost n) (store_call out tx)
  unfolding store_call
  call-AtMost tx = record {
    at = λ w h.
        call_unless-AtMost (out.refuses w.calls) (tx (out.env w.calls)) (before_call out w) h;
  }

  pub change-AtMost :
      (f : World → World) → ((w : World) → (f w).streams ≡ w.streams) → Stays (AtMost n) (change f)
  change-AtMost f e = on_change f {R = AtMost n} λ w h. omega (arith, e w, h)

  pub emit-AtMost :
      (run : Key) (type : EventType) (payload : Payload)
      → Stays (AtMost n) (emit_payload out run type payload)
  unfolding emit_payload
  emit-AtMost run type payload = search (stays_rules, call-AtMost)

  deltas-AtMost : (run : Key) (ts : List Text) → Stays (AtMost n) (emit_deltas out run ts)
  unfolding emit_deltas
  deltas-AtMost run [] = search stays_rules
  deltas-AtMost run (t ∷ ts) =
      bind-Stays _ _ (change-AtMost _ λ w. refl)
        λ u. bind-Stays _ _ (emit-AtMost run _ _) λ v. deltas-AtMost run ts

  ended-AtMost : (s : Streamed) → Stays (AtMost n) (ended out s)
  ended-AtMost (broken f) = search stays_rules
  ended-AtMost (replied msg) = search stays_rules

  pub assistant-AtMost :
      (project : Key) (content : Text) → Stays (AtMost n) (persist_assistant out project content)
  unfolding persist_assistant
  assistant-AtMost project [] = search stays_rules
  assistant-AtMost project (c ∷ content) = search (stays_rules, call-AtMost)

  pub record-AtMost :
      (run attempt : Key) (s : Stage) (type : ArtifactType) (ref : Text)
      → Stays (AtMost n) (record_artifact out run attempt s type ref)
  unfolding record_artifact
  record-AtMost run attempt s type ref = search (stays_rules, call-AtMost, emit-AtMost)

-- The step calls the model at most `k` times.
abbrev pub Calls : {A : Type 0} → ℕ → Step A → Type 0
Calls k m = (n : ℕ) → Hoare (AtMost n) m (λ a. AtMost (n + k)) (AtMost (n + k))

pub none-Calls : {A : Type 0} {m : Step A} → ((n : ℕ) → Stays (AtMost n) m) → (k : ℕ) → Calls k m
none-Calls s k n = to_world (λ a w h. omega (arith, h)) (λ w h. omega (arith, h)) (s n)

pub bind-Calls :
    {A B : Type 0} (j k : ℕ) (m : Step A) (f : A → Step B)
    → Calls j m
    → ((a : A) → Calls k (f a))
    → Calls (j + k) (m >>= f)
bind-Calls j k m f hm hf n =
    on_bind m f (to_world (λ a w h. h) (λ w h. omega (arith, h)) (hm n))
      (λ a. to_world (λ b w h. omega (arith, h)) (λ w h. omega (arith, h)) (hf a (n + j)))

module _ (out : Outside) where
  pub stream-Calls :
      (run : Key) (messages : List Turn) (tools : Bool) → Calls 1 (stream out run messages tools)
  unfolding stream
  stream-Calls run messages tools n = record {
    at = λ w h.
        (bind-Stays _ _ (deltas-AtMost out (n + 1) run (out.stream w.streams messages tools).deltas)
            (λ u. ended-AtMost out (n + 1) (out.stream w.streams messages tools).ending)).at
          (record w { streams = w.streams + 1 }) (omega (arith, h));
  }

  pub text_turn-Calls :
      (run : Key) (messages : List Turn) (p : Prompt) → Calls 1 (text_turn out run messages p)
  unfolding text_turn
  text_turn-Calls run messages p =
      bind-Calls 1 0 _ _ (stream-Calls run _ _) λ msg. none-Calls (λ n. search stays_rules) 0

  results-Calls :
      (k : ℕ) (rs : List (ℕ × ToolResult)) (r : Written) (more : List Turn → Step Written)
      → ((heard : List Turn) → Calls k (more heard))
      → Calls k (on_results rs r more)
  results-Calls k [] r more h = none-Calls (λ n. search stays_rules) k
  results-Calls k (x ∷ xs) r more h = h _

  tool_loop-Calls :
      (k : ℕ) (run : Key) (app : Text) (messages : List Turn)
      → Calls k (tool_loop out k run app messages)
  unfolding tool_loop
  tool_loop-Calls zero run app messages n = none-Calls (λ i. search stays_rules) 0 n
  tool_loop-Calls (suc k) run app messages n =
      to_world (λ a w h. omega (arith, h)) (λ w h. omega (arith, h))
        (bind-Calls 1 k _ _ (stream-Calls run messages true)
          (λ msg. λ j.
            on_choice (calls_tools msg.stop_reason) _ _
              (λ t. results-Calls k _ _ _ (λ heard. tool_loop-Calls k run _ heard) j)
              (λ f. none-Calls (λ i. search stays_rules) k j))
          n)

  pub engineer_turn-Calls :
      (run : Key) (messages : List Turn) (p : Prompt) → Calls 8 (engineer_turn out run messages p)
  unfolding engineer_turn
  engineer_turn-Calls run messages p = tool_loop-Calls 8 run _ _
