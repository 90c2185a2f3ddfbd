-- ===== src/Agent/Runner/Served.antt =====
-- A call of the store (internal/agent/agent.go) that is not refused and whose body succeeds does not
-- fail.
use vibe_forge.Base.{ℕ, ◌≡◌, Option, none, some}
use vibe_forge.Store.Model.{Key, Db, Env}
use vibe_forge.Store.Tx.{Tx, in_tx}
use vibe_forge.Store.Tx.Total.{Total}
use vibe_forge.Agent.Client.{Failure, Outside}
use vibe_forge.Agent.Runner.{World, call_unless, before_call, store_call}
use vibe_forge.Agent.Runner.Hoare.{Hoare, Ends, OnWorld}

module _ {A : Type 0} (P : Option Key → Db → Type 0) (R : A → Option Key → Db → Type 0)
    (out : Outside) (others : (c : Option Key) (n : ℕ) (db : Db) → P c db → P c (out.others n db))
    (serves : (n : ℕ) → out.refuses n ≡ none) (E : World → Type 0) where
  answered-Total :
      (refusal : Option Failure) (tx : Tx A) (w : World)
      → refusal ≡ none
      → Total (P w.current_draft) tx (λ a. R a w.current_draft)
      → P w.current_draft w.db
      → Ends (λ a. OnWorld (R a)) E (call_unless out refusal tx w)
  unfolding in_tx
  answered-Total (some f) tx w served t h = absurd (cc)
  answered-Total none tx w served t h = let (a, db, runs, q) = t.at w.db h in rw (runs) q

  pub on_served_call :
      (tx : Env → Tx A)
      → ((c : Option Key) (env : Env) → Total (P c) (tx env) (λ a. R a c))
      → Hoare (OnWorld P) (store_call out tx) (λ a. OnWorld (R a)) E
  unfolding store_call
  on_served_call tx t = record {
    at = λ w h.
        answered-Total (out.refuses w.calls) (tx (out.env w.calls)) (before_call out w)
          (serves w.calls) (t w.current_draft (out.env w.calls))
          (others w.current_draft w.calls w.db h);
  }
