-- ===== src/Agent/Runner/Hoare.antt =====
-- Pre- and postconditions of the runner's steps, failures included: one rule for each way to build
-- a step.
use vibe_forge.Base.{ℕ, ◌≡◌, refl, sym, subst, Bool, true, false, Option, none, some, if◌then◌else◌}
use vibe_forge.Store.Model.{Key, Db, Env}
use vibe_forge.Store.Tx.{Tx, Result, ok, err, in_tx, settle}
use vibe_forge.Store.Tx.Keeps.{Keeps}
use vibe_forge.Store.Tx.Triple.{Triple, of_keeps}
use vibe_forge.Agent.Client.{Failure, Outside}
use vibe_forge.Agent.Runner.{
  World, Outcome, done, failed, Step, return, raise, quietly, change, ◌>>=◌, carry_on, call_unless,
  before_call, answered, store_call,
}

-- `Q` of a result and its world, `E` of the world behind a failure.
abbrev pub Ends {ℓ} :
    {A : Type 0} → (A → World → Type ℓ) → (World → Type ℓ) → Outcome A × World → Type ℓ
Ends Q E (done a, w) = Q a w
Ends Q E (failed f, w) = E w

pub record Hoare {ℓ} {A : Type 0} (P : World → Type ℓ) (m : Step A) (Q : A → World → Type ℓ)
    (E : World → Type ℓ) : Type ℓ where
  pub at : (w : World) → P w → Ends Q E (m w)

-- The step keeps `P`, whether it fails or not.
abbrev pub Stays {ℓ} : {A : Type 0} → (World → Type ℓ) → Step A → Type ℓ
Stays P m = Hoare P m (λ a. P) P

module _ {ℓ} {A : Type 0} where
  pub Ends-weaken :
      {Q R : A → World → Type ℓ} {E F : World → Type ℓ} (r : Outcome A × World)
      → ((a : A) (w : World) → Q a w → R a w)
      → ((w : World) → E w → F w)
      → Ends Q E r
      → Ends R F r
  Ends-weaken (done a, w) kq ke h = kq a w h
  Ends-weaken (failed f, w) kq ke h = ke w h

  Ends-quietly : (R : World → Type ℓ) (r : Outcome A × World) → Ends (λ a. R) R r → R r.1
  Ends-quietly R (done a, w) h = h
  Ends-quietly R (failed f, w) h = h

module _ {ℓ} {A B : Type 0} {Q : B → World → Type ℓ} {E : World → Type ℓ} where
  continued :
      (R : A → World → Type ℓ) (f : A → Step B)
      → ((a : A) → Hoare (R a) (f a) Q E)
      → (r : Outcome A × World) → Ends R E r
      → Ends Q E (carry_on r f)
  continued R f k (done a, w) h = (k a).at w h
  continued R f k (failed x, w) h = h

module _ {ℓ} {A : Type 0} {P : World → Type ℓ} where
  pub from_world :
      {R : World → Type ℓ} {m : Step A} {Q : A → World → Type ℓ} {E : World → Type ℓ}
      → ((w : World) → P w → R w)
      → Hoare R m Q E
      → Hoare P m Q E
  from_world k h = record { at = λ w p. h.at w (k w p) }

  pub to_world :
      {m : Step A} {Q R : A → World → Type ℓ} {E F : World → Type ℓ}
      → ((a : A) (w : World) → Q a w → R a w)
      → ((w : World) → E w → F w)
      → Hoare P m Q E
      → Hoare P m R F
  to_world {m} kq ke h = record { at = λ w p. Ends-weaken (m w) kq ke (h.at w p) }

  pub on_return :
      (a : A) {Q : A → World → Type ℓ} {E : World → Type ℓ}
      → ((w : World) → P w → Q a w)
      → Hoare P (return a) Q E
  unfolding ◌>>=◌
  on_return a k = record { at = k }

  pub on_raise :
      (f : Failure) {Q : A → World → Type ℓ} {E : World → Type ℓ}
      → ((w : World) → P w → E w)
      → Hoare P (raise {A = A} f) Q E
  unfolding ◌>>=◌
  on_raise f k = record { at = k }

  -- What is known besides the world.
  pub given :
      {F : Type ℓ} {m : Step A} {Q : A → World → Type ℓ} {E : World → Type ℓ}
      → (F → Hoare P m Q E)
      → Hoare (λ w. P w × F) m Q E
  given k = record { at = λ w h. (k h.1).at w h.0 }

  pub return-Stays : (a : A) → Stays P (return a)
  return-Stays a = on_return a (λ w p. p)

  pub raise-Stays : (f : Failure) → Stays P (raise {A = A} f)
  raise-Stays f = on_raise f (λ w p. p)

  pub on_choice :
      (c : Bool) (m n : Step A) {Q : A → World → Type ℓ} {E : World → Type ℓ}
      (when : c ≡ true → Hoare P m Q E) (unless : c ≡ false → Hoare P n Q E)
      → Hoare P (if c then m else n) Q E
  on_choice true m n when unless = when refl
  on_choice false m n when unless = unless refl

  -- A failure that is logged alone ends like a success.
  pub on_quietly :
      (m : Step A) {R E : World → Type ℓ} → Hoare P m (λ a. R) R → Hoare P (quietly m) (λ u. R) E
  unfolding ◌>>=◌
  on_quietly m {R} {E} h = record { at = λ w p. Ends-quietly R (m w) (h.at w p) }

  pub quietly-Stays : (m : Step A) → Stays P m → Stays P (quietly m)
  quietly-Stays m h = on_quietly m h

module _ {ℓ} {P : World → Type ℓ} where
  pub on_change :
      (f : World → World) {R E : World → Type ℓ}
      → ((w : World) → P w → R (f w))
      → Hoare P (change f) (λ u. R) E
  unfolding ◌>>=◌
  on_change f k = record { at = k }

module _ {ℓ} {A B : Type 0} {P : World → Type ℓ} {Q : B → World → Type ℓ} {E : World → Type ℓ} where
  pub on_bind :
      {R : A → World → Type ℓ} (m : Step A) (f : A → Step B)
      → Hoare P m R E
      → ((a : A) → Hoare (R a) (f a) Q E)
      → Hoare P (m >>= f) Q E
  unfolding ◌>>=◌
  on_bind {R} m f h k = record { at = λ w p. continued R f k (m w) (h.at w p) }

module _ {ℓ} {A B : Type 0} {P : World → Type ℓ} where
  pub bind-Stays :
      (m : Step A) (f : A → Step B) → Stays P m → ((a : A) → Stays P (f a)) → Stays P (m >>= f)
  bind-Stays m f h k = on_bind m f h k

-- A predicate of the current draft and the tables, on worlds.
abbrev pub OnWorld {ℓ} : (Option Key → Db → Type ℓ) → World → Type ℓ
OnWorld K w = K w.current_draft w.db

-- A predicate of the tables, on worlds.
abbrev pub OnDb {ℓ} : (Db → Type ℓ) → World → Type ℓ
OnDb K w = K w.db

module _ {ℓ} {A : Type 0} (K : Option Key → Db → Type ℓ) (R : A → Option Key → Db → Type ℓ) where
  answered-Ends :
      (w : World) (db : Db) (r : Result (A × Db))
      → K w.current_draft db
      → ((a : A) (db' : Db) → r ≡ ok (a, db') → R a w.current_draft db')
      → Ends (λ a. OnWorld (R a)) (OnWorld K) (answered w (settle db r))
  answered-Ends w db (ok (a, db')) h k = k a db' refl
  answered-Ends w db (err e) h k = h

  module _ (out : Outside)
      (others : (c : Option Key) (n : ℕ) (db : Db) → K c db → K c (out.others n db)) where
    call_unless-Ends :
        (refusal : Option Failure) (tx : Tx A) (w : World)
        → Triple (K w.current_draft) tx (λ a. R a w.current_draft)
        → K w.current_draft w.db
        → Ends (λ a. OnWorld (R a)) (OnWorld K) (call_unless out refusal tx w)
    unfolding in_tx
    call_unless-Ends (some f) tx w t h = h
    call_unless-Ends none tx w t h = answered-Ends w w.db (tx w.db) h (t.at w.db h)

    -- A call of the store: refused or rolled back, it leaves what held before.
    pub on_draft_call :
        (tx : Env → Tx A)
        → ((c : Option Key) (env : Env) → Triple (K c) (tx env) (λ a. R a c))
        → Hoare (OnWorld K) (store_call out tx) (λ a. OnWorld (R a)) (OnWorld K)
    unfolding store_call
    on_draft_call tx t = record {
      at = λ w h.
          call_unless-Ends (out.refuses w.calls) (tx (out.env w.calls)) (before_call out w)
            (t w.current_draft (out.env w.calls)) (others w.current_draft w.calls w.db h);
    }

module _ {ℓ} {A : Type 0} (K : Db → Type ℓ) (R : A → Db → Type ℓ) (out : Outside)
    (others : (n : ℕ) (db : Db) → K db → K (out.others n db)) where
  pub on_call :
      (tx : Env → Tx A)
      → ((env : Env) → Triple K (tx env) R)
      → Hoare (OnDb K) (store_call out tx) (λ a. OnDb (R a)) (OnDb K)
  on_call tx t = on_draft_call (λ c. K) (λ a c. R a) out (λ c. others) tx (λ c. t)

module _ {ℓ} {A : Type 0} (K : Option Key → Db → Type ℓ) (out : Outside)
    (others : (c : Option Key) (n : ℕ) (db : Db) → K c db → K c (out.others n db)) where
  pub call-Stays :
      (tx : Env → Tx A)
      → ((c : Option Key) (env : Env) → Keeps (K c) (tx env))
      → Stays (OnWorld K) (store_call out tx)
  call-Stays tx k = on_draft_call K (λ a. K) out others tx (λ c env. of_keeps (k c env))

-- A change that leaves the draft and the tables alone.
pub same_tables-Stays {ℓ} :
    (K : Option Key → Db → Type ℓ) (f : World → World)
    → ((w : World) → (f w).current_draft ≡ w.current_draft)
    → ((w : World) → (f w).db ≡ w.db)
    → Stays (OnWorld K) (change f)
same_tables-Stays K f c e =
    on_change f {R = OnWorld K}
      λ w h. subst (λ d. K d (f w).db) (sym (c w)) (subst (K w.current_draft) (sym (e w)) h)

pub ruleset stays_rules = (return-Stays, raise-Stays, quietly-Stays, bind-Stays)
