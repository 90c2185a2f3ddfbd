-- ===== src/Store/Tx/Triple.antt =====
-- Pre- and postconditions of transaction bodies: where `m` succeeds from tables with `P`, its
-- result and the tables that it leaves have `Q`. The rules take a body apart from its first step.
use vibe_forge.Base.{
  ◌≡◌, refl, Bool, true, false, Option, none, some, if◌then◌else◌, subst, arith, Bool-cases, inl,
  inr,
}
use vibe_forge.Store.Model.{Db, Error}
use vibe_forge.Store.Tx.{
  Tx, Result, ok, err, pure, fail, query, or_fail, fail_if, modify, write_if, continue, ◌>>=◌,
  in_tx, settle,
}
use vibe_forge.Store.Tx.Keeps.{Keeps}

pub record Triple {ℓ} {A : Type 0} (P : Db → Type ℓ) (m : Tx A) (Q : A → Db → Type ℓ) : Type ℓ where
  pub at : (db : Db) → P db → (a : A) (db' : Db) → m db ≡ ok (a, db') → Q a db'

module _ {ℓ} {A : Type 0} {P : Db → Type ℓ} where
  pub of_keeps : {m : Tx A} → Keeps P m → Triple P m (λ _. P)
  of_keeps k = record { at = k.at }

  pub to_keeps : {m : Tx A} → Triple P m (λ _. P) → Keeps P m
  to_keeps t = record { at = t.at }

  -- A weaker precondition serves.
  pub from_before :
      {R : Db → Type ℓ} {m : Tx A} {Q : A → Db → Type ℓ}
      → ((db : Db) → P db → R db)
      → Triple R m Q
      → Triple P m Q
  from_before w t = record { at = λ db h. t.at db (w db h) }

  pub from_after :
      {m : Tx A} {R Q : A → Db → Type ℓ}
      → ((a : A) (db : Db) → R a db → Q a db)
      → Triple P m R
      → Triple P m Q
  from_after w t = record { at = λ db h a db' e. w a db' (t.at db h a db' e) }

module _ {ℓ} {A B : Type 0} {P : Db → Type ℓ} {Q : B → Db → Type ℓ} where
  pub after :
      {R : A → Db → Type ℓ} (m : Tx A) (f : A → Tx B)
      → Triple P m R
      → ((a : A) → Triple (R a) (f a) Q)
      → Triple P (m >>= f) Q
  unfolding ◌>>=◌
  after m f t tf = record { at = λ db h b db' e. bound db h b db' (m db) refl e }
    where
      bound :
          (db : Db)
          → P db
          → (b : B) (db' : Db) (r : Result (A × Db)) → m db ≡ r
          → continue r f ≡ ok (b, db')
          → Q b db'
      bound db h b db' (ok (a, mid)) s e = (tf a).at mid (t.at db h a mid s) b db' e
      bound db h b db' (err x) s e = absurd (cc)

  pub after_keeps :
      (m : Tx A) (f : A → Tx B) → Keeps P m → ((a : A) → Triple P (f a) Q) → Triple P (m >>= f) Q
  after_keeps m f k = after m f (of_keeps k)

  -- Nothing is known of the step.
  pub after_any :
      (m : Tx A) (f : A → Tx B) → ((a : A) → Triple (λ db. Unit {ℓ}) (f a) Q) → Triple P (m >>= f) Q
  after_any m f tf = after {R = λ a db. Unit {ℓ}} m f (record { at = λ db h a db' e. tt }) tf

  -- What a query returns is known of the tables behind it.
  pub after_query :
      (s : Db → A) (f : A → Tx B)
      → ((a : A) → Triple (λ db. P db × (s db ≡ a)) (f a) Q)
      → Triple P (query s >>= f) Q
  unfolding ◌>>=◌
  after_query s f tf = record { at = λ db h b db' e. (tf (s db)).at db (h, refl) b db' e }

  pub after_or_fail :
      (x : Error) (o : Option A) (f : A → Tx B)
      → ((a : A) → o ≡ some a → Triple P (f a) Q)
      → Triple P (or_fail x o >>= f) Q
  unfolding ◌>>=◌
  after_or_fail x none f tf = record { at = λ db h b db' e. absurd (cc) }
  after_or_fail x (some a) f tf = record { at = λ db h b db' e. (tf a refl).at db h b db' e }

module _ {ℓ} {B : Type 0} {P : Db → Type ℓ} {Q : B → Db → Type ℓ} where
  pub after_fail_if :
      (c : Bool) (x : Error) (m : Tx B)
      → (c ≡ false → Triple P m Q)
      → Triple P (fail_if c x >>= λ _. m) Q
  unfolding ◌>>=◌
  after_fail_if true x m t = record { at = λ db h b db' e. absurd (cc) }
  after_fail_if false x m t = record { at = λ db h b db' e. (t refl).at db h b db' e }

  pub on_if :
      (c : Bool) (m n : Tx B)
      → (c ≡ true → Triple P m Q)
      → (c ≡ false → Triple P n Q)
      → Triple P (if c then m else n) Q
  on_if true m n tm tn = tm refl
  on_if false m n tm tn = tn refl

module _ {ℓ} {P : Db → Type ℓ} where
  pub on_write_if :
      (holds : Db → Bool) (f : Db → Db) {R : Db → Type ℓ}
      → ((db : Db) → holds db ≡ true → P db → R (f db))
      → Triple P (write_if holds f) (λ _. R)
  unfolding ◌>>=◌
  on_write_if holds f {R} k = record {
    at = λ db h b db' e. elim (Bool-cases (holds db)) [
      | inl t ↦ let same : f db ≡ db' = ground arith in subst R same (k db t h)
      | inr t ↦ absurd (ground arith)
    ];
  }

  pub on_modify :
      (f : Db → Db) {R : Db → Type ℓ} → ((db : Db) → P db → R (f db)) → Triple P (modify f) (λ _. R)
  unfolding ◌>>=◌
  on_modify f {R} k = record {
    at = λ db h b db' e. let same : f db ≡ db' = cc in subst R same (k db h);
  }

module _ {ℓ} {A : Type 0} {P : Db → Type ℓ} where
  pub on_or_fail :
      (x : Error) (o : Option A) {Q : A → Db → Type ℓ}
      → ((a : A) (db : Db) → o ≡ some a → P db → Q a db)
      → Triple P (or_fail x o) Q
  unfolding ◌>>=◌
  on_or_fail x none k = record { at = λ db h b db' e. absurd (cc) }
  on_or_fail x (some a) {Q} k = record {
    at = λ db h b db' e.
        let value : a ≡ b = cc in
        let same : db ≡ db' = cc in
        subst (λ c. Q c db') value (subst (λ t. Q a t) same (k a db refl h));
  }

module _ {ℓ} {A : Type 0} {P : Db → Type ℓ} where
  pub on_pure : (a : A) {Q : A → Db → Type ℓ} → ((db : Db) → P db → Q a db) → Triple P (pure a) Q
  unfolding ◌>>=◌
  on_pure a {Q} k = record {
    at = λ db h b db' e.
        let value : a ≡ b = cc in
        let same : db ≡ db' = cc in subst (λ c. Q c db') value (subst (λ t. Q a t) same (k db h));
  }

  pub on_fail : (x : Error) {Q : A → Db → Type ℓ} → Triple P (fail x) Q
  unfolding ◌>>=◌
  on_fail x = record { at = λ db h b db' e. absurd (cc) }

-- A body that cannot succeed leaves the tables as they were.
pub in_tx-refused :
    {A : Type 0} {P : Db → Type 0} (m : Tx A)
    → Triple P m (λ _ _. ⊥)
    → (db : Db) → P db
    → (in_tx m db).1 ≡ db
unfolding in_tx
in_tx-refused {A} m t db h = settled (m db) refl
  where
    settled : (r : Result (A × Db)) → m db ≡ r → (settle db r).1 ≡ db
    settled (ok (a, db')) e = absurd (t.at db h a db' e)
    settled (err x) e = refl
