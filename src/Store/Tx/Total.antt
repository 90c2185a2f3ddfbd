-- ===== src/Store/Tx/Total.antt =====
-- Transaction bodies that succeed: from tables with `P` the body returns a result, and `Q` holds of it
-- and the tables that it leaves.
use vibe_forge.Base.{◌≡◌, ◌∙◌, refl, ap, subst, Bool, true, false, Option, some, if◌then◌else◌}
use vibe_forge.Store.Model.{Db, Error}
use vibe_forge.Store.Tx.{Tx, ok, pure, query, or_fail, modify, write_if, continue, ◌>>=◌}
use vibe_forge.Store.Tx.Triple.{Triple}

pub record Total {ℓ} {A : Type 0} (P : Db → Type ℓ) (m : Tx A) (Q : A → Db → Type ℓ) : Type ℓ where
  pub at : (db : Db) → P db → (a : A) × (db' : Db) × (m db ≡ ok (a, db')) × Q a db'

module _ {ℓ} {A : Type 0} {P : Db → Type ℓ} where
  pub total-Triple : {m : Tx A} {Q : A → Db → Type ℓ} → Total P m Q → Triple P m Q
  total-Triple {m} {Q} t = record {
    at = λ db h a db' e.
        let (b, mid, runs, q) = t.at db h in
        let value : b ≡ a = cc in
        let same : mid ≡ db' = cc in subst (λ c. Q c db') value (subst (Q b) same q);
  }

  pub pure-Total : (a : A) {Q : A → Db → Type ℓ} → ((db : Db) → P db → Q a db) → Total P (pure a) Q
  unfolding ◌>>=◌
  pure-Total a k = record { at = λ db h. (a, db, refl, k db h) }

  pub query-Total :
      (f : Db → A) {Q : A → Db → Type ℓ} → ((db : Db) → P db → Q (f db) db) → Total P (query f) Q
  unfolding ◌>>=◌
  query-Total f k = record { at = λ db h. (f db, db, refl, k db h) }

  pub or_fail-Total :
      (x : Error) (o : Option A) {Q : A → Db → Type ℓ}
      → ((db : Db) → P db → (a : A) × (o ≡ some a) × Q a db)
      → Total P (or_fail x o) Q
  unfolding ◌>>=◌
  or_fail-Total x o k = record {
    at = λ db h. let (a, found, q) = k db h in (a, db, rw (found) refl, q);
  }

  pub if-Total :
      (c : Bool) (m n : Tx A) {Q : A → Db → Type ℓ}
      → (c ≡ true → Total P m Q)
      → (c ≡ false → Total P n Q)
      → Total P (if c then m else n) Q
  if-Total true m n t f = t refl
  if-Total false m n t f = f refl

module _ {ℓ} {P : Db → Type ℓ} where
  pub modify-Total :
      (f : Db → Db) {R : Db → Type ℓ} → ((db : Db) → P db → R (f db)) → Total P (modify f) (λ u. R)
  unfolding ◌>>=◌
  modify-Total f k = record { at = λ db h. (tt, f db, refl, k db h) }

  pub write_if-Total :
      (holds : Db → Bool) (f : Db → Db) {R : Db → Type ℓ}
      → ((db : Db) → P db → (holds db ≡ true) × R (f db))
      → Total P (write_if holds f) (λ u. R)
  unfolding ◌>>=◌
  write_if-Total holds f k = record {
    at = λ db h. let (t, r) = k db h in (tt, f db, rw (t) refl, r);
  }

module _ {ℓ} {A B : Type 0} {P : Db → Type ℓ} {Q : B → Db → Type ℓ} where
  pub bind-Total :
      {R : A → Db → Type ℓ} (m : Tx A) (f : A → Tx B)
      → Total P m R
      → ((a : A) → Total (R a) (f a) Q)
      → Total P (m >>= f) Q
  unfolding ◌>>=◌
  bind-Total m f t k = record {
    at = λ db h.
        let (a, mid, runs, r) = t.at db h in
        let (b, last, more, q) = (k a).at mid r in (b, last, ap (λ x. continue x f) runs ∙ more, q);
  }
