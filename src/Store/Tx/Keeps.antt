-- ===== src/Store/Tx/Keeps.antt =====
-- Invariants of transaction bodies: one rule for each way to build a body.
use vibe_forge.Base.{
  ◌≡◌, refl, Bool, true, false, Option, none, some, if◌then◌else◌, arith, Bool-cases, inl, inr,
}
use vibe_forge.Store.Model.{Db, Error}
use vibe_forge.Store.Tx.{
  Tx, Result, ok, err, pure, fail, query, or_fail, fail_if, modify, write_if, continue, ◌>>=◌,
  settle, in_tx,
}

-- Where the body `m` succeeds from tables with `P`, the tables that it leaves have `P`.
pub record Keeps {ℓ} {A : Type 0} (P : Db → Type ℓ) (m : Tx A) : Type ℓ where
  pub at : (db : Db) → P db → (a : A) (db' : Db) → m db ≡ ok (a, db') → P db'

snd_eq {ℓ} :
    {A : Type 0} (P : Db → Type ℓ) {a b : A} {db db' : Db}
    → P db
    → ◌≡◌ {A = Result (A × Db)} (ok (a, db)) (ok (b, db'))
    → P db'
snd_eq P {a} {b} {db} {db'} h e = let same : db ≡ db' = cc in rw (← same) h

module _ {ℓ} {A : Type 0} {P : Db → Type ℓ} where
  pub Keeps-pure : (a : A) → Keeps P (pure a)
  unfolding ◌>>=◌
  Keeps-pure a = record { at = λ db h b db' e. snd_eq P h e }

  pub Keeps-fail : (e : Error) → Keeps P (fail {A = A} e)
  unfolding ◌>>=◌
  Keeps-fail x = record { at = λ db h b db' e. absurd (cc) }

  pub Keeps-query : (f : Db → A) → Keeps P (query f)
  unfolding ◌>>=◌
  Keeps-query f = record { at = λ db h b db' e. snd_eq P h e }

  pub Keeps-or_fail : (e : Error) (o : Option A) → Keeps P (or_fail e o)
  unfolding ◌>>=◌
  Keeps-or_fail x none = record { at = λ db h b db' e. absurd (cc) }
  Keeps-or_fail x (some a) = record { at = λ db h b db' e. snd_eq P h e }

  pub Keeps-if :
      (test : Bool) (hit miss : Tx A) (when : test ≡ true → Keeps P hit)
      (unless : test ≡ false → Keeps P miss)
      → Keeps P (if test then hit else miss)
  Keeps-if true hit miss when unless = when refl
  Keeps-if false hit miss when unless = unless refl

module _ {ℓ} {P : Db → Type ℓ} where
  pub Keeps-fail_if : (b : Bool) (e : Error) → Keeps P (fail_if b e)
  unfolding ◌>>=◌
  Keeps-fail_if true x = record { at = λ db h b db' e. absurd (cc) }
  Keeps-fail_if false x = record { at = λ db h b db' e. snd_eq P h e }

  pub Keeps-modify : (f : Db → Db) → ((db : Db) → P db → P (f db)) → Keeps P (modify f)
  unfolding ◌>>=◌
  Keeps-modify f k = record { at = λ db h b db' e. snd_eq P (k db h) e }

  pub Keeps-write_if :
      (holds : Db → Bool) (f : Db → Db)
      → ((db : Db) → holds db ≡ true → P db → P (f db))
      → Keeps P (write_if holds f)
  unfolding ◌>>=◌
  Keeps-write_if holds f k = record {
    at = λ db h b db' e. elim (Bool-cases (holds db)) [
      | inl t ↦ snd_eq P (k db t h) (rw t at e)
      | inr t ↦ absurd (ground arith)
    ];
  }

module _ {ℓ} {A B : Type 0} {P : Db → Type ℓ} where
  pub Keeps-bind :
      (m : Tx A) (f : A → Tx B) → Keeps P m → ((a : A) → Keeps P (f a)) → Keeps P (m >>= f)
  unfolding ◌>>=◌
  Keeps-bind m f km kf = record { at = λ db h b db' e. bound db h b db' (m db) refl e }
    where
      bound :
          (db : Db)
          → P db
          → (b : B) (db' : Db) (r : Result (A × Db)) → m db ≡ r
          → continue r f ≡ ok (b, db')
          → P db'
      bound db h b db' (ok (a, mid)) t e = (kf a).at mid (km.at db h a mid t) b db' e
      bound db h b db' (err x) t e = absurd (cc)

pub ruleset keeps_rules =
    (Keeps-pure, Keeps-fail, Keeps-query, Keeps-or_fail, Keeps-if, Keeps-fail_if, Keeps-bind)

-- A transaction keeps what its body keeps: an error rolls the tables back.
pub in_tx-keeps {ℓ} :
    {A : Type 0} {P : Db → Type ℓ} (m : Tx A) → Keeps P m → (db : Db) → P db → P (in_tx m db).1
unfolding in_tx
in_tx-keeps {A} {P} m k db h = settled (m db) refl
  where
    settled : (r : Result (A × Db)) → m db ≡ r → P (settle db r).1
    settled (ok (a, db')) t = k.at db h a db' t
    settled (err e) t = h
