-- ===== src/Store/Tx.antt =====
-- database/sql transactions: a transaction body reads and writes the tables and may return an
-- error, which rolls every write back (`inTx` of internal/store/project.go).
pub mod Keeps
pub mod Triple
pub mod Total
use vibe_forge.Base.{◌≡◌, Bool, true, false, Option, none, some, if◌then◌else◌, List, []}
use vibe_forge.Store.Model.{Db, Error, database}

pub data Result {ℓ} (A : Type ℓ) : Type ℓ where
  ok : A → Result A
  err : Error → Result A

abbrev pub Tx : Type 0 → Type 0
Tx A = Db → Result (A × Db)

module _ {A : Type 0} where
  unfoldable pub pure : A → Tx A
  pure a db = ok (a, db)

  unfoldable pub fail : Error → Tx A
  fail e db = err e

  unfoldable pub query : (Db → A) → Tx A
  query f db = ok (f db, db)

  -- A SELECT that must find a row.
  unfoldable pub or_fail : Error → Option A → Tx A
  or_fail e none db = err e
  or_fail e (some a) db = ok (a, db)

unfoldable pub fail_if : Bool → Error → Tx (Unit {0})
fail_if true e db = err e
fail_if false e db = ok (tt, db)

unfoldable pub modify : (Db → Db) → Tx (Unit {0})
modify f db = ok (tt, f db)

-- A statement under constraints: the database refuses it where they do not hold.
unfoldable pub write_if : (Db → Bool) → (Db → Db) → Tx (Unit {0})
write_if holds f db = if holds db then ok (tt, f db) else err database

abbrev continue : {A B : Type 0} → Result (A × Db) → (A → Tx B) → Result (B × Db)
continue (ok (a, db)) f = f a db
continue (err e) f = err e

infixl 5 ◌>>=◌ ◌>>◌
-- Opening this opens the steps too.
unfoldable pub ◌>>=◌ : {A B : Type 0} → Tx A → (A → Tx B) → Tx B
unfolding pure fail query or_fail fail_if modify write_if
◌>>=◌ m f db = continue (m db) f

abbrev pub ◌>>◌ : {B : Type 0} → Tx (Unit {0}) → Tx B → Tx B
m >> k = m >>= λ _. k

abbrev pub settle : {A : Type 0} → Db → Result (A × Db) → Result A × Db
settle db (ok (a, db')) = (ok a, db')
settle db (err e) = (err e, db)

-- inTx: commit, or roll back to the tables before.
unfoldable pub in_tx : {A : Type 0} → Tx A → Db → Result A × Db
in_tx m db = settle db (m db)
