-- ===== src/Store/Table.antt =====
-- Rows of a table with a primary key: SELECT by key, INSERT at the end, UPDATE … WHERE. A lemma for
-- each says what a SELECT by key sees behind it.
pub mod Members
use mathlib.Core.Option
use vibe_forge.Base.{
  ℕ, suc, ◌≡◌, refl, Bool, Option, none, some, List, [], ◌∷◌, ◌++◌, arith, leb, ◌==◌, if◌then◌else◌,
}

module _ {ℓ} {R : Type ℓ} where
  -- SELECT … WHERE test LIMIT 1
  unfoldable pub first_where : (R → Bool) → List R → Option R
  first_where test [] = none
  first_where test (r ∷ rows) = let more = first_where test rows in if test r then some r else more

  unfoldable pub select_where : (R → Bool) → List R → List R
  select_where test [] = []
  select_where test (r ∷ rows) =
      let more = select_where test rows in if test r then r ∷ more else more

  -- UPDATE … SET f WHERE test
  unfoldable pub update_where : (R → Bool) → (R → R) → List R → List R
  update_where test f [] = []
  update_where test f (r ∷ rows) = (if test r then f r else r) ∷ update_where test f rows

  -- RowsAffected of an UPDATE, and COUNT(*).
  unfoldable pub count_where : (R → Bool) → List R → ℕ
  count_where test [] = 0
  count_where test (r ∷ rows) =
      let more = count_where test rows in if test r then suc more else more

  -- COALESCE(MAX(column), 0) … WHERE test
  unfoldable pub max_where : (R → Bool) → (R → ℕ) → List R → ℕ
  max_where test column [] = 0
  max_where test column (r ∷ rows) =
      let more = max_where test column rows in
      if test r then (if leb more (column r) then column r else more) else more

  -- ORDER BY column ASC; rows with the same value stay in the order of insertion.
  unfoldable pub insert_by : (R → ℕ) → R → List R → List R
  insert_by column r [] = r ∷ []
  insert_by column r (q ∷ rows) =
      let more = insert_by column r rows in
      if leb (column r) (column q) then r ∷ q ∷ rows else q ∷ more

  unfoldable pub sort_by : (R → ℕ) → List R → List R
  sort_by column [] = []
  sort_by column (r ∷ rows) = insert_by column r (sort_by column rows)

module _ {ℓ} {R : Type ℓ} (key : R → ℕ) where
  -- SELECT … WHERE key = k
  unfoldable pub by_key : ℕ → List R → Option R
  by_key k [] = none
  by_key k (r ∷ rows) = let more = by_key k rows in if key r == k then some r else more

  -- UPDATE … SET f WHERE key = k
  unfoldable pub update_key : ℕ → (R → R) → List R → List R
  update_key k f [] = []
  update_key k f (r ∷ rows) = (if key r == k then f r else r) ∷ update_key k f rows

  pub by_key-insert :
      (k : ℕ) (rows : List R) (r : R)
      → by_key k (rows ++ r ∷ [])
        ≡ elim (by_key k rows) [ some old ↦ some old | none ↦ if key r == k then some r else none ]
  unfolding by_key
  by_key-insert k [] r = refl
  by_key-insert k (q ∷ rows) r = ground (arith, by_key-insert k rows r)

  -- The row that `by_key` returns has the key.
  pub key-by_key : (k : ℕ) (rows : List R) (r : R) → by_key k rows ≡ some r → key r ≡ k
  unfolding by_key
  key-by_key k [] r h = cc
  key-by_key k (q ∷ rows) r h = ground (arith, key-by_key k rows r)

  -- An update that keeps keys is seen at its own key alone.
  pub by_key-update :
      (j k : ℕ) (f : R → R) (rows : List R)
      → ((r : R) → key (f r) ≡ key r)
      → by_key j (update_key k f rows)
        ≡ (if k == j then Option.map f (by_key j rows) else by_key j rows)
  unfolding by_key update_key
  by_key-update j k f [] keeps = ground arith
  by_key-update j k f (q ∷ rows) keeps = ground (arith, by_key-update j k f rows keeps, keeps q)
