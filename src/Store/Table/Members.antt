-- ===== src/Store/Table/Members.antt =====
-- Which rows a SELECT returns, and that sorting them loses none.
use mathlib.Core.List.{Memᴰ}
use mathlib.Core.List.Memᴰ
use vibe_forge.Base.{
  ℕ, ◌≡◌, ◌⊎◌, ◌↔◌, sym, subst, Bool, true, List, [], ◌∷◌, leb, Bool-cases, inl, inr,
}
use vibe_forge.Store.Table.{select_where, insert_by, sort_by}

module _ {R : Type 0} where
  -- The row is one of the list.
  abbrev pub IsIn : R → List R → Type 0
  IsIn r rows = Memᴰ r rows

  pub select_where-IsIn :
      (p : R → Bool) (x : R) (events : List R)
      → IsIn x (select_where p events) ↔ (IsIn x events × (p x ≡ true))
  unfolding select_where
  select_where-IsIn p x [] = (λ m. absurd (Memᴰ.not-nil m), λ h. h.0)
  select_where-IsIn p x (e ∷ events) =
      let more = select_where-IsIn p x events in
      elim (Bool-cases (p e)) [
        | inl t ↦ rw (t) (
          λ m. elim (Memᴰ.cases_cons m) [
            | inl q ↦ (Memᴰ.head q, subst (λ y. p y ≡ true) (sym q) t)
            | inr n ↦ let k = more.0 n in (Memᴰ.tail k.0, k.1)
          ],
          λ h. elim (Memᴰ.cases_cons h.0) [
            | inl q ↦ Memᴰ.head q
            | inr n ↦ Memᴰ.tail (more.1 (n, h.1))
          ],
        )
        | inr f ↦ rw (f) (
          λ m. let k = more.0 m in (Memᴰ.tail k.0, k.1),
          λ h. elim (Memᴰ.cases_cons h.0) [
            | inl q ↦ absurd (cc (subst (λ y. p y ≡ true) q h.1, f))
            | inr n ↦ more.1 (n, h.1)
          ],
        )
      ]

  insert_by-IsIn :
      (column : R → ℕ) (x r : R) (rows : List R)
      → IsIn x (insert_by column r rows) ↔ ((x ≡ r) ⊎ IsIn x rows)
  unfolding insert_by
  insert_by-IsIn column x r [] =
      (λ m. Memᴰ.cases_cons m, elim [ inl q ↦ Memᴰ.head q | inr m ↦ absurd (Memᴰ.not-nil m) ])
  insert_by-IsIn column x r (d ∷ rows) = elim (Bool-cases (leb (column r) (column d))) [
    | inl t ↦ rw (t) (λ m. Memᴰ.cases_cons m, elim [ inl q ↦ Memᴰ.head q | inr m ↦ Memᴰ.tail m ])
    | inr f ↦
        let more = insert_by-IsIn column x r rows in
        rw (f) (
          λ m. elim (Memᴰ.cases_cons m) [
            | inl q ↦ inr (Memᴰ.head q)
            | inr n ↦ elim (more.0 n) [ inl q ↦ inl q | inr k ↦ inr (Memᴰ.tail k) ]
          ],
          elim [
            | inl q ↦ Memᴰ.tail (more.1 (inl q))
            | inr m ↦ elim (Memᴰ.cases_cons m) [
              | inl q ↦ Memᴰ.head q
              | inr k ↦ Memᴰ.tail (more.1 (inr k))
            ]
          ],
        )
  ]

  pub sort_by-IsIn :
      (column : R → ℕ) (x : R) (rows : List R) → IsIn x (sort_by column rows) ↔ IsIn x rows
  unfolding sort_by
  sort_by-IsIn column x [] = (λ m. m, λ m. m)
  sort_by-IsIn column x (r ∷ rows) =
      let here = insert_by-IsIn column x r (sort_by column rows) in
      let more = sort_by-IsIn column x rows in
      (
        λ m. elim (here.0 m) [ inl q ↦ Memᴰ.head q | inr n ↦ Memᴰ.tail (more.0 n) ],
        λ m. elim (Memᴰ.cases_cons m) [ inl q ↦ here.1 (inl q) | inr n ↦ here.1 (inr (more.1 n)) ],
      )
