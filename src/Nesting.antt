-- ===== src/Nesting.antt =====
-- Balanced nesting of opening and closing tokens: a matcher with a stack decides the grammar. The
-- two scanners of internal/compile/compile.go are refinements of this matcher.
use vibe_forge.Base.{
  ◌≡◌, ◌↔◌, refl, Bool, true, false, List, [], ◌∷◌, ◌++◌, append_assoc, append-nil, arith,
  if◌then◌else◌,
}

pub data Token {ℓ} (A : Type ℓ) : Type ℓ where
  open_with : A → Token A
  close_of : A → Token A
  plain : Token A

-- The grammar: nothing, a plain token and more, or a matched pair around and before more.
pub data Balanced {ℓ} {A : Type ℓ} : List (Token A) → Type ℓ where
  nothing : Balanced []
  skip : {ts : List (Token A)} → Balanced ts → Balanced (plain ∷ ts)
  pair :
      {ts : List (Token A)}
      → (a : A) (inner rest : List (Token A)) → ts ≡ inner ++ close_of a ∷ rest
      → Balanced inner
      → Balanced rest
      → Balanced (open_with a ∷ ts)

module _ {ℓ} {A : Type ℓ} (same : A → A → Bool) where
  unfoldable pub accepts : List A → List (Token A) → Bool
  accepts [] [] = true
  accepts (a ∷ stack) [] = false
  accepts stack (plain ∷ ts) = accepts stack ts
  accepts stack (open_with a ∷ ts) = accepts (a ∷ stack) ts
  accepts [] (close_of a ∷ ts) = false
  accepts (b ∷ stack) (close_of a ∷ ts) =
      let more = accepts stack ts in if same b a then more else false

-- What is left to read while `stack` is open.
abbrev Nest {ℓ} : {A : Type ℓ} → List A → List (Token A) → Type ℓ
Nest [] ts = Balanced ts
Nest {A} (a ∷ stack) ts =
    (inner : List (Token A)) × (rest : List (Token A)) × (ts ≡ inner ++ close_of a ∷ rest)
    × Balanced inner
    × Nest stack rest

module _ {ℓ} {A : Type ℓ} where
  Nest-plain : (stack : List A) (ts : List (Token A)) → Nest stack ts → Nest stack (plain ∷ ts)
  Nest-plain [] ts n = skip n
  Nest-plain (a ∷ stack) ts (inner, rest, e, b, n) = (plain ∷ inner, rest, cc, skip b, n)

  Nest-open :
      (a : A) (stack : List A) (ts : List (Token A))
      → Nest (a ∷ stack) ts
      → Nest stack (open_with a ∷ ts)
  Nest-open a [] ts (inner, rest, e, b, n) = pair a inner rest e b n
  Nest-open a (c ∷ stack) ts (inner, rest, e, b, (inner', rest', e', b', n)) = (
    open_with a ∷ (inner ++ close_of a ∷ inner'),
    rest',
    rw (e, e') (simp append_assoc),
    pair a inner inner' refl b b',
    n,
  )

module _ {ℓ} {A : Type ℓ} (same : A → A → Bool) where
  module _ (sound : (a b : A) → same a b ≡ true → a ≡ b) where
    accepts-Nest :
        (stack : List A) (ts : List (Token A)) → accepts same stack ts ≡ true → Nest stack ts
    unfolding accepts
    accepts-Nest [] [] h = nothing
    accepts-Nest (a ∷ stack) [] h = cc
    accepts-Nest [] (plain ∷ ts) h = Nest-plain [] ts (accepts-Nest [] ts h)
    accepts-Nest (b ∷ stack) (plain ∷ ts) h =
        Nest-plain (b ∷ stack) ts (accepts-Nest (b ∷ stack) ts h)
    accepts-Nest [] (open_with a ∷ ts) h = Nest-open a [] ts (accepts-Nest (a ∷ []) ts h)
    accepts-Nest (b ∷ stack) (open_with a ∷ ts) h =
        Nest-open a (b ∷ stack) ts (accepts-Nest (a ∷ b ∷ stack) ts h)
    accepts-Nest [] (close_of a ∷ ts) h = cc
    accepts-Nest (b ∷ stack) (close_of a ∷ ts) h =
        ([], ts, rw (sound b a (ground arith)), nothing, accepts-Nest stack ts (ground arith))

  module _ (complete : (a : A) → same a a ≡ true) where
    accepts-append :
        {b : List (Token A)}
        → Balanced b
        → (stack : List A) (ts : List (Token A))
        → accepts same stack (b ++ ts) ≡ accepts same stack ts
    unfolding accepts
    accepts-append nothing stack ts = refl
    accepts-append (skip b) stack ts = accepts-append b stack ts
    accepts-append (pair a inner rest e i r) stack ts =
        rw (e, append_assoc, accepts-append i (a ∷ stack) (close_of a ∷ rest ++ ts), complete a)
          (accepts-append r stack ts)

  -- The matcher, from an empty stack, accepts exactly the balanced sequences.
  pub accepts_iff :
      ((a b : A) → same a b ≡ true → a ≡ b)
      → ((a : A) → same a a ≡ true)
      → (ts : List (Token A)) → (accepts same [] ts ≡ true) ↔ Balanced ts
  unfolding accepts
  accepts_iff sound complete ts = (
    accepts-Nest sound [] ts,
    λ b. rw (← append-nil ts) (rw (accepts-append complete b [] []) refl),
  )
