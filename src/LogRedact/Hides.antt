-- ===== src/LogRedact/Hides.antt =====
-- What a line of the log does not hold (internal/logredact/logredact.go).
use vibe_forge.Base.{
  ℕ, zero, suc, ◌-◌, ◌≡◌, ◌≢◌, ◌⊎◌, inl, inr, refl, ap, true, false, List, [], ◌∷◌, ◌++◌, Text,
  codes, length, starts_with, contains, contains_iff, Occurs, free_of, Bool-cases, arith,
}
use vibe_forge.LogRedact.{redaction_marker, new_logger, replace_behind, replace_all, printf_line}

-- The marker up to its closing bracket.
abbrev pub marker_stem : Text
marker_stem = codes "[REDACTED"

abbrev open_bracket : ℕ
open_bracket = 91

abbrev close_bracket : ℕ
close_bracket = 93

-- Where the replaced text starts with a text that has no opening bracket, the text itself does.
starts-replace_all :
    (old t line : Text)
    → free_of open_bracket t ≡ true
    → starts_with t (replace_all old redaction_marker line) ≡ true
    → starts_with t line ≡ true
unfolding replace_behind starts_with
starts-replace_all old [] line f h = refl
starts-replace_all old (b ∷ t) [] f h = h
starts-replace_all old (b ∷ t) (c ∷ s) f h = elim (Bool-cases (starts_with old (c ∷ s))) [
  | inl y ↦ absurd (ground arith)
  | inr n ↦ ground (arith, starts-replace_all old t s)
]

starts-stem :
    (t m u : Text)
    → free_of close_bracket t ≡ true
    → starts_with t (m ++ close_bracket ∷ u) ≡ true
    → starts_with t m ≡ true
unfolding starts_with
starts-stem [] m u f h = refl
starts-stem (b ∷ t) [] u f h = ground arith
starts-stem (b ∷ t) (c ∷ m) u f h = ground (arith, starts-stem t m u)

-- A text without a closing bracket stands on one side of a bracket.
contains-stem :
    (t m u : Text)
    → t ≢ []
    → free_of close_bracket t ≡ true
    → contains m t ≡ false
    → contains u t ≡ false
    → contains (m ++ close_bracket ∷ u) t ≡ false
unfolding contains
contains-stem [] m u e f h k = absurd (e refl)
contains-stem (b ∷ t) [] u e f h k = ground arith
contains-stem (b ∷ t) (c ∷ m) u e f h k =
    ground (arith, contains-stem (b ∷ t) m u e f, starts-stem (b ∷ t) (c ∷ m) u f)

-- What no text may be that a line is to hide: empty, with a bracket, or a part of the marker.
abbrev pub IsHideable : Text → Type 0
IsHideable t =
    (t ≢ [])
    × (free_of open_bracket t ≡ true)
    × (free_of close_bracket t ≡ true)
    × (contains marker_stem t ≡ false)

not_in_empty : (t : Text) → t ≢ [] → contains [] t ≡ false
unfolding contains
not_in_empty [] e = absurd (e refl)
not_in_empty (b ∷ t) e = refl

not_in_rest : (t : Text) (c : ℕ) (s : Text) → contains (c ∷ s) t ≡ false → contains s t ≡ false
unfolding contains
not_in_rest t c s h = ground arith

not_in_marked :
    (t u : Text) → IsHideable t → contains u t ≡ false → contains (redaction_marker ++ u) t ≡ false
not_in_marked t u (e, o, c, m) h = contains-stem t marker_stem u e c m h

-- Where nothing is replaced at a place, the hidden text does not start there.
no_start :
    (old t : Text) (c : ℕ) (s : Text)
    → free_of open_bracket t ≡ true
    → starts_with old (c ∷ s) ≡ false
    → (t ≡ old) ⊎ (contains (c ∷ s) t ≡ false)
    → starts_with t (c ∷ replace_all old redaction_marker s) ≡ false
unfolding contains replace_behind
no_start old t c s f n h =
    elim (Bool-cases (starts_with t (c ∷ replace_all old redaction_marker s))) [
      | inr no_prefix ↦ no_prefix
      | inl y ↦ here (starts-replace_all old t (c ∷ s) f (same y)) h
    ]
  where
    same :
        starts_with t (c ∷ replace_all old redaction_marker s) ≡ true
        → starts_with t (replace_all old redaction_marker (c ∷ s)) ≡ true
    same y = rw (n) y

    here :
        starts_with t (c ∷ s) ≡ true
        → (t ≡ old) ⊎ (contains (c ∷ s) t ≡ false)
        → starts_with t (c ∷ replace_all old redaction_marker s) ≡ false
    here y (inl e) = absurd (ground (arith, ap (λ r. starts_with r (c ∷ s)) e))
    here y (inr k) = absurd (ground arith)

not_in_joined :
    (t u : Text) (c : ℕ)
    → starts_with t (c ∷ u) ≡ false
    → contains u t ≡ false
    → contains (c ∷ u) t ≡ false
unfolding contains
not_in_joined t u c a b = ground arith

module _ (old t : Text) (plain : IsHideable t) where
  -- A replacement hides the text that is replaced, and uncovers no other one.
  replaced-hides :
      (passed : ℕ) (line : Text)
      → (t ≡ old) ⊎ (contains line t ≡ false)
      → contains (replace_behind old redaction_marker passed line) t ≡ false
  unfolding replace_behind
  replaced-hides passed [] h = not_in_empty t plain.0
  replaced-hides (suc passed) (c ∷ s) (inl e) = replaced-hides passed s (inl e)
  replaced-hides (suc passed) (c ∷ s) (inr h) = replaced-hides passed s (inr (not_in_rest t c s h))
  replaced-hides zero (c ∷ s) h = elim (Bool-cases (starts_with old (c ∷ s))) [
    | inl y ↦ rw (y) (not_in_marked t _ plain (replaced-hides (length old - 1) s (rest_of h)))
    | inr n ↦
        let start = no_start old t c s plain.1 n h in
        let rest = replaced-hides zero s (rest_of h) in rw (n) (not_in_joined t _ c start rest)
  ]
    where
      rest_of : (t ≡ old) ⊎ (contains (c ∷ s) t ≡ false) → (t ≡ old) ⊎ (contains s t ≡ false)
      rest_of (inl e) = inl e
      rest_of (inr h) = inr (not_in_rest t c s h)

printf_line-keeps_hidden :
    (t : Text)
    → IsHideable t
    → (secrets : List Text) (line : Text) → contains line t ≡ false
    → contains (printf_line secrets line) t ≡ false
unfolding printf_line
printf_line-keeps_hidden t plain [] line h = h
printf_line-keeps_hidden t plain ([] ∷ secrets) line h =
    printf_line-keeps_hidden t plain secrets line h
printf_line-keeps_hidden t plain ((c ∷ s) ∷ secrets) line h =
    printf_line-keeps_hidden t plain secrets _ (replaced-hides (c ∷ s) t plain zero line (inr h))

printf_line-hides_kept :
    (t : Text)
    → IsHideable t
    → (before after : List Text) (line : Text)
    → contains (printf_line (before ++ t ∷ after) line) t ≡ false
unfolding printf_line
printf_line-hides_kept [] plain before after line = absurd (plain.0 refl)
printf_line-hides_kept (b ∷ t) plain [] after line =
    printf_line-keeps_hidden (b ∷ t) plain after _
      (replaced-hides (b ∷ t) (b ∷ t) plain zero line (inl refl))
printf_line-hides_kept (b ∷ t) plain ([] ∷ before) after line =
    printf_line-hides_kept (b ∷ t) plain before after line
printf_line-hides_kept (b ∷ t) plain ((c ∷ s) ∷ before) after line =
    printf_line-hides_kept (b ∷ t) plain before after _

kept_secrets :
    (t : Text) (before after : List Text)
    → t ≢ []
    → new_logger (before ++ t ∷ after) ≡ new_logger before ++ t ∷ new_logger after
unfolding new_logger
kept_secrets [] before after e = absurd (e refl)
kept_secrets (b ∷ t) [] after e = refl
kept_secrets (b ∷ t) ([] ∷ before) after e = kept_secrets (b ∷ t) before after e
kept_secrets (b ∷ t) ((c ∷ s) ∷ before) after e =
    ap (λ r. (c ∷ s) ∷ r) (kept_secrets (b ∷ t) before after e)

-- No line that the logger writes holds one of its secrets, whichever other secrets there are, in
-- whatever order: what a replacement leaves never joins to a secret again. The secret is not empty,
-- has no bracket in it and is no part of the marker.
pub printf_line-hides :
    (t : Text)
    → IsHideable t
    → (before after : List Text) (line : Text)
    → ¬ Occurs t (printf_line (new_logger (before ++ t ∷ after)) line)
printf_line-hides t plain before after line o =
    let hidden = printf_line-hides_kept t plain (new_logger before) (new_logger after) line in
    let found = (contains_iff _ t).1 o in
    absurd (ground (arith, kept_secrets t before after plain.0))
