-- ===== src/Base/Search.antt =====
-- Go's strings.HasPrefix, strings.Contains and strings.TrimSpace on lists of bytes or code points.
use mathlib.Core.Path.{◌≡◌, refl, ap}
use mathlib.Core.Logic.{◌↔◌, inl, inr}
use mathlib.Core.Bool.{Bool, true, false, not, ◌&&◌, ◌||◌}
use mathlib.Core.List.{List, [], ◌∷◌, ◌++◌, reverse}
use Prim.Native.Nat.{ℕ}
use native.Mathlib.Omega.{arith}
use vibe_forge.Base.Tests.{◌==◌, Bool-cases, leb, if◌then◌else◌}
use vibe_forge.Base.Lists.{Text}

unfoldable pub starts_with : Text → Text → Bool
starts_with [] s = true
starts_with (p ∷ ps) [] = false
starts_with (p ∷ ps) (c ∷ s) = p == c && starts_with ps s

unfoldable pub contains : Text → Text → Bool
unfolding starts_with
contains [] p = starts_with p []
contains (c ∷ s) p = starts_with p (c ∷ s) || contains s p

-- `p` stands somewhere in `s`.
abbrev pub Occurs : Text → Text → Type 0
Occurs p s = (before : Text) × (after : Text) × (s ≡ before ++ p ++ after)

starts_with-append : (p after : Text) → starts_with p (p ++ after) ≡ true
unfolding starts_with
starts_with-append [] after = refl
starts_with-append (c ∷ p) after = ground (arith, starts_with-append p after)

starts_with_split : (p s : Text) → starts_with p s ≡ true → (after : Text) × (s ≡ p ++ after)
unfolding starts_with
starts_with_split [] s h = (s, refl)
starts_with_split (p ∷ ps) [] h = cc
starts_with_split (p ∷ ps) (c ∷ s) h =
    let (after, e) = starts_with_split ps s (ground arith) in (after, ground arith)

contains_sound : (s p : Text) → contains s p ≡ true → Occurs p s
unfolding contains
contains_sound [] p h = let (after, e) = starts_with_split p [] h in ([], after, e)
contains_sound (c ∷ s) p h = elim (Bool-cases (starts_with p (c ∷ s))) [
  | inl here ↦ let (after, e) = starts_with_split p (c ∷ s) here in ([], after, e)
  | inr no_start ↦
      let (before, after, e) = contains_sound s p (ground arith) in
      (c ∷ before, after, ap (λ t. c ∷ t) e)
]

contains_complete : (before p after : Text) → contains (before ++ p ++ after) p ≡ true
unfolding contains
contains_complete (c ∷ before) p after = ground (arith, contains_complete before p after)
contains_complete [] [] [] = refl
contains_complete [] [] (c ∷ after) = refl
contains_complete [] (c ∷ p) after = ground (arith, starts_with-append (c ∷ p) after)

pub contains_iff : (s p : Text) → (contains s p ≡ true) ↔ Occurs p s
contains_iff s p = (contains_sound s p, λ o. rw o.2 (contains_complete o.0 p o.1))

abbrev pub drop_while : (ℕ → Bool) → Text → Text
drop_while p [] = []
drop_while p (c ∷ s) = let more = drop_while p s in if p c then more else c ∷ s

abbrev pub trim : (ℕ → Bool) → Text → Text
trim p s = reverse (drop_while p (reverse (drop_while p s)))

abbrev pub is_ascii_space : ℕ → Bool
is_ascii_space c = (leb 9 c && leb c 13) || c == 32

-- unicode.IsSpace, on code points.
abbrev pub is_unicode_space : ℕ → Bool
is_unicode_space c =
    is_ascii_space c
    || c == 0x85
    || c == 0xa0
    || c == 0x1680
    || (leb 0x2000 c && leb c 0x200a)
    || c == 0x2028
    || c == 0x2029
    || c == 0x202f
    || c == 0x205f
    || c == 0x3000

-- Go's strings.Split at one byte.
abbrev pub push : ℕ → List Text → List Text
push c [] = (c ∷ []) ∷ []
push c (e ∷ es) = (c ∷ e) ∷ es

unfoldable pub split_on : ℕ → Text → List Text
split_on sep [] = [] ∷ []
split_on sep (c ∷ s) = let more = split_on sep s in if c == sep then [] ∷ more else push c more

-- The byte stands nowhere in the text.
abbrev pub free_of : ℕ → Text → Bool
free_of sep [] = true
free_of sep (c ∷ s) = not (c == sep) && free_of sep s

-- A text without the separator in front of a text that starts with it, or is empty.
pub split_on-append :
    (sep : ℕ) (e s : Text) (es : List Text)
    → free_of sep e ≡ true
    → split_on sep s ≡ [] ∷ es
    → split_on sep (e ++ s) ≡ e ∷ es
unfolding split_on
split_on-append sep [] s es f h = h
split_on-append sep (c ∷ e) s es f h =
    let rest : split_on sep (e ++ s) ≡ e ∷ es = split_on-append sep e s es (ground arith) h in
    let other : (c == sep) ≡ false = ground arith in rw (other, rest) refl

pub split_on-free_of : (sep : ℕ) (e : Text) → free_of sep e ≡ true → split_on sep e ≡ e ∷ []
unfolding split_on
split_on-free_of sep [] f = refl
split_on-free_of sep (c ∷ e) f =
    let rest : split_on sep e ≡ e ∷ [] = split_on-free_of sep e (ground arith) in
    let other : (c == sep) ≡ false = ground arith in rw (other, rest) refl
