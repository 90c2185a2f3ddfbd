-- ===== src/Compile/Forbidden/Cases.antt =====
-- Texts in whatever case, for ForbiddenInCode of internal/compile/compile.go: the stretches of a content
-- that strings.ToLower turns into a pattern, written out letter by letter.
use vibe_forge.Base.{
  ◌||◌, ◌⊎◌, ◌≢◌, not, ℕ, ◌+◌, ◌≤◌, ◌<◌, ◌≡◌, ◌↔◌, ◌∙◌, refl, sym, ap, subst, Bool, true, false,
  ◌&&◌, List, [], ◌∷◌, ◌++◌, Text, All, arith, leb, ◌==◌, Bool-cases, inl, inr, starts_with, Occurs,
  append_assoc, if◌then◌else◌,
}
use vibe_forge.Compile.Forbidden.{lower_byte, drop, to_lower}
pub mod Lower

-- A letter as it stands in a content: a byte that is no capital, a capital, and the two signs beyond
-- ASCII whose lower case is an ASCII letter, the dotted capital I and the sign for kelvin.
pub data Form : Type 0 where
  as_is capital : ℕ → Form
  dotted_i kelvin : Form

abbrev pub is_capital : ℕ → Bool
is_capital c = leb b'A' c && leb c b'Z'

abbrev pub IsForm : Form → Type 0
IsForm (as_is c) = is_capital c ≡ false
IsForm (capital c) = is_capital c ≡ true
IsForm dotted_i = Unit {0}
IsForm kelvin = Unit {0}

abbrev pub spelled : List Form → Text
spelled [] = []
spelled (as_is c ∷ w) = c ∷ spelled w
spelled (capital c ∷ w) = c ∷ spelled w
spelled (dotted_i ∷ w) = 0xc4 ∷ 0xb0 ∷ spelled w
spelled (kelvin ∷ w) = 0xe2 ∷ 0x84 ∷ 0xaa ∷ spelled w

abbrev pub lowered : List Form → Text
lowered [] = []
lowered (as_is c ∷ w) = c ∷ lowered w
lowered (capital c ∷ w) = (c + 32) ∷ lowered w
lowered (dotted_i ∷ w) = b'i' ∷ lowered w
lowered (kelvin ∷ w) = b'k' ∷ lowered w

-- The pattern stands in the content, in whatever case.
abbrev pub OccursInAnyCase : Text → Text → Type 0
OccursInAnyCase p content =
    (before : Text) × (w : List Form) × (behind : Text) × All IsForm w
    × (lowered w ≡ p)
    × (content ≡ before ++ (spelled w ++ behind))

abbrev pub IsAscii : Text → Type 0
IsAscii = All (λ c. c < 128)

-- What the patterns are: some ASCII bytes.
abbrev pub IsPattern : Text → Type 0
IsPattern [] = ⊥
IsPattern (c ∷ p) = IsAscii (c ∷ p)

pub lower_dotted : (s : Text) → to_lower (0xc4 ∷ 0xb0 ∷ s) ≡ b'i' ∷ to_lower s
unfolding to_lower starts_with
lower_dotted s = refl

pub lower_kelvin : (s : Text) → to_lower (0xe2 ∷ 0x84 ∷ 0xaa ∷ s) ≡ b'k' ∷ to_lower s
unfolding to_lower starts_with
lower_kelvin s = refl

abbrev pub is_sign : ℕ → Text → Bool
is_sign c s =
    (c == 0xc4 && starts_with (0xb0 ∷ []) s) || (c == 0xe2 && starts_with (0x84 ∷ 0xaa ∷ []) s)

pub lower_plain :
    (c : ℕ) (s : Text) → is_sign c s ≡ false → to_lower (c ∷ s) ≡ lower_byte c ∷ to_lower s
unfolding to_lower
lower_plain c s h = ground (arith, h)

-- A text that starts with a sign, or with another byte.
pub sign_cases :
    (c : ℕ) (s : Text)
    → (is_sign c s ≡ false)
      ⊎ (((c ≡ 0xc4) × (r : Text) × (s ≡ 0xb0 ∷ r))
          ⊎ ((c ≡ 0xe2) × (r : Text) × (s ≡ 0x84 ∷ 0xaa ∷ r)))
unfolding starts_with
sign_cases c [] = inl (ground arith)
sign_cases c (d ∷ []) = elim (Bool-cases (c == 0xc4 && d == 0xb0)) [
  | inl t ↦ inr (inl (ground arith, [], ground (arith, t)))
  | inr f ↦ inl (ground (arith, f))
]
sign_cases c (d ∷ e ∷ s) = elim (Bool-cases (c == 0xc4 && d == 0xb0)) [
  | inl t ↦ inr (inl (ground arith, e ∷ s, ground (arith, t)))
  | inr f ↦ elim (Bool-cases (c == 0xe2 && d == 0x84 && e == 0xaa)) [
    | inl t ↦ inr (inr (ground arith, s, ground (arith, t)))
    | inr g ↦ inl (ground (arith, f, g))
  ]
]

pub form_of :
    (c : ℕ)
    → (f : Form) × IsForm f × (spelled (f ∷ []) ≡ c ∷ []) × (lowered (f ∷ []) ≡ lower_byte c ∷ [])
form_of c = elim (Bool-cases (is_capital c)) [
  | inl t ↦ (capital c, t, refl, rw (t) refl)
  | inr f ↦ (as_is c, f, refl, rw (f) refl)
]
