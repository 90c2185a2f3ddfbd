-- ===== src/Compile/Forbidden/Cases/Lower.antt =====
-- strings.ToLower as ForbiddenInCode of internal/compile/compile.go uses it: a pattern in the lower case
-- of a content.
use vibe_forge.Base.{
  ◌||◌, ℕ, ◌≡◌, ◌↔◌, ◌∙◌, refl, sym, ap, subst, Bool, false, List, [], ◌∷◌, ◌++◌, Text, All, arith,
  ◌==◌, Bool-cases, inl, inr, Occurs, append_assoc,
}
use vibe_forge.Compile.Forbidden.{lower_byte, to_lower}
use vibe_forge.Compile.Forbidden.Cases.{
  Form, as_is, capital, dotted_i, kelvin, is_capital, IsForm, spelled, lowered, OccursInAnyCase,
  IsAscii, IsPattern, lower_dotted, lower_kelvin, is_sign, lower_plain, sign_cases,
}

-- A stretch at the start whose lower case is the text.
Stretch : Text → Text → Type 0
Stretch p s =
    (w : List Form) × (behind : Text) × All IsForm w × (lowered w ≡ p) × (s ≡ spelled w ++ behind)

-- Where the next text does not go on a sign, the lower cases stand one behind the other.
abbrev goes_on : Text → Bool
goes_on [] = false
goes_on (c ∷ s) = c == 0xb0 || c == 0x84 || c == 0xaa

to_lower-Stretch : (p r s : Text) → to_lower s ≡ p ++ r → Stretch p s
unfolding Stretch to_lower
to_lower-Stretch [] r s e = ([], s, tt, refl, refl)
to_lower-Stretch (d ∷ p) r [] e = absurd (cc)
to_lower-Stretch (d ∷ p) r (c ∷ s) e = elim (sign_cases c s) [
  | inl f ↦
      let lower = sym (lower_plain c s f) ∙ e in
      let first : lower_byte c ≡ d = cc in
      let more : to_lower s ≡ p ++ r = cc in
      let (w, behind, forms, eq, same) = to_lower-Stretch p r s more in
      elim (Bool-cases (is_capital c)) [
        | inl t ↦
            (capital c ∷ w, behind, (t, forms), ground (arith, t, first, eq), ap (λ x. c ∷ x) same)
        | inr g ↦
            (as_is c ∷ w, behind, (g, forms), ground (arith, g, first, eq), ap (λ x. c ∷ x) same)
      ]
  | inr (inl (h, q, k)) ↦
      let text : c ∷ s ≡ 0xc4 ∷ 0xb0 ∷ q = cc in
      let lower = sym (lower_dotted q) ∙ sym (ap to_lower text) ∙ e in
      let first : b'i' ≡ d = cc in
      let more : to_lower q ≡ p ++ r = cc in
      let (w, behind, forms, eq, same) = to_lower-Stretch p r q more in
      (dotted_i ∷ w, behind, (tt, forms), cc, text ∙ ap (λ x. 0xc4 ∷ 0xb0 ∷ x) same)
  | inr (inr (h, q, k)) ↦
      let text : c ∷ s ≡ 0xe2 ∷ 0x84 ∷ 0xaa ∷ q = cc in
      let lower = sym (lower_kelvin q) ∙ sym (ap to_lower text) ∙ e in
      let first : b'k' ≡ d = cc in
      let more : to_lower q ≡ p ++ r = cc in
      let (w, behind, forms, eq, same) = to_lower-Stretch p r q more in
      (kelvin ∷ w, behind, (tt, forms), cc, text ∙ ap (λ x. 0xe2 ∷ 0x84 ∷ 0xaa ∷ x) same)
]

to_lower-spelled :
    (w : List Form) (rest : Text)
    → All IsForm w
    → IsAscii (lowered w)
    → to_lower (spelled w ++ rest) ≡ lowered w ++ to_lower rest
to_lower-spelled [] rest h a = refl
to_lower-spelled (as_is c ∷ w) rest h a =
    lower_plain c (spelled w ++ rest) (ground (arith, a.0))
    ∙ ground (arith, h.0, to_lower-spelled w rest h.1 a.1)
to_lower-spelled (capital c ∷ w) rest h a =
    lower_plain c (spelled w ++ rest) (ground (arith, a.0))
    ∙ ground (arith, h.0, to_lower-spelled w rest h.1 a.1)
to_lower-spelled (dotted_i ∷ w) rest h a =
    lower_dotted (spelled w ++ rest) ∙ ap (λ x. b'i' ∷ x) (to_lower-spelled w rest h.1 a.1)
to_lower-spelled (kelvin ∷ w) rest h a =
    lower_kelvin (spelled w ++ rest) ∙ ap (λ x. b'k' ∷ x) (to_lower-spelled w rest h.1 a.1)

abbrev Behind : Text → Text → Type 0
Behind before t = (x : Text) × (to_lower (before ++ t) ≡ x ++ to_lower t)

plain-Behind :
    (c : ℕ) (before t : Text)
    → is_sign c (before ++ t) ≡ false
    → Behind before t
    → Behind (c ∷ before) t
plain-Behind c before t f (x, e) =
    (lower_byte c ∷ x, lower_plain c (before ++ t) f ∙ ap (λ y. lower_byte c ∷ y) e)

to_lower-Behind : (before t : Text) → goes_on t ≡ false → Behind before t
to_lower-Behind [] t h = ([], refl)
to_lower-Behind (c ∷ []) t h = elim (sign_cases c t) [
  | inl f ↦ plain-Behind c [] t f ([], refl)
  | inr (inl (k, q, e)) ↦
      let bad : goes_on (0xb0 ∷ q) ≡ false = ap goes_on (sym e) ∙ h in absurd (cc)
  | inr (inr (k, q, e)) ↦
      let bad : goes_on (0x84 ∷ 0xaa ∷ q) ≡ false = ap goes_on (sym e) ∙ h in absurd (cc)
]
to_lower-Behind (c ∷ d ∷ []) t h = elim (sign_cases c (d ∷ t)) [
  | inl f ↦ plain-Behind c (d ∷ []) t f (to_lower-Behind (d ∷ []) t h)
  | inr (inl (k, q, e)) ↦
      let text : c ∷ d ∷ t ≡ 0xc4 ∷ 0xb0 ∷ t = cc in (b'i' ∷ [], ap to_lower text ∙ lower_dotted t)
  | inr (inr (k, q, e)) ↦
      let tail : t ≡ 0xaa ∷ q = cc in
      let bad : goes_on (0xaa ∷ q) ≡ false = ap goes_on (sym tail) ∙ h in absurd (cc)
]
to_lower-Behind (c ∷ d ∷ e ∷ before) t h =
    let one = to_lower-Behind (d ∷ e ∷ before) t h in
    let two = to_lower-Behind (e ∷ before) t h in
    let three = to_lower-Behind before t h in
    elim (sign_cases c (d ∷ e ∷ (before ++ t))) [
      | inl f ↦ plain-Behind c (d ∷ e ∷ before) t f one
      | inr (inl (k, q, g)) ↦
          let text : c ∷ d ∷ e ∷ (before ++ t) ≡ 0xc4 ∷ 0xb0 ∷ e ∷ (before ++ t) = cc in
          (
            b'i' ∷ two.0,
            ap to_lower text ∙ lower_dotted (e ∷ (before ++ t)) ∙ ap (λ y. b'i' ∷ y) two.1,
          )
      | inr (inr (k, q, g)) ↦
          let text : c ∷ d ∷ e ∷ (before ++ t) ≡ 0xe2 ∷ 0x84 ∷ 0xaa ∷ (before ++ t) = cc in
          (
            b'k' ∷ three.0,
            ap to_lower text ∙ lower_kelvin (before ++ t) ∙ ap (λ y. b'k' ∷ y) three.1,
          )
    ]

goes_on-spelled :
    (f : Form) (w : List Form) (behind : Text)
    → IsAscii (lowered (f ∷ w))
    → goes_on (spelled (f ∷ w) ++ behind) ≡ false
goes_on-spelled (as_is c) w behind a = ground (arith, a.0)
goes_on-spelled (capital c) w behind a = ground (arith, a.0)
goes_on-spelled dotted_i w behind a = refl
goes_on-spelled kelvin w behind a = refl

spelled-Occurs :
    (before : Text) (w : List Form) (behind : Text)
    → All IsForm w
    → IsPattern (lowered w)
    → Occurs (lowered w) (to_lower (before ++ (spelled w ++ behind)))
spelled-Occurs before [] behind h a = absurd a
spelled-Occurs before (f ∷ w) behind h a =
    let ascii = pattern_ascii (lowered (f ∷ w)) a in
    let (x, e) =
      to_lower-Behind before (spelled (f ∷ w) ++ behind) (goes_on-spelled f w behind ascii) in
    let here = to_lower-spelled (f ∷ w) behind h ascii in
    (
      x,
      to_lower behind,
      e ∙ ap (λ y. x ++ y) here ∙ sym (append_assoc x (lowered (f ∷ w)) (to_lower behind)),
    )
  where
    pattern_ascii : (p : Text) → IsPattern p → IsAscii p
    pattern_ascii [] h = absurd h
    pattern_ascii (c ∷ p) h = h

occurs_in_case : (a p r s : Text) → to_lower s ≡ a ++ (p ++ r) → OccursInAnyCase p s
unfolding Stretch to_lower
occurs_in_case [] p r s e =
    let (w, behind, forms, eq, same) = to_lower-Stretch p r s e in ([], w, behind, forms, eq, same)
occurs_in_case (x ∷ a) p r [] e = absurd (cc)
occurs_in_case (x ∷ a) p r (c ∷ s) e = elim (sign_cases c s) [
  | inl f ↦
      let lower = sym (lower_plain c s f) ∙ e in
      let more : to_lower s ≡ a ++ (p ++ r) = cc in
      let (before, w, behind, forms, eq, same) = occurs_in_case a p r s more in
      (c ∷ before, w, behind, forms, eq, ap (λ y. c ∷ y) same)
  | inr (inl (h, q, k)) ↦
      let text : c ∷ s ≡ 0xc4 ∷ 0xb0 ∷ q = cc in
      let lower = sym (lower_dotted q) ∙ sym (ap to_lower text) ∙ e in
      let more : to_lower q ≡ a ++ (p ++ r) = cc in
      let (before, w, behind, forms, eq, same) = occurs_in_case a p r q more in
      (0xc4 ∷ 0xb0 ∷ before, w, behind, forms, eq, text ∙ ap (λ y. 0xc4 ∷ 0xb0 ∷ y) same)
  | inr (inr (h, q, k)) ↦
      let text : c ∷ s ≡ 0xe2 ∷ 0x84 ∷ 0xaa ∷ q = cc in
      let lower = sym (lower_kelvin q) ∙ sym (ap to_lower text) ∙ e in
      let more : to_lower q ≡ a ++ (p ++ r) = cc in
      let (before, w, behind, forms, eq, same) = occurs_in_case a p r q more in
      (
        0xe2 ∷ 0x84 ∷ 0xaa ∷ before,
        w,
        behind,
        forms,
        eq,
        text ∙ ap (λ y. 0xe2 ∷ 0x84 ∷ 0xaa ∷ y) same,
      )
]

-- A pattern stands in the lower case of a content exactly when it stands in the content in some case.
pub to_lower-Occurs : (p s : Text) → IsPattern p → Occurs p (to_lower s) ↔ OccursInAnyCase p s
to_lower-Occurs p s is = (
  λ (a, r, e). occurs_in_case a p r s (e ∙ append_assoc a p r),
  λ (before, w, behind, forms, eq, same).
      subst (λ q. Occurs q (to_lower s)) eq
        (subst (λ t. Occurs (lowered w) (to_lower t)) (sym same)
          (spelled-Occurs before w behind forms (subst IsPattern (sym eq) is))),
)
