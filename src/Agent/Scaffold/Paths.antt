-- ===== src/Agent/Scaffold/Paths.antt =====
-- The path check of the tool write_file (ValidateFilePath of internal/agent/scaffold.go) against a
-- description of the paths that it lets through.
use mathlib.Core.List.{reverse, reverse-cons}
use vibe_forge.Base.{
  free_of, push, split_on, split_on-append, ℕ, ◌≡◌, ◌∙◌, ◌↔◌, refl, sym, ap, Bool, true, false,
  ◌||◌, none, List, [], ◌∷◌, ◌++◌, append-nil, append_assoc, Text, codes, ◌==◌, All, contains,
  contains_iff, Occurs, starts_with, text_eq, text_eq_sound, text_eq_refl, Bool-cases, inl, inr,
  arith, if◌then◌else◌,
}
use vibe_forge.Contract.{writable_file_path}
use vibe_forge.Agent.Scaffold.{
  elements, dot, dots, resolve, rooted, clean, with_slash, slash, or_root, check_path,
  validate_file_path,
}

-- The elements that name something: not empty, and not the directory itself.
abbrev pub names : List Text → List Text
names [] = []
names (e ∷ es) = let more = names es in if text_eq e [] || text_eq e dot then more else e ∷ more

abbrev AllFree : List Text → Type 0
AllFree = All λ e. free_of b'/' e ≡ true

abbrev NoParent : List Text → Type 0
NoParent = All λ e. text_eq e dots ≡ false

push-AllFree : (c : ℕ) (es : List Text) → (c == b'/') ≡ false → AllFree es → AllFree (push c es)
push-AllFree c [] n f = ground arith
push-AllFree c (e ∷ es) n f = ground arith

elements-AllFree : (p : Text) → AllFree (elements p)
unfolding split_on
elements-AllFree [] = ground arith
elements-AllFree (c ∷ s) = elim (Bool-cases (c == b'/')) [
  | inl t ↦ rw (t) (refl, elements-AllFree s)
  | inr f ↦ rw (f) (push-AllFree c (elements s) f (elements-AllFree s))
]

names-AllFree : (es : List Text) → AllFree es → AllFree (names es)
names-AllFree [] f = tt
names-AllFree (e ∷ es) f = elim (Bool-cases (text_eq e [] || text_eq e dot)) [
  | inl t ↦ rw (t) (names-AllFree es f.1)
  | inr n ↦ rw (n) (f.0, names-AllFree es f.1)
]

-- A path that starts with the element "." starts with a dot.
abbrev first_is_dot : List Text → Bool
first_is_dot [] = false
first_is_dot (e ∷ es) = text_eq e dot

first_dot : (s : Text) → first_is_dot (elements s) ≡ true → starts_with dot s ≡ true
unfolding split_on starts_with
first_dot [] h = ground arith
first_dot (c ∷ s) h = elim (Bool-cases (c == b'/')) [
  | inl t ↦ ground arith
  | inr f ↦ pushed (elements s) (ground arith)
]
  where
    pushed : (es : List Text) → first_is_dot (push c es) ≡ true → starts_with dot (c ∷ s) ≡ true
    pushed [] e = ground arith
    pushed (d ∷ es) e = ground arith

push-NoParent :
    (c : ℕ) (s : Text) (es : List Text)
    → (first_is_dot es ≡ true → starts_with dot s ≡ true)
    → starts_with dots (c ∷ s) ≡ false
    → NoParent es
    → NoParent (push c es)
unfolding starts_with
push-NoParent c s [] k n h = ground arith
push-NoParent c s (e ∷ es) k n h = elim (Bool-cases (text_eq e dot)) [
  | inl t ↦ let starts = k t in ground arith
  | inr f ↦ ground arith
]

-- A path without ".." in it has no such element.
elements-NoParent : (p : Text) → contains p dots ≡ false → NoParent (elements p)
unfolding split_on contains
elements-NoParent [] h = ground arith
elements-NoParent (c ∷ s) h =
    let rest : NoParent (elements s) = elements-NoParent s (ground arith) in
    elim (Bool-cases (c == b'/')) [
      | inl t ↦ rw (t) (refl, rest)
      | inr f ↦ rw (f) (push-NoParent c s (elements s) (first_dot s) (ground arith) rest)
    ]

-- Without a parent, path.Clean keeps the names.
resolve-names :
    (before es : List Text) → NoParent es → resolve before es ≡ reverse before ++ names es
unfolding resolve
resolve-names before [] n = sym (append-nil (reverse before))
resolve-names before (e ∷ es) n = elim (Bool-cases (text_eq e [] || text_eq e dot)) [
  | inl t ↦ rw (t) (resolve-names before es n.1)
  | inr f ↦
      rw (f, n.0)
        (resolve-names (e ∷ before) es n.1
          ∙ ap (λ r. r ++ names es) (reverse-cons e before)
          ∙ append_assoc (reverse before) (e ∷ []) (names es))
]

elements-rooted : (es : List Text) → AllFree es → elements (rooted es) ≡ [] ∷ es
unfolding split_on rooted
elements-rooted [] f = refl
elements-rooted (e ∷ []) f = ap (λ r. [] ∷ r) (split_on-append b'/' e [] [] f.0 refl)
elements-rooted (e ∷ d ∷ es) f =
    ap (λ r. [] ∷ r) (split_on-append b'/' e _ _ f.0 (elements-rooted (d ∷ es) f.1))

-- The names of the writable path.
abbrev pub writable_names : List Text
writable_names = codes "src" ∷ codes "App.tsx" ∷ []

rooted_unique :
    (es : List Text) → AllFree es → or_root es ≡ writable_file_path → es ≡ writable_names
unfolding split_on rooted
rooted_unique [] f h = absurd (ground arith)
rooted_unique (e ∷ es) f h = tail_of (sym (elements-rooted (e ∷ es) f) ∙ ap elements h)
  where
    tail_of : ◌≡◌ {A = List Text} ([] ∷ e ∷ es) ([] ∷ writable_names) → e ∷ es ≡ writable_names
    tail_of q = cc

names-with_slash : (p : Text) → names (elements (with_slash p)) ≡ names (elements p)
unfolding split_on
names-with_slash p = elim (Bool-cases (starts_with slash p)) [
  | inl t ↦ rw (t) refl
  | inr f ↦ rw (f) refl
]

contains-with_slash : (p : Text) → contains (with_slash p) dots ≡ contains p dots
unfolding contains starts_with
contains-with_slash p = elim (Bool-cases (starts_with slash p)) [
  | inl t ↦ rw (t) refl
  | inr f ↦ rw (f) refl
]

clean-names : (p : Text) → contains p dots ≡ false → clean p ≡ or_root (names (elements p))
unfolding clean
clean-names p n = ap or_root (resolve-names [] (elements p) (elements-NoParent p n))

clean_iff :
    (p : Text)
    → contains p dots ≡ false
    → (clean p ≡ writable_file_path) ↔ (names (elements p) ≡ writable_names)
unfolding rooted
clean_iff p n = (
  λ h.
      rooted_unique (names (elements p)) (names-AllFree _ (elements-AllFree p))
        (sym (clean-names p n) ∙ h),
  λ h. clean-names p n ∙ ap or_root h,
)

check_path_iff :
    (p : Text)
    → (check_path p ≡ none) ↔ ((contains p dots ≡ false) × (clean p ≡ writable_file_path))
check_path_iff p = (
  λ h. elim (Bool-cases (text_eq (clean p) writable_file_path)) [
    | inl t ↦ (ground arith, text_eq_sound _ _ t)
    | inr f ↦ absurd (ground arith)
  ],
  λ h.
      let same : text_eq (clean p) writable_file_path ≡ true =
        ap (λ c. text_eq c writable_file_path) h.1 ∙ text_eq_refl writable_file_path in
      rw (same, h.0) refl,
)

not_contained : (p : Text) → (contains p dots ≡ false) ↔ ¬ Occurs dots p
not_contained p = (
  λ h o. let t : contains p dots ≡ true = (contains_iff p dots).1 o in absurd (ground arith),
  λ n. elim (Bool-cases (contains p dots)) [
    | inl t ↦ absurd (n ((contains_iff p dots).0 t))
    | inr f ↦ f
  ],
)

-- The path of a write is let through exactly when two dots stand nowhere in it and its elements, the
-- empty ones and "." apart, are "src" and "App.tsx". A leading slash makes no difference.
pub validate_file_path_iff :
    (p : Text)
    → (validate_file_path p ≡ none) ↔ ((names (elements p) ≡ writable_names) × (¬ Occurs dots p))
unfolding validate_file_path
validate_file_path_iff p = (
  λ h.
      let (apart, cleans) = (check_path_iff (with_slash p)).0 h in
      (
        sym (names-with_slash p) ∙ (clean_iff (with_slash p) apart).0 cleans,
        (not_contained p).0 (sym (contains-with_slash p) ∙ apart),
      ),
  λ h.
      let apart : contains (with_slash p) dots ≡ false =
        contains-with_slash p ∙ (not_contained p).1 h.1 in
      (check_path_iff (with_slash p)).1
        (apart, (clean_iff (with_slash p) apart).1 (names-with_slash p ∙ h.0)),
)
