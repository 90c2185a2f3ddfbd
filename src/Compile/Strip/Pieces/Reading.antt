-- ===== src/Compile/Strip/Pieces/Reading.antt =====
-- Every source is made of pieces (stripStringsAndComments of internal/compile/compile.go).
use vibe_forge.Base.{
  ℕ, zero, suc, ◌≤◌, ◌≡◌, ◌∙◌, ◌⊎◌, inl, inr, refl, sym, ap, subst, Bool, true, false, ◌&&◌, ◌||◌,
  List, [], ◌∷◌, ◌++◌, Text, All, length, arith, ◌==◌, Bool-cases,
}
use vibe_forge.Compile.Lexical.{newline, is_string_start_pos}
use vibe_forge.Compile.Strip.{next_is}
use vibe_forge.Compile.Strip.Pieces.{
  Letter, byte, behind_backslash, Piece, plain, line_comment, block_comment, string,
  template_string, End, closed, open_line, open_block, open_string, open_template, to_line_break,
  to_mark, letters, open_letters, source, blanked, source_end, sources, rewritten, opens, is_quote,
  has_no_mark, IsLetter, ends_string, FitsPiece, FitsEnd, Fits,
}

abbrev NoBreak : Text → Type 0
NoBreak body = All (λ c. (c == newline) ≡ false) body

split_line :
    (src : Text)
    → NoBreak src
      ⊎ ((body : Text) × (rest : Text) × NoBreak body
          × (src ≡ to_line_break body ++ rest)
          × (length rest ≤ length src))
split_line [] = inl tt
split_line (c ∷ src) = elim (Bool-cases (c == newline)) [
  | inl t ↦ inr ([], src, tt, ground (arith, t), omega arith)
  | inr f ↦ elim (split_line src) [
    | inl h ↦ inl (f, h)
    | inr (body, rest, h, e, l) ↦ inr (c ∷ body, rest, (f, h), ap (λ t. c ∷ t) e, omega (arith, l))
  ]
]

split_block :
    (src : Text)
    → (has_no_mark src ≡ true)
      ⊎ ((body : Text) × (rest : Text) × (has_no_mark body ≡ true)
          × (src ≡ to_mark body ++ rest)
          × (length rest ≤ length src))
split_block [] = inl refl
split_block (c ∷ []) = inl (ground arith)
split_block (c ∷ d ∷ src) = elim (Bool-cases (c == b'*' && d == b'/')) [
  | inl t ↦ inr ([], src, refl, ground (arith, t), omega arith)
  | inr f ↦ elim (split_block (d ∷ src)) [
    | inl h ↦ inl (ground (arith, f, h))
    | inr ([], rest, h, e, l) ↦
        inr (c ∷ [], rest, ground arith, ap (λ t. c ∷ t) e, omega (arith, l))
    | inr (b ∷ body, rest, h, e, l) ↦
        let first : d ≡ b = cc in
        inr (c ∷ b ∷ body, rest, ground (arith, f, h, first), ap (λ t. c ∷ t) e, omega (arith, l))
  ]
]

split_string :
    (ends : ℕ → Bool) (src : Text)
    → ((ls : List Letter) × (lone : Bool) × All (IsLetter ends) ls × (src ≡ open_letters ls lone))
      ⊎ ((ls : List Letter) × (stop : ℕ) × (rest : Text) × (ends stop ≡ true)
          × All (IsLetter ends) ls
          × (src ≡ letters ls stop ++ rest)
          × (length rest ≤ length src))
split_string ends [] = inl ([], false, tt, refl)
split_string ends (c ∷ []) = elim (Bool-cases (ends c)) [
  | inl t ↦ inr ([], c, [], t, tt, refl, omega arith)
  | inr f ↦ elim (Bool-cases (c == 92)) [
    | inl b ↦ inl ([], true, tt, ground (arith, b))
    | inr n ↦ inl (byte c ∷ [], false, ((f, n), tt), refl)
  ]
]
split_string ends (c ∷ d ∷ src) =
    let past = split_string ends src in
    let next = split_string ends (d ∷ src) in
    elim (Bool-cases (ends c)) [
      | inl t ↦ inr ([], c, d ∷ src, t, tt, refl, omega arith)
      | inr f ↦ elim (Bool-cases (c == 92)) [
        | inl b ↦
            let slash : c ≡ 92 = ground arith in
            elim past [
              | inl (ls, lone, h, e) ↦
                  inl (behind_backslash d ∷ ls, lone, (tt, h), rw (slash) (ap (λ t. 92 ∷ d ∷ t) e))
              | inr (ls, stop, rest, t, h, e, l) ↦ inr (
                behind_backslash d ∷ ls,
                stop,
                rest,
                t,
                (tt, h),
                rw (slash) (ap (λ t. 92 ∷ d ∷ t) e),
                omega (arith, l),
              )
            ]
        | inr n ↦ elim next [
          | inl (ls, lone, h, e) ↦ inl (byte c ∷ ls, lone, ((f, n), h), ap (λ t. c ∷ t) e)
          | inr (ls, stop, rest, t, h, e, l) ↦
              inr (byte c ∷ ls, stop, rest, t, ((f, n), h), ap (λ t. c ∷ t) e, omega (arith, l))
        ]
      ]
    ]

-- The source as pieces behind `before`.
abbrev pub Reading : Text → Text → Type 0
Reading before src = (ps : List Piece) × (e : End) × Fits before ps e × (src ≡ sources ps e)

with_piece :
    (before src rest : Text) (p : Piece)
    → src ≡ source p ++ rest
    → FitsPiece before p rest
    → Reading (rewritten (blanked p) before) rest
    → Reading before src
with_piece before src rest p e fits (ps, end, more, same) =
    (p ∷ ps, end, (subst (FitsPiece before p) same fits, more), e ∙ ap (λ t. source p ++ t) same)

with_end :
    (before src : Text) (e : End) → src ≡ source_end e → FitsEnd before e → Reading before src
with_end before src e same fits = ([], e, fits, same)

-- What is shorter can be read.
abbrev Reads : ℕ → Type 0
Reads n = (before src : Text) → length src ≤ n → Reading before src

module _ (n : ℕ) (shorter : Reads n) (before : Text) where
  read_line : (src : Text) → length src ≤ n → Reading before (b'/' ∷ b'/' ∷ src)
  read_line src l = elim (split_line src) [
    | inl h ↦ with_end before _ (open_line src) refl h
    | inr (body, rest, h, e, shrinks) ↦
        with_piece before _ rest (line_comment body) (ap (λ t. b'/' ∷ b'/' ∷ t) e) h
          (shorter _ rest (omega (arith, l, shrinks)))
  ]

  read_block : (src : Text) → length src ≤ n → Reading before (b'/' ∷ b'*' ∷ src)
  read_block src l = elim (split_block src) [
    | inl h ↦ with_end before _ (open_block src) refl h
    | inr (body, rest, h, e, shrinks) ↦
        with_piece before _ rest (block_comment body) (ap (λ t. b'/' ∷ b'*' ∷ t) e) h
          (shorter _ rest (omega (arith, l, shrinks)))
  ]

  read_string :
      (q : ℕ) (src : Text)
      → is_quote q ≡ true
      → is_string_start_pos before ≡ true
      → length src ≤ n
      → Reading before (q ∷ src)
  read_string q src is start l = elim (split_string (ends_string q) src) [
    | inl (ls, lone, h, e) ↦
        with_end before _ (open_string q ls lone) (ap (λ t. q ∷ t) e) (is, start, h)
    | inr (ls, stop, rest, ends, h, e, shrinks) ↦
        with_piece before _ rest (string q ls stop) (ap (λ t. q ∷ t) e) (is, start, ends, h)
          (shorter _ rest (omega (arith, l, shrinks)))
  ]

  read_template : (src : Text) → length src ≤ n → Reading before (b'`' ∷ src)
  read_template src l = elim (split_string (λ c. c == b'`') src) [
    | inl (ls, lone, h, e) ↦ with_end before _ (open_template ls lone) (ap (λ t. b'`' ∷ t) e) h
    | inr (ls, stop, rest, ends, h, e, shrinks) ↦
        let tick : stop ≡ b'`' = ground arith in
        with_piece before _ rest (template_string ls)
          (ap (λ t. b'`' ∷ t) (e ∙ ap (λ s. letters ls s ++ rest) tick)) h
          (shorter _ rest (omega (arith, l, shrinks)))
  ]

  read_opened :
      (c : ℕ) (src : Text) → opens before c src ≡ true → length src ≤ n → Reading before (c ∷ src)
  read_opened c src t l = elim (Bool-cases (is_quote c && is_string_start_pos before)) [
    | inl q ↦ read_string c src (ground arith) (ground arith) l
    | inr f ↦ elim (Bool-cases (c == b'`')) [
      | inl b ↦
          let tick : c ≡ b'`' = ground arith in
          subst (λ x. Reading before (x ∷ src)) (sym tick) (read_template src l)
      | inr g ↦
          let slash : c ≡ b'/' = ground (arith, t, f, g) in
          subst (λ x. Reading before (x ∷ src)) (sym slash)
            (read_comment src (ground (arith, t, f, g)) l)
    ]
  ]
    where
      read_comment :
          (r : Text)
          → (next_is b'/' r || next_is b'*' r) ≡ true
          → length r ≤ n
          → Reading before (b'/' ∷ r)
      read_comment [] h k = absurd (cc)
      read_comment (d ∷ r) h k = elim (Bool-cases (d == b'/')) [
        | inl s ↦
            let same : d ≡ b'/' = ground arith in
            subst (λ x. Reading before (b'/' ∷ x ∷ r)) (sym same) (read_line r (omega (arith, k)))
        | inr s ↦
            let same : d ≡ b'*' = ground (arith, h, s) in
            subst (λ x. Reading before (b'/' ∷ x ∷ r)) (sym same) (read_block r (omega (arith, k)))
      ]

  read_byte : (c : ℕ) (src : Text) → length src ≤ n → Reading before (c ∷ src)
  read_byte c src l = elim (Bool-cases (opens before c src)) [
    | inl t ↦ read_opened c src t l
    | inr f ↦ with_piece before _ src (plain c) refl f (shorter (c ∷ before) src l)
  ]

read_up_to : (n : ℕ) → Reads n
read_up_to n before [] l = with_end before [] closed refl tt
read_up_to zero before (c ∷ src) l = absurd (omega (arith, l))
read_up_to (suc n) before (c ∷ src) l = read_byte n (read_up_to n) before c src (omega (arith, l))

pub read_pieces : (src : Text) → Reading [] src
read_pieces src = read_up_to (length src) [] src (omega arith)
