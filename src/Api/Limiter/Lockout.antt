-- ===== src/Api/Limiter/Lockout.antt =====
-- Sequences of sign-in attempts (verifyLogin of internal/api/auth.go).
use native.Mathlib.Nat.{div-add-mod}
use vibe_forge.Base.{
  ℕ, suc, ◌+◌, ◌-◌, ◌≤◌, ◌<◌, ◌≡◌, refl, false, none, some, List, [], ◌∷◌, Text, All, arith, ◌==◌,
  length, Option-cases, inl, inr,
}
use vibe_forge.Store.Table.{by_key, key-by_key, select_where}
use vibe_forge.Api.Limiter.{
  LoginFailure, Secret, login_failure_window, max_login_failures, second, password_matches,
  prune_failures, failure_of, delete_failure, retry_after, seconds_up, at_least_one, one_more,
  verify_login,
}

failure-prune :
    (source now : ℕ) (failures : List LoginFailure) (f : LoginFailure)
    → failure_of source failures ≡ some f
    → now < f.window_started_at + login_failure_window
    → failure_of source (prune_failures now failures) ≡ some f
unfolding by_key select_where prune_failures
failure-prune source now [] f e w = absurd (cc)
failure-prune source now (g ∷ failures) f e w = ground (arith, failure-prune source now failures f)

failure-delete :
    (source other : ℕ) (failures : List LoginFailure)
    → (other == source) ≡ false
    → failure_of other (delete_failure source failures) ≡ failure_of other failures
unfolding by_key select_where delete_failure
failure-delete source other [] d = refl
failure-delete source other (g ∷ failures) d =
    ground (arith, failure-delete source other failures d)

-- The source has `n` failures in the window that started at `start`.
abbrev Counted : ℕ → ℕ → ℕ → List LoginFailure → Type 0
Counted source start n failures =
    failure_of source failures
    ≡ some (record { source = source; window_started_at = start; count = n })

verify-wrong :
    (secret : Secret) (source start n : ℕ) (password : Text) (now : ℕ)
    (failures : List LoginFailure)
    → Counted source start n failures
    → n < max_login_failures
    → now < start + login_failure_window
    → password_matches secret password ≡ false
    → Counted source start (n + 1) (verify_login secret source password now failures).1
unfolding verify_login by_key
verify-wrong secret source start n password now failures c few w wrong =
    let kept = failure-prune source now failures _ c w in ground (arith, kept, wrong)

verify-limited :
    (secret : Secret) (source start n : ℕ) (password : Text) (now : ℕ)
    (failures : List LoginFailure)
    → Counted source start n failures
    → max_login_failures ≤ n
    → now < start + login_failure_window
    → verify_login secret source password now failures ≡ (
      (false, retry_after now (record { source = source; window_started_at = start; count = n })),
      prune_failures now failures,
    )
unfolding verify_login
verify-limited secret source start n password now failures c full w =
    let kept = failure-prune source now failures _ c w in rw (kept) (ground arith)

-- A password and the time of the attempt.
abbrev pub Guess : Type 0
Guess = Text × ℕ

-- Attempts of one source, one behind the other.
unfoldable pub guess_all : Secret → ℕ → List Guess → List LoginFailure → List LoginFailure
guess_all secret source [] failures = failures
guess_all secret source (g ∷ guesses) failures =
    guess_all secret source guesses (verify_login secret source g.0 g.1 failures).1

abbrev pub IsWrongBefore : Secret → ℕ → Guess → Type 0
IsWrongBefore secret end g = (password_matches secret g.0 ≡ false) × (g.1 < end)

guess_all-Counted :
    (secret : Secret) (source start n : ℕ) (guesses : List Guess) (failures : List LoginFailure)
    → Counted source start n failures
    → n + length guesses ≤ max_login_failures
    → All (IsWrongBefore secret (start + login_failure_window)) guesses
    → Counted source start (n + length guesses) (guess_all secret source guesses failures)
unfolding guess_all
guess_all-Counted secret source start n [] failures c few wrong =
    let same : n + 0 ≡ n = omega arith in rw (same) c
guess_all-Counted secret source start n (g ∷ guesses) failures c few wrong =
    let step =
      verify-wrong secret source start n g.0 g.1 failures c (omega (arith, few)) wrong.0.1
        wrong.0.0 in
    let shift : n + suc (length guesses) ≡ n + 1 + length guesses = omega arith in
    rw (shift) (
      guess_all-Counted secret source start (n + 1) guesses
        (verify_login secret source g.0 g.1 failures).1 step (omega (arith, few)) wrong.1)

first-wrong :
    (secret : Secret) (source : ℕ) (password : Text) (start : ℕ) (failures : List LoginFailure)
    → failure_of source (prune_failures start failures) ≡ none
    → password_matches secret password ≡ false
    → Counted source start 1 (verify_login secret source password start failures).1
unfolding verify_login by_key
first-wrong secret source password start failures none_yet wrong = ground (arith, none_yet, wrong)

seconds_up-bound : (remaining : ℕ) → remaining ≤ login_failure_window → seconds_up remaining ≤ 60
seconds_up-bound remaining h = omega (arith, h, div-add-mod (remaining + (second - 1)) second)

least-bounds : (n : ℕ) → n ≤ 60 → (1 ≤ at_least_one n) × (at_least_one n ≤ 60)
least-bounds n h = (ground arith, ground arith)

retry-bounds :
    (now start n source : ℕ)
    → start ≤ now
    → (1 ≤ retry_after now (record { source = source; window_started_at = start; count = n }))
      × (retry_after now (record { source = source; window_started_at = start; count = n }) ≤ 60)
unfolding retry_after
retry-bounds now start n source h =
    let up : seconds_up (start + login_failure_window - now) ≤ 60 =
      seconds_up-bound (start + login_failure_window - now) (omega (arith, h)) in
    least-bounds (seconds_up (start + login_failure_window - now)) up

-- An attempt of a source that is locked out leaves it locked out.
guess_all-locked :
    (secret : Secret) (source start n : ℕ) (guesses : List Guess) (failures : List LoginFailure)
    → Counted source start n failures
    → max_login_failures ≤ n
    → All (λ (g : Guess). g.1 < start + login_failure_window) guesses
    → Counted source start n (guess_all secret source guesses failures)
unfolding guess_all
guess_all-locked secret source start n [] failures c full before = c
guess_all-locked secret source start n (g ∷ guesses) failures c full before =
    let step = verify-limited secret source start n g.0 g.1 failures c full before.0 in
    let kept = failure-prune source g.1 failures _ c before.0 in
    rw (step) (
      guess_all-locked secret source start n guesses (prune_failures g.1 failures) kept full
        before.1)

-- Five wrong passwords of a source without failures, all within a minute of the first, lock it out
-- for the rest of that minute: however many attempts of it follow within the minute, with whatever
-- passwords, the next one is refused too, the right password included, with a number of seconds to
-- wait from 1 to 60.
pub verify_login-lockout :
    (secret : Secret) (source : ℕ) (first : Text) (start : ℕ) (more later : List Guess)
    (failures : List LoginFailure) (password : Text) (now : ℕ)
    → failure_of source (prune_failures start failures) ≡ none
    → password_matches secret first ≡ false
    → length more ≡ 4
    → All (IsWrongBefore secret (start + login_failure_window)) more
    → All (λ (g : Guess). g.1 < start + login_failure_window) later
    → start ≤ now
    → now < start + login_failure_window
    → let outcome =
        (verify_login secret source password now (
          guess_all secret source later
            (guess_all secret source ((first, start) ∷ more) failures))).0 in
      (outcome.0 ≡ false) × (1 ≤ outcome.1) × (outcome.1 ≤ 60)
unfolding guess_all
verify_login-lockout secret source first start more later failures password now none_yet wrong four
      all_wrong all_before since before =
    let one = first-wrong secret source first start failures none_yet wrong in
    let five =
      guess_all-Counted secret source start 1 more
        (verify_login secret source first start failures).1 one (omega (arith, four)) all_wrong in
    let locked =
      guess_all-locked secret source start (1 + length more) later
        (guess_all secret source more (verify_login secret source first start failures).1) five
        (omega (arith, four)) all_before in
    let result =
      verify-limited secret source start (1 + length more) password now
        (guess_all secret source later
          (guess_all secret source more (verify_login secret source first start failures).1))
        locked (omega (arith, four)) before in
    let bounds = retry-bounds now start (1 + length more) source since in
    rw (result) (refl, bounds.0, bounds.1)

counted_source :
    (source now : ℕ) (failures : List LoginFailure)
    → (one_more source now (failure_of source failures)).source ≡ source
counted_source source now failures = elim (Option-cases (failure_of source failures)) [
  | inl e ↦ rw (e) refl
  | inr (f, e) ↦ rw (e) (key-by_key (λ (g : LoginFailure). g.source) source failures f e)
]

-- An attempt of one source never changes what is counted for another: behind it, the other has the
-- failures that the attempt's pruning leaves.
pub verify_login-isolated :
    (secret : Secret) (source other : ℕ) (password : Text) (now : ℕ) (failures : List LoginFailure)
    → (other == source) ≡ false
    → failure_of other (verify_login secret source password now failures).1
      ≡ failure_of other (prune_failures now failures)
unfolding verify_login by_key
verify_login-isolated secret source other password now failures d = ground (
  arith,
  counted_source source now (prune_failures now failures),
  failure-delete source other (prune_failures now failures) d,
)
