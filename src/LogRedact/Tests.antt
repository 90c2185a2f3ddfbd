-- ===== src/LogRedact/Tests.antt =====
-- internal/logredact: a line that names a secret twice.
use vibe_forge.Base.{◌≡◌, refl, [], ◌∷◌, ◌++◌, Text, codes, arith, Occurs, starts_with, contains}
use vibe_forge.LogRedact.{new_logger, replace_behind, printf_line}
use vibe_forge.LogRedact.Hides.{IsHideable, printf_line-hides}

abbrev api_key : Text
api_key = codes "sk-1"

abbrev line : Text
line = codes "bad key sk-1, tok sk-12"

api_key-IsHideable : IsHideable api_key
unfolding contains
api_key-IsHideable = (λ e. absurd (ground arith), refl, refl, refl)

printf_line-hides_example :
    ¬ Occurs api_key (printf_line (new_logger (([] ∷ []) ++ api_key ∷ [])) line)
printf_line-hides_example = printf_line-hides api_key api_key-IsHideable ([] ∷ []) [] line

redacted :
    printf_line (new_logger ([] ∷ api_key ∷ [])) line ≡ codes "bad key [REDACTED], tok [REDACTED]2"
unfolding printf_line new_logger replace_behind starts_with
redacted = refl
