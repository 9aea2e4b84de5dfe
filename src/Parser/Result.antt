-- ===== src/Parser/Result.antt =====
-- The errors of `ParseFilter`, and results that may be such an error.
use policy_conditions.Base.Text.{Text}

pub data ParseError : Type 0 where
  missing_open_bracket missing_close_bracket second_square missing_close_square : ParseError
  missing_open_square missing_square incomplete missing_logic bad_value no_fuel : ParseError
  unsupported_operator : Text → ParseError

-- what a Go function returns with an error beside its value
pub data Result {ℓ} (Expected : Type ℓ) : Type ℓ where
  err : ParseError → Result Expected
  ok : Expected → Result Expected

-- `if err != nil { return nil, err }`
infixl 5 ◌>>=◌
abbrev pub ◌>>=◌ {ℓ κ} : {A : Type ℓ} {B : Type κ} → Result A → (A → Result B) → Result B
err e >>= next = err e
ok a >>= next = next a
