-- ===== src/Types/Value/Numeric.antt =====
-- The regular expression by which `ParseValue` tells a number.
use policy_conditions.Base.{
  ℕ, leb, Bool, true, false, ◌&&◌, ◌||◌, ◌≡◌, refl, [], ◌∷◌, ◌==◌, if◌then◌else◌,
}
use policy_conditions.Base.Text.{Text, codes}

pub data Regex : Type 0 where
  never empty : Regex
  class : (ℕ → Bool) → Regex
  seq alt : Regex → Regex → Regex
  star : Regex → Regex

nullable : Regex → Bool
nullable never = false
nullable empty = true
nullable (class p) = false
nullable (seq r s) = nullable r && nullable s
nullable (alt r s) = nullable r || nullable s
nullable (star r) = true

-- what must follow a first character
derive : ℕ → Regex → Regex
unfolding nullable
derive c never = never
derive c empty = never
derive c (class p) = if p c then empty else never
derive c (seq r s) =
    let first = seq (derive c r) s in
    let second = derive c s in if nullable r then alt first second else first
derive c (alt r s) = alt (derive c r) (derive c s)
derive c (star r) = seq (derive c r) (star r)

matches : Regex → Text → Bool
unfolding nullable derive
matches r [] = nullable r
matches r (c ∷ cs) = matches (derive c r) cs

abbrev optional : Regex → Regex
optional r = alt r empty

abbrev char : ℕ → Regex
char c = class (λ d. d == c)

abbrev digit : Regex
digit = class (λ d. leb b'0' d && leb d b'9')

abbrev sign : Regex
sign = optional (class (λ d. d == b'+' || d == b'-'))

-- `^[+\-]?(?:(?:0|[1-9]\d*)(?:\.\d*)?|\.\d+)(?:\d[eE][+\-]?\d+)?$`
abbrev number_format : Regex
number_format = seq sign (
    seq
      (alt
        (seq (alt (char b'0') (seq (class (λ d. leb b'1' d && leb d b'9')) (star digit)))
          (optional (seq (char b'.') (star digit))))
        (seq (char b'.') (seq digit (star digit))))
      (optional (
        seq digit (seq (class (λ d. d == b'e' || d == b'E')) (seq sign (seq digit (star digit)))))))

unfoldable pub is_numeric : Text → Bool
unfolding matches
is_numeric = matches number_format

numeric_runs :
    (is_numeric (codes "-12.50") ≡ true)
    × (is_numeric (codes ".5") ≡ true)
    × (is_numeric (codes "15e3") ≡ true)
    × (is_numeric (codes "5e3") ≡ false)
    × (is_numeric (codes "007") ≡ false)
    × (is_numeric (codes "1a") ≡ false)
unfolding is_numeric
numeric_runs = (refl, refl, refl, refl, refl, refl)
