-- ===== src/Parser/Brackets.antt =====
-- The two inner loops of `parseFilterSub`, which look for the end of a bracket.
use policy_conditions.Base.{ℕ, suc, ◌+◌, ◌-◌, Bool, not, ◌&&◌, [], ◌∷◌, ◌==◌, if◌then◌else◌}
use policy_conditions.Base.Text.{Text}

-- The loop for `(`: from the text behind `charPos`, the value of `charPos` at its end, and of
-- `bracketCount`, which is 0 if the bracket was closed there.
unfoldable pub close_bracket : Text → ℕ → ℕ → Bool → ℕ × ℕ
close_bracket [] p n quoted = (p, n)
close_bracket (c ∷ cs) p n quoted =
    let n' =
      if c == b'(' && not quoted then n + 1 else if c == b')' && not quoted then n - 1 else n in
    let later = close_bracket cs (p + 1) n' (if c == b'"' then not quoted else quoted) in
    if n' == 0 then (p, 0) else later

-- How the loop for `[` ends, with the value of `charPos`.
pub data Square : Type 0 where
  closed : ℕ → Square
  unclosed second : Square

unfoldable pub close_square : Text → ℕ → Bool → Square
close_square [] p quoted = unclosed
close_square (c ∷ cs) p quoted =
    let later = close_square cs (p + 1) (if c == b'"' then not quoted else quoted) in
    if c == b'[' && not quoted then second else if c == b']' && not quoted then closed p else later

-- the length of the text up to a blank
unfoldable pub word_length : Text → ℕ
word_length [] = 0
word_length (c ∷ cs) = let n = word_length cs in if c == 32 then 0 else suc n
