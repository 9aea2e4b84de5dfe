-- ===== src/Types/Quote.antt =====
-- `strconv.Quote`, and `strconv.Unquote` of a text in double quotes, over ASCII.
use policy_conditions.Base.{
  ℕ, ◌+◌, ◌-◌, leb, ◌≡◌, refl, ◌&&◌, ◌||◌, Option, none, some, [], ◌∷◌, ◌++◌, ◌==◌, if◌then◌else◌,
}
use Prim.Native.Nat.{◌*◌, ◌/◌, ◌%◌}
use policy_conditions.Base.Lists.{is_empty}
use policy_conditions.Base.Text.{Text, codes}

hex_digit : ℕ → ℕ
hex_digit n = if leb n 9 then b'0' + n else b'a' + (n - 10)

escape : ℕ → Text
unfolding hex_digit
escape c =
    if c == b'"' || c == b'\\'
    then b'\\' ∷ c ∷ []
    else if c == 7
    then codes "\\a"
    else if c == 8
    then codes "\\b"
    else if c == 12
    then codes "\\f"
    else if c == 10
    then codes "\\n"
    else if c == 13
    then codes "\\r"
    else if c == 9
    then codes "\\t"
    else if c == 11
    then codes "\\v"
    else if leb c 31 || c == 127
    then b'\\' ∷ b'x' ∷ hex_digit (c / 16) ∷ hex_digit (c % 16) ∷ []
    else c ∷ []

escaped : Text → Text
unfolding escape
escaped [] = []
escaped (c ∷ cs) = escape c ++ escaped cs

-- `strconv.Quote`
unfoldable pub quote : Text → Text
unfolding escaped
quote s = b'"' ∷ (escaped s ++ (b'"' ∷ []))

-- the value of a hexadecimal digit
hex_value : ℕ → Option ℕ
hex_value c =
    if leb b'0' c && leb c b'9'
    then some (c - b'0')
    else if leb b'a' c && leb c b'f'
    then some (c - b'a' + 10)
    else if leb b'A' c && leb c b'F'
    then some (c - b'A' + 10)
    else none

-- the character that a one-letter escape stands for
simple_escape : ℕ → Option ℕ
simple_escape c =
    if c == b'"' || c == b'\\'
    then some c
    else if c == b'a'
    then some 7
    else if c == b'b'
    then some 8
    else if c == b'f'
    then some 12
    else if c == b'n'
    then some 10
    else if c == b'r'
    then some 13
    else if c == b't'
    then some 9
    else if c == b'v'
    then some 11
    else none

abbrev cons_some : Option ℕ → Option Text → Option Text
cons_some (some c) (some cs) = some (c ∷ cs)
cons_some _ _ = none

pub data Mode : Type 0 where
  plain escaping hex : Mode
  hex_rest : Option ℕ → Mode

abbrev hex_pair : Option ℕ → Option ℕ → Option ℕ
hex_pair (some a) (some b) = some (a * 16 + b)
hex_pair _ _ = none

-- The text behind the opening quote, up to the closing one, which ends it. The escapes `\u`, `\U`
-- and of octal digits are refused; they name characters that ASCII text has other escapes for.
unquote_rest : Mode → Text → Option Text
unfolding hex_value simple_escape
unquote_rest m [] = none
unquote_rest plain (c ∷ s) =
    let start = unquote_rest escaping s in
    let next = cons_some (some c) (unquote_rest plain s) in
    if c == b'\\'
    then start
    else if c == b'"'
    then (if is_empty s then some [] else none)
    else if c == 10
    then none
    else next
unquote_rest escaping (c ∷ s) =
    let digits = unquote_rest hex s in
    let next = cons_some (simple_escape c) (unquote_rest plain s) in
    if c == b'x' then digits else next
unquote_rest hex (c ∷ s) = unquote_rest (hex_rest (hex_value c)) s
unquote_rest (hex_rest high) (c ∷ s) =
    cons_some (hex_pair high (hex_value c)) (unquote_rest plain s)

abbrev or_empty : Option Text → Text
or_empty none = []
or_empty (some s) = s

-- `strconv.Unquote` of a text in double quotes; where it fails Go gives the empty text back too.
unfoldable pub unquote : Text → Text
unfolding unquote_rest
unquote [] = []
unquote (c ∷ s) = if c == b'"' then or_empty (unquote_rest plain s) else []

quote_runs : quote (codes "a\"b\n") ≡ codes "\"a\\\"b\\n\""
unfolding quote
quote_runs = refl

unquote_runs : unquote (quote (codes "a\"b\n\\")) ≡ codes "a\"b\n\\"
unfolding quote unquote
unquote_runs = refl
