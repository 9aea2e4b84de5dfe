-- ===== src/Policy/Json.antt =====
-- `json.Marshal` of the parts of a policy of which the etag is made.
use Prim.Native.Nat.{◌/◌, ◌%◌}
use policy_conditions.Base.{
  ℕ, ◌+◌, ◌-◌, leb, ◌||◌, Option, none, some, List, [], ◌∷◌, ◌++◌, ◌==◌, if◌then◌else◌,
}
use policy_conditions.Base.Lists.{is_empty}
use policy_conditions.Base.Text.{Text, codes, join}

hex : ℕ → ℕ
hex n = if leb n 9 then b'0' + n else b'a' + (n - 10)

json_char : ℕ → Text
unfolding hex
json_char c =
    if c == b'"' || c == b'\\'
    then b'\\' ∷ c ∷ []
    else if c == 8
    then codes "\\b"
    else if c == 12
    then codes "\\f"
    else if c == 10
    then codes "\\n"
    else if c == 13
    then codes "\\r"
    else if c == 9
    then codes "\\t"
    else if leb c 31 || c == b'<' || c == b'>' || c == b'&'
    then codes "\\u00" ++ (hex (c / 16) ∷ hex (c % 16) ∷ [])
    else c ∷ []

json_chars : Text → Text
unfolding json_char
json_chars [] = []
json_chars (c ∷ cs) = json_char c ++ json_chars cs

unfoldable pub json_string : Text → Text
unfolding json_chars
json_string s = b'"' ∷ (json_chars s ++ codes "\"")

json_all : List Text → List Text
unfolding json_string
json_all [] = []
json_all (s ∷ ss) = json_string s ∷ json_all ss

-- A slice of strings; a nil slice is `null`.
unfoldable pub json_strings : Option (List Text) → Text
unfolding json_all
json_strings none = codes "null"
json_strings (some ss) = b'[' ∷ (join (codes ",") (json_all ss) ++ codes "]")

-- A field with `omitempty`
unfoldable pub json_field : Text → Text → List Text
unfolding json_string
json_field name value =
    if is_empty value then [] else (json_string name ++ (b':' ∷ json_string value)) ∷ []
